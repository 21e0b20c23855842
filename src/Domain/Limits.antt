-- ===== src/Domain/Limits.antt =====
-- The limits of health policies and of the intervals (src/domain/health.rs, src/domain/application.rs,
-- src/domain/validation.rs). Numbers are of `u8`, `u16` and `u32`, far above the limits.
use solodock.Base.{
  ◌+◌, ◌*◌, ℕ, ◌≤◌, Bool, ◌&&◌, ◌||◌, not, ◌==◌, leb, none, some, String, Result, ok, ensure, ◌>>◌,
  ◌≡◌, arith, ensure_iff, sequence_iff, both_true,
}
use native.Mathlib.Nat.{mul-le-mul}
use solodock.Base.Text.{Text, lit, same}
use solodock.Deploy.Health.{HealthPolicy, HttpHealthcheck, health_deadline}
use solodock.Domain.Errors.{DomainError, DraftValidationError, at}
use solodock.Domain.Names.{first_is, has_control}

pub record NumericLimit : Type 0 where
  pub min : ℕ
  pub max : ℕ
  pub default_value : ℕ

pub record HealthConfigurationLimits : Type 0 where
  pub running_stable_window_seconds : NumericLimit
  pub http_interval_seconds : NumericLimit
  pub http_timeout_seconds : NumericLimit
  pub http_retries : NumericLimit
  pub http_start_period_seconds : NumericLimit
  pub stop_grace_period_seconds : NumericLimit

abbrev pub health_configuration_limits : HealthConfigurationLimits
health_configuration_limits = record {
  running_stable_window_seconds = record { min = 5; max = 300; default_value = 15 };
  http_interval_seconds = record { min = 1; max = 300; default_value = 10 };
  http_timeout_seconds = record { min = 1; max = 60; default_value = 5 };
  http_retries = record { min = 1; max = 10; default_value = 6 };
  http_start_period_seconds = record { min = 0; max = 300; default_value = 30 };
  stop_grace_period_seconds = record { min = 1; max = 600; default_value = 10 };
}

-- `(limit.min..=limit.max).contains(&value)`.
abbrev pub within : NumericLimit → ℕ → Bool
within limit value = leb limit.min value && leb value limit.max

abbrev pub check_limit : NumericLimit → String → ℕ → Result DraftValidationError (Unit {0})
check_limit limit path value =
    ensure (within limit value) (at DomainError.config_invalid (lit path) "OUT_OF_RANGE")

abbrev pub is_health_host : Text → Bool
is_health_host host =
    same host (lit "127.0.0.1") || (same host (lit "localhost") || same host (lit "::1"))

-- The address of the check.
unfoldable pub check_address : HttpHealthcheck → Result DraftValidationError (Unit {0})
unfolding has_control
check_address http = do
  ensure (same http.scheme (lit "http"))
      (at DomainError.config_invalid (lit "health.http.scheme") "INVALID_VALUE")
  ensure (is_health_host http.host)
      (at DomainError.config_invalid (lit "health.http.host") "INVALID_VALUE")
  ensure (not (http.port == 0))
      (at DomainError.config_invalid (lit "health.http.port") "OUT_OF_RANGE")
  ensure (first_is (λ b. b == b'/') http.path && not (has_control http.path))
      (at DomainError.config_invalid (lit "health.http.path") "INVALID_VALUE")

abbrev pub check_interval : ℕ → Result DraftValidationError (Unit {0})
check_interval =
    check_limit health_configuration_limits.http_interval_seconds "health.http.interval_seconds"

abbrev pub check_timeout : ℕ → Result DraftValidationError (Unit {0})
check_timeout =
    check_limit health_configuration_limits.http_timeout_seconds "health.http.timeout_seconds"

abbrev pub check_retries : ℕ → Result DraftValidationError (Unit {0})
check_retries = check_limit health_configuration_limits.http_retries "health.http.retries"

abbrev pub check_start_period : ℕ → Result DraftValidationError (Unit {0})
check_start_period =
    check_limit health_configuration_limits.http_start_period_seconds
      "health.http.start_period_seconds"

unfoldable pub validate_http : HttpHealthcheck → Result DraftValidationError (Unit {0})
unfolding check_address
validate_http http =
    check_address http
    >> (check_interval http.interval_seconds
        >> (check_timeout http.timeout_seconds
            >> (check_retries http.retries >> check_start_period http.start_period_seconds)))

unfoldable pub validate_health : HealthPolicy → Result DraftValidationError (Unit {0})
unfolding validate_http
validate_health (HealthPolicy.healthy none) = ok tt
validate_health HealthPolicy.completed = ok tt
validate_health (HealthPolicy.running window) =
    check_limit health_configuration_limits.running_stable_window_seconds
      "health.stable_window_seconds" window
validate_health (HealthPolicy.disabled acknowledge_reduced_safety) =
    ensure acknowledge_reduced_safety
      (at DomainError.config_invalid (lit "health.acknowledge_reduced_safety") "ACK_REQUIRED")
validate_health (HealthPolicy.healthy (some http)) = validate_http http

-- The two intervals of the draft.
unfoldable pub validate_intervals : ℕ → ℕ → Result DraftValidationError (Unit {0})
validate_intervals poll_interval_seconds stop_grace_period_seconds = do
  ensure (leb 60 poll_interval_seconds && leb poll_interval_seconds 86400)
      (at DomainError.config_invalid (lit "poll_interval_seconds") "OUT_OF_RANGE")
  check_limit health_configuration_limits.stop_grace_period_seconds "stop_grace_period_seconds"
      stop_grace_period_seconds

check_limit_sound :
    (limit : NumericLimit) (path : String) (value : ℕ)
    → check_limit limit path value ≡ ok tt
    → value ≤ limit.max
check_limit_sound limit path value h =
    let (low, high) =
      both_true (leb limit.min value) (leb value limit.max) ((ensure_iff _ _).0 h) in
    ground arith

product_le : (r i t : ℕ) → r ≤ 10 → i ≤ 300 → t ≤ 60 → r * (i + t) ≤ 3600
product_le r i t hr hi ht = let sum_le : i + t ≤ 360 = omega arith in mul-le-mul hr sum_le

validate_http-deadline :
    (http : HttpHealthcheck)
    → validate_http http ≡ ok tt
    → health_deadline (HealthPolicy.healthy (some http)) ≤ 3910
unfolding validate_http health_deadline
validate_http-deadline http h =
    let (address, h1) = (sequence_iff (check_address http) _).0 h in
    let (interval, h2) = (sequence_iff (check_interval http.interval_seconds) _).0 h1 in
    let (timeout, h3) = (sequence_iff (check_timeout http.timeout_seconds) _).0 h2 in
    let (retries, start) =
      (sequence_iff (check_retries http.retries) (check_start_period http.start_period_seconds)).0
        h3 in
    let start_le =
      check_limit_sound health_configuration_limits.http_start_period_seconds
        "health.http.start_period_seconds" http.start_period_seconds start in
    let product =
      product_le http.retries http.interval_seconds http.timeout_seconds
        (check_limit_sound health_configuration_limits.http_retries "health.http.retries"
          http.retries retries)
        (check_limit_sound health_configuration_limits.http_interval_seconds
          "health.http.interval_seconds" http.interval_seconds interval)
        (check_limit_sound health_configuration_limits.http_timeout_seconds
          "health.http.timeout_seconds" http.timeout_seconds timeout) in
    omega (arith, start_le, product)

-- An accepted health policy is decided within 3910 seconds.
pub validate_health-health_deadline :
    (policy : HealthPolicy) → validate_health policy ≡ ok tt → health_deadline policy ≤ 3910
unfolding validate_health health_deadline
validate_health-health_deadline (HealthPolicy.healthy none) h = omega arith
validate_health-health_deadline HealthPolicy.completed h = omega arith
validate_health-health_deadline (HealthPolicy.running window) h = ground (
  arith,
  check_limit_sound health_configuration_limits.running_stable_window_seconds
      "health.stable_window_seconds" window h,
)
validate_health-health_deadline (HealthPolicy.disabled b) h = omega arith
validate_health-health_deadline (HealthPolicy.healthy (some http)) h = validate_http-deadline http h
