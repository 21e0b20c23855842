-- ===== src/Deploy/Health/Gate.antt =====
-- What the health policies accept, and what `recheck` accepts again (src/deploy/health.rs).
use solodock.Base.Int.{int_eq_iff, option_int_iff}
use solodock.Base.Text.{same_iff, option_same_iff}
use solodock.Deploy.Health.{
  completed, healthy, running, disabled, pos, HealthStatus, is_zero, HealthResult, ContainerStatus,
  ℤ, running_ready, recheck, completed_ready, ContainerRecord, HealthPolicy, policy_ready,
}
use solodock.Base.{◌≡◌, ◌↔◌, ap, true, Option, none, some, arith, ok}

-- The containers that are ready, by policy.
abbrev pub Ready : HealthPolicy → ContainerRecord → Type 0
Ready (healthy http) c = (c.status ≡ ContainerStatus.running) × (c.health ≡ HealthStatus.healthy)
Ready (running window) c = c.status ≡ ContainerStatus.running
Ready completed c = (c.status ≡ ContainerStatus.exited) × (c.exit_code ≡ some (pos 0))
Ready (disabled ack) c = c.status ≡ ContainerStatus.running

zero_code : (code : Option ℤ) → is_zero code ≡ true → code ≡ some (pos 0)
zero_code none h = cc
zero_code (some z) h = ap some ((int_eq_iff z (pos 0)).0 h)

completed_Ready :
    (s : ContainerStatus) (code : Option ℤ)
    → completed_ready s code ≡ ok true
    → (s ≡ ContainerStatus.exited) × (code ≡ some (pos 0))
unfolding completed_ready
completed_Ready s code h = ground (arith, zero_code code)

-- A container that `policy_ready` accepts is ready, and the other way round.
pub policy_ready_iff :
    (policy : HealthPolicy) (c : ContainerRecord)
    → (policy_ready c policy ≡ ok true) ↔ Ready policy c
unfolding policy_ready running_ready completed_ready
policy_ready_iff (healthy http) c = (λ h. ground arith, λ h. ground arith)
policy_ready_iff (running window) c = (λ h. ground arith, λ h. ground arith)
policy_ready_iff completed c = (λ h. completed_Ready c.status c.exit_code h, λ h. ground arith)
policy_ready_iff (disabled ack) c = (λ h. ground arith, λ h. ground arith)

-- `recheck` accepts exactly a container with the id, the start and the restart count of the verified
-- one that is ready by the policy.
pub recheck_iff :
    (result : HealthResult) (c : ContainerRecord) (policy : HealthPolicy)
    → (recheck result c policy ≡ ok tt) ↔ (
        (c.id ≡ result.verified_container.id)
        × (c.started_at ≡ result.verified_container.started_at)
        × (c.restart_count ≡ result.verified_container.restart_count)
        × Ready policy c)
unfolding recheck
recheck_iff result c policy = (
  λ h. ground (
    arith,
    same_iff c.id result.verified_container.id,
    option_same_iff c.started_at result.verified_container.started_at,
    option_int_iff c.restart_count result.verified_container.restart_count,
    policy_ready_iff policy c,
  ),
  λ h. ground (
    arith,
    same_iff c.id result.verified_container.id,
    option_same_iff c.started_at result.verified_container.started_at,
    option_int_iff c.restart_count result.verified_container.restart_count,
    policy_ready_iff policy c,
  ),
)
