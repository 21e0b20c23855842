-- ===== src/Domain/Networks.antt =====
-- The networks of an application (src/domain/networks.rs).
use solodock.Base.{
  ℕ, suc, ◌+◌, ◌-◌, Bool, true, false, ◌&&◌, ◌||◌, not, ◌==◌, leb, ltb, Option, none, some, List,
  [], ◌∷◌, ◌++◌, length, any, map, String, Result, ok, err, ensure, ◌>>=◌, ◌>>◌, if◌then◌else◌,
}
use solodock.Base.Text.{Text, lit, same}
use solodock.Domain.Errors.{DomainError, issue_path, print_index}
use solodock.Domain.Names.{validate_network_name, validate_alias}
use solodock.Domain.Sorting.{sort_by_key, insert_by_key, text_leb, has_text}
pub mod Plan

abbrev pub max_external_networks : ℕ
max_external_networks = 8

abbrev pub max_network_aliases : ℕ
max_network_aliases = 8

abbrev pub platform_network_name : Text
platform_network_name = lit "solodock-services"

pub data NetworkInput : Type 0 where
  owned_default : NetworkInput
  external : Text → List Text → NetworkInput

pub data NetworkMode : Type 0 where
  owned_only owned_and_external external_only owned_and_platform : NetworkMode
  owned_platform_and_external platform_and_external platform_only : NetworkMode

pub record ExternalNetworkAttachment : Type 0 where
  pub name : Text
  pub aliases : List Text
  pub source_index : ℕ

pub data ExpectedNetworkKind : Type 0 where
  owned_default platform external : ExpectedNetworkKind

pub record ExpectedNetwork : Type 0 where
  pub name : Text
  pub kind : ExpectedNetworkKind
  pub aliases : List Text

pub record NetworkPlan : Type 0 where
  pub owned_default_network : Bool
  pub service_discovery_enabled : Bool
  pub mode : NetworkMode
  pub external : List ExternalNetworkAttachment

pub record AppResourceNames : Type 0 where
  pub project_name : Text
  pub owned_default_network_name : Text
  pub bridge_name : Text

-- The error, with the path and the code of its issue.
pub record NetworkValidationError : Type 0 where
  pub error : DomainError
  pub path : Text
  pub code : String

abbrev pub network_error : DomainError → Text → String → NetworkValidationError
network_error error path code = record { error = error; path = path; code = code }

-- `map_err` to a network issue.
abbrev pub at_network {ℓ} :
    {A : Type ℓ} → Text → String → Result DomainError A → Result NetworkValidationError A
at_network path code (ok a) = ok a
at_network path code (err error) = err (network_error error path code)

abbrev pub expect_external : ExternalNetworkAttachment → ExpectedNetwork
expect_external attachment = record {
  name = attachment.name;
  kind = ExpectedNetworkKind.external;
  aliases = attachment.aliases;
}

-- The networks of a plan before they are sorted.
unfoldable pub all_expected : NetworkPlan → AppResourceNames → Text → List ExpectedNetwork
all_expected plan names service_alias =
    let owned : ExpectedNetwork = record {
      name = names.owned_default_network_name;
      kind = ExpectedNetworkKind.owned_default;
      aliases = [];
    } in
    let platform : ExpectedNetwork = record {
      name = platform_network_name;
      kind = ExpectedNetworkKind.platform;
      aliases = service_alias ∷ [];
    } in
    (if plan.owned_default_network then owned ∷ [] else [])
    ++ ((if plan.service_discovery_enabled then platform ∷ [] else [])
        ++ map expect_external plan.external)

unfoldable pub expected_networks : NetworkPlan → AppResourceNames → Text → List ExpectedNetwork
unfolding all_expected sort_by_key
expected_networks plan names service_alias =
    sort_by_key (λ network. network.name) (all_expected plan names service_alias)

-- `format!("networks[{source_index}].aliases[{alias_index}]")`.
unfoldable pub alias_path : ℕ → ℕ → Text
unfolding issue_path print_index
alias_path source_index alias_index =
    issue_path "networks" source_index ".aliases[" ++ (print_index 20 alias_index ++ lit "]")

unfoldable pub check_aliases :
    ℕ → ℕ → List Text → List Text → Result NetworkValidationError (Unit {0})
unfolding validate_alias alias_path
check_aliases source_index alias_index seen [] = ok tt
check_aliases source_index alias_index seen (alias ∷ aliases) =
    let rest = check_aliases source_index (suc alias_index) (alias ∷ seen) aliases in
    at_network (alias_path source_index alias_index) "INVALID_VALUE" (validate_alias alias)
    >> (ensure (not (has_text seen alias)) (
          network_error DomainError.config_invalid (alias_path source_index alias_index)
            "NETWORK_ALIAS_DUPLICATE")
        >> rest)

unfoldable pub check_external :
    ℕ → Bool → List Text → Text → List Text → Result NetworkValidationError (Unit {0})
unfolding validate_network_name check_aliases issue_path
check_external index reserve_platform_name names name aliases =
    let name_path = issue_path "networks" index ".name" in
    let aliases_path = issue_path "networks" index ".aliases" in
    ensure (not (reserve_platform_name && same name platform_network_name))
      (network_error DomainError.config_invalid name_path "NETWORK_NAME_RESERVED")
    >> (at_network name_path "INVALID_VALUE" (validate_network_name name)
        >> (ensure (not (has_text names name))
              (network_error DomainError.config_invalid name_path "NETWORK_DUPLICATE")
            >> (ensure (leb (length aliases) max_network_aliases) (
                  network_error DomainError.config_quota_exceeded aliases_path
                    "CONFIG_QUOTA_EXCEEDED")
                >> check_aliases index 0 [] aliases)))

-- The loop over the networks.
unfoldable pub check_networks :
    ℕ → Bool → List Text → List NetworkInput → Result NetworkValidationError (Unit {0})
unfolding check_external
check_networks index reserve names [] = ok tt
check_networks index reserve names (NetworkInput.owned_default ∷ networks) =
    check_networks (suc index) reserve names networks
check_networks index reserve names (NetworkInput.external name aliases ∷ networks) =
    let rest = check_networks (suc index) reserve (name ∷ names) networks in
    check_external index reserve names name aliases >> rest

-- `owned_markers` after the loop.
abbrev pub owned_markers : List NetworkInput → ℕ
owned_markers [] = 0
owned_markers (NetworkInput.owned_default ∷ networks) = suc (owned_markers networks)
owned_markers (NetworkInput.external name aliases ∷ networks) = owned_markers networks

unfoldable pub validate_network_inputs :
    Bool → Bool → List NetworkInput → Bool → Result NetworkValidationError (Unit {0})
unfolding check_networks
validate_network_inputs owned_default_network service_discovery_enabled networks reserve =
    let external_count = length networks - owned_markers networks in
    check_networks 0 reserve [] networks
    >> (ensure (leb external_count max_external_networks)
          (network_error DomainError.config_quota_exceeded (lit "networks") "CONFIG_QUOTA_EXCEEDED")
        >> (ensure
              (not (
                ltb 1 (owned_markers networks)
                || (not owned_default_network && not (owned_markers networks == 0))))
              (network_error DomainError.config_invalid (lit "networks") "NETWORK_INVALID")
            >> ensure
                (not (
                  not owned_default_network
                  && (not service_discovery_enabled && external_count == 0)))
                (network_error DomainError.config_invalid (lit "networks") "NETWORK_REQUIRED")))

abbrev pub attachments : ℕ → List NetworkInput → List ExternalNetworkAttachment
attachments index [] = []
attachments index (NetworkInput.owned_default ∷ networks) = attachments (suc index) networks
attachments index (NetworkInput.external name aliases ∷ networks) =
    record { name = name; aliases = aliases; source_index = index }
    ∷ attachments (suc index) networks

abbrev pub is_none_left : List ExternalNetworkAttachment → Bool
is_none_left [] = true
is_none_left (attachment ∷ rest) = false

-- The mode of a plan; none where the code is `unreachable!`.
unfoldable pub network_mode : Bool → Bool → Bool → Option NetworkMode
network_mode true false true = some NetworkMode.owned_only
network_mode true false false = some NetworkMode.owned_and_external
network_mode false false false = some NetworkMode.external_only
network_mode true true true = some NetworkMode.owned_and_platform
network_mode true true false = some NetworkMode.owned_platform_and_external
network_mode false true false = some NetworkMode.platform_and_external
network_mode false true true = some NetworkMode.platform_only
network_mode false false true = none

-- The plan with its mode; none where the code panics.
unfoldable pub with_mode :
    Bool → Bool → List ExternalNetworkAttachment → Option NetworkMode → Option NetworkPlan
with_mode owned_default_network service_discovery_enabled attached none = none
with_mode owned_default_network service_discovery_enabled attached (some mode) = some record {
  owned_default_network = owned_default_network;
  service_discovery_enabled = service_discovery_enabled;
  mode = mode;
  external = attached;
}

unfoldable pub build_network_plan : Bool → Bool → List NetworkInput → Option NetworkPlan
unfolding network_mode sort_by_key with_mode
build_network_plan owned_default_network service_discovery_enabled networks =
    let attached = sort_by_key (λ attachment. attachment.name) (attachments 0 networks) in
    with_mode owned_default_network service_discovery_enabled attached
      (network_mode owned_default_network service_discovery_enabled (is_none_left attached))

-- The order of networks: the number of the kind, then the name.
abbrev pub network_sort_key : NetworkInput → Text
network_sort_key NetworkInput.owned_default = 0 ∷ []
network_sort_key (NetworkInput.external name aliases) = 1 ∷ name

unfoldable pub sort_aliases : NetworkInput → NetworkInput
unfolding sort_by_key
sort_aliases NetworkInput.owned_default = NetworkInput.owned_default
sort_aliases (NetworkInput.external name aliases) =
    NetworkInput.external name (sort_by_key (λ alias. alias) aliases)

-- The networks in their order.
unfoldable pub sort_networks : List NetworkInput → List NetworkInput
unfolding sort_by_key sort_aliases
sort_networks networks = sort_by_key network_sort_key (map sort_aliases networks)

unfoldable pub normalize_networks_with_issues :
    Bool
    → Bool
    → List NetworkInput
    → Result NetworkValidationError (List NetworkInput × Option NetworkPlan)
unfolding validate_network_inputs sort_networks build_network_plan
normalize_networks_with_issues owned_default_network service_discovery_enabled networks = do
  validate_network_inputs owned_default_network service_discovery_enabled networks true
  ok (
    sort_networks networks,
    build_network_plan owned_default_network service_discovery_enabled (sort_networks networks),
  )

-- The error of a result in place of its issue.
abbrev pub plain_error {ℓ} : {A : Type ℓ} → Result NetworkValidationError A → Result DomainError A
plain_error (ok a) = ok a
plain_error (err error) = err error.error

unfoldable pub normalize_networks :
    Bool → Bool → List NetworkInput → Result DomainError (List NetworkInput × Option NetworkPlan)
unfolding normalize_networks_with_issues
normalize_networks owned_default_network service_discovery_enabled networks =
    plain_error
      (normalize_networks_with_issues owned_default_network service_discovery_enabled networks)

unfoldable pub network_plan :
    Bool → Bool → List NetworkInput → Result DomainError (Option NetworkPlan)
unfolding validate_network_inputs build_network_plan
network_plan owned_default_network service_discovery_enabled networks = do
  plain_error
      (validate_network_inputs owned_default_network service_discovery_enabled networks false)
  ok (build_network_plan owned_default_network service_discovery_enabled networks)
