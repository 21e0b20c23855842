-- ===== src/Domain/Networks/Plan.antt =====
-- The plan of the networks of an application (src/domain/networks.rs).
use solodock.Base.{
  not-true, ensure, ℕ, suc, ◌+◌, ◌-◌, ◌≤◌, Bool, true, false, not, ◌&&◌, ◌||◌, Option, some, List,
  [], ◌∷◌, ◌≡◌, refl, map, length, arith, ok, sym, ap, ◌∙◌, leb, ltb, ◌==◌, bind-ok, sequence_iff,
  ensure_iff,
}
use solodock.Base.Text.{lit, Text}
use solodock.Domain.Sorting.{sort_by_key}
use solodock.Domain.Sorting.Kept.{weigh, sort_by_key-weigh, sort_by_key-length}
use solodock.Domain.Networks.{
  normalize_networks_with_issues, DomainError, network_error, is_none_left, expect_external,
  NetworkMode, with_mode, network_mode, check_networks, all_expected, ExternalNetworkAttachment,
  expected_networks, AppResourceNames, NetworkPlan, max_external_networks, validate_network_inputs,
  build_network_plan, owned_markers, network_sort_key, attachments, sort_networks, sort_aliases,
  NetworkInput,
}

-- One for a network that is not the marker.
abbrev external_one : NetworkInput → ℕ
external_one NetworkInput.owned_default = 0
external_one (NetworkInput.external name aliases) = 1

attachments-count :
    (index : ℕ) (networks : List NetworkInput)
    → length (attachments index networks) ≡ weigh external_one networks
attachments-count index [] = refl
attachments-count index (NetworkInput.owned_default ∷ networks) =
    omega (arith, attachments-count (suc index) networks)
attachments-count index (NetworkInput.external name aliases ∷ networks) =
    omega (arith, attachments-count (suc index) networks)

length-networks :
    (networks : List NetworkInput)
    → length networks ≡ owned_markers networks + weigh external_one networks
length-networks [] = refl
length-networks (NetworkInput.owned_default ∷ networks) = omega (arith, length-networks networks)
length-networks (NetworkInput.external name aliases ∷ networks) =
    omega (arith, length-networks networks)

sort_aliases-count :
    (networks : List NetworkInput)
    → weigh external_one (map sort_aliases networks) ≡ weigh external_one networks
unfolding sort_aliases
sort_aliases-count [] = refl
sort_aliases-count (NetworkInput.owned_default ∷ networks) =
    omega (arith, sort_aliases-count networks)
sort_aliases-count (NetworkInput.external name aliases ∷ networks) =
    omega (arith, sort_aliases-count networks)

sort_networks-count :
    (networks : List NetworkInput)
    → weigh external_one (sort_networks networks) ≡ weigh external_one networks
unfolding sort_networks
sort_networks-count networks =
    sort_by_key-weigh external_one network_sort_key (map sort_aliases networks)
    ∙ sort_aliases-count networks

abbrev bit : Bool → ℕ
bit true = 1
bit false = 0

length-map : (xs : List ExternalNetworkAttachment) → length (map expect_external xs) ≡ length xs
length-map [] = refl
length-map (x ∷ xs) = ap suc (length-map xs)

all_expected-length :
    (owned service : Bool) (mode : NetworkMode) (attached : List ExternalNetworkAttachment)
    (names : AppResourceNames) (service_alias : Text)
    → length (
        all_expected
          record {
            owned_default_network = owned;
            service_discovery_enabled = service;
            mode = mode;
            external = attached;
          }
          names
          service_alias)
      ≡ (bit owned + bit service) + length attached
unfolding all_expected
all_expected-length true true mode attached names service_alias = omega (arith, length-map attached)
all_expected-length true false mode attached names service_alias =
    omega (arith, length-map attached)
all_expected-length false true mode attached names service_alias =
    omega (arith, length-map attached)
all_expected-length false false mode attached names service_alias =
    omega (arith, length-map attached)

network_mode-some :
    (owned service : Bool) (attached : List ExternalNetworkAttachment)
    → (not owned && (not service && length attached == 0)) ≡ false
    → (mode : NetworkMode) × ((network_mode owned service (is_none_left attached) ≡ some mode)
        × (1 ≤ (bit owned + bit service) + length attached))
unfolding network_mode
network_mode-some true false [] h = (NetworkMode.owned_only, (refl, omega arith))
network_mode-some true false (x ∷ xs) h = (NetworkMode.owned_and_external, (refl, omega arith))
network_mode-some false false [] h = absurd cc
network_mode-some false false (x ∷ xs) h = (NetworkMode.external_only, (refl, omega arith))
network_mode-some true true [] h = (NetworkMode.owned_and_platform, (refl, omega arith))
network_mode-some true true (x ∷ xs) h =
    (NetworkMode.owned_platform_and_external, (refl, omega arith))
network_mode-some false true [] h = (NetworkMode.platform_only, (refl, omega arith))
network_mode-some false true (x ∷ xs) h = (NetworkMode.platform_and_external, (refl, omega arith))

bit_le : (b : Bool) → bit b ≤ 1
bit_le true = omega arith
bit_le false = omega arith

-- A choice of networks that names one at least has a mode, and its plan expects those it names.
build_network_plan-some :
    (owned service : Bool) (networks : List NetworkInput)
    → weigh external_one networks ≤ max_external_networks
    → (not owned && (not service && weigh external_one networks == 0)) ≡ false
    → (plan : NetworkPlan) × ((build_network_plan owned service networks ≡ some plan)
        × ((names : AppResourceNames) (service_alias : Text)
            → (1 ≤ length (expected_networks plan names service_alias))
              × (length (expected_networks plan names service_alias) ≤ max_external_networks + 2)))
unfolding build_network_plan with_mode expected_networks
build_network_plan-some owned service networks few one =
    let attached = sort_by_key (λ attachment. attachment.name) (attachments 0 networks) in
    let count : length attached ≡ weigh external_one networks =
      sort_by_key-length (λ attachment. attachment.name) (attachments 0 networks)
      ∙ attachments-count 0 networks in
    let (mode, (known, positive)) = network_mode-some owned service attached (rw count one) in
    let plan : NetworkPlan = record {
      owned_default_network = owned;
      service_discovery_enabled = service;
      mode = mode;
      external = attached;
    } in
    (
      plan,
      (
        rw known refl,
        λ names service_alias.
            let total =
              sort_by_key-length (λ network. network.name) (all_expected plan names service_alias)
              ∙ all_expected-length owned service mode attached names service_alias in
            (omega arith, omega (arith, bit_le owned, bit_le service)),
      ),
    )

validate_network_inputs-count :
    (owned service : Bool) (networks : List NetworkInput) (reserve : Bool)
    → validate_network_inputs owned service networks reserve ≡ ok tt
    → (weigh external_one networks ≤ max_external_networks)
      × ((not owned && (not service && weigh external_one networks == 0)) ≡ false)
unfolding validate_network_inputs
validate_network_inputs-count owned service networks reserve h =
    let count : length networks - owned_markers networks ≡ weigh external_one networks =
      omega (arith, length-networks networks) in
    let (u, checked, h1) = bind-ok (check_networks 0 reserve [] networks) _ _ h in
    let (few, h2) =
      (sequence_iff
          (ensure (leb (length networks - owned_markers networks) max_external_networks) (
            network_error DomainError.config_quota_exceeded (lit "networks")
              "CONFIG_QUOTA_EXCEEDED"))
          _).0
        h1 in
    let marker =
      ltb 1 (owned_markers networks) || (not owned && not (owned_markers networks == 0)) in
    let (legacy, some_network) =
      (sequence_iff
          (ensure (not marker)
            (network_error DomainError.config_invalid (lit "networks") "NETWORK_INVALID"))
          _).0
        h2 in
    let bound = (ensure_iff _ _).0 few in
    let chosen = not-true _ ((ensure_iff _ _).0 some_network) in
    let chosen' = rw count at chosen in (ground arith, chosen')

-- When a choice of networks is accepted its plan exists, so that the `unreachable!` of the code is not
-- reached, and under any resource names the plan expects one network at least and ten at most.
pub normalize_networks_with_issues-plan :
    (owned service : Bool) (networks sorted : List NetworkInput) (result : Option NetworkPlan)
    → normalize_networks_with_issues owned service networks ≡ ok (sorted, result)
    → (plan : NetworkPlan) × ((result ≡ some plan)
        × ((names : AppResourceNames) (service_alias : Text)
            → (1 ≤ length (expected_networks plan names service_alias))
              × (length (expected_networks plan names service_alias) ≤ max_external_networks + 2)))
unfolding normalize_networks_with_issues
normalize_networks_with_issues-plan owned service networks sorted result h =
    let (u, valid, h1) = bind-ok (validate_network_inputs owned service networks true) _ _ h in
    let built : build_network_plan owned service (sort_networks networks) ≡ result = cc in
    let (few, one) = validate_network_inputs-count owned service networks true valid in
    let count = sort_networks-count networks in
    let (plan, (known, bounds)) =
      build_network_plan-some owned service (sort_networks networks) (omega (arith))
        (rw count one) in
    (plan, (sym built ∙ known, bounds))
