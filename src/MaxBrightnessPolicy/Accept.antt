-- ===== src/MaxBrightnessPolicy/Accept.antt =====
-- Which statuses sanlight_mesh/max_brightness_policy.py accepts as the answer to a request.
use sanlight_mesh_mqtt_gatew.Base.{
  Bool, if◌then◌else◌, ◌==◌, ℕ, ◌≡◌, ◌↔◌, ◌⊎◌, refl, ap, true, false, Option, none, some, List,
  contains, arith,
}
use sanlight_mesh_mqtt_gatew.MaxBrightnessPolicy.{
  unexpected_source, target_not_lamp, Received, Rejection, is_address, or_reason,
  common_vendor_status_rejection_reason, unicast_status_rejection_reason,
  set_max_status_rejection_reason, max_attempts_for_destination,
}

-- A status that the sender could have been sent: under its key and to its address.
pub record IsAddressed (status : Received) (expected_app_index sender_unicast : ℕ) : Type 0 where
  pub same_key : status.key_index ≡ expected_app_index
  pub same_destination : status.response_destination ≡ some sender_unicast

some-injective : (x a : ℕ) → some x ≡ some a → x ≡ a
some-injective x a h = cc

is_address_lem : (o : Option ℕ) (a : ℕ) → (is_address o a ≡ true) ↔ (o ≡ some a)
is_address_lem none a = (λ h. cc, λ h. cc)
is_address_lem (some x) a =
    (λ h. ap some (ground (arith, h)), λ h. let e = some-injective x a h in ground (arith, e))

common_iff :
    (status : Received) (expected_app_index sender_unicast : ℕ)
    → (common_vendor_status_rejection_reason status expected_app_index sender_unicast ≡ none)
      ↔ IsAddressed status expected_app_index sender_unicast
unfolding common_vendor_status_rejection_reason
common_iff status i u = (
  λ h. record {
    same_key = ground arith;
    same_destination = (is_address_lem status.response_destination u).0 (ground arith);
  },
  λ w.
      let d = (is_address_lem status.response_destination u).1 w.same_destination in
      ground (arith, d, w.same_key),
)

or_reason-none : (a b : Option Rejection) → (or_reason a b ≡ none) ↔ ((a ≡ none) × (b ≡ none))
or_reason-none none b = (λ h. (refl, h), λ w. w.1)
or_reason-none (some r) b = (λ h. cc, λ w. cc)

-- A status from the one lamp that was asked, or, for a group, from any known lamp.
abbrev pub FromTarget : ℕ → ℕ → List ℕ → List ℕ → Type 0
FromTarget source requested nodes groups =
    ((contains nodes requested ≡ true) × (source ≡ requested))
    ⊎ ((contains nodes requested ≡ false)
        × (contains groups requested ≡ true)
        × (contains nodes source ≡ true))

module _ (status : Received) (requested expected_app_index sender_unicast : ℕ)
    (nodes groups : List ℕ) where
  -- A status is accepted as the answer to a set-max exactly when it came under the expected key, to
  -- the sender's own address, and from the lamp that the request named, or, if the request named a
  -- group, from any known lamp.
  pub set_max_status_rejection_reason_iff :
      (set_max_status_rejection_reason status requested expected_app_index sender_unicast nodes
          groups
        ≡ none)
      ↔ (IsAddressed status expected_app_index sender_unicast
          × FromTarget status.source requested nodes groups)
  unfolding set_max_status_rejection_reason
  set_max_status_rejection_reason_iff = (
    λ h.
        let (c, t) = (or_reason-none _ _).0 h in
        ((common_iff status expected_app_index sender_unicast).0 c, ground arith),
    λ w.
        let c = (common_iff status expected_app_index sender_unicast).1 w.0 in
        (or_reason-none _ _).1 (c, ground (arith, w.1)),
  )

  -- A set-max is tried a second time only if its answer identifies the lamp: when two attempts are
  -- allowed, an accepted status came from the requested address itself, and the rules for reads
  -- accept it too.
  pub max_attempts_for_destination_unicast :
      max_attempts_for_destination requested nodes ≡ 2
      → set_max_status_rejection_reason status requested expected_app_index sender_unicast nodes
          groups
        ≡ none
      → (status.source ≡ requested)
        × (unicast_status_rejection_reason status requested expected_app_index sender_unicast nodes
            ≡ none)
  unfolding max_attempts_for_destination unicast_status_rejection_reason
  max_attempts_for_destination_unicast m h =
      let (a, t) = set_max_status_rejection_reason_iff.0 h in
      let known : contains nodes requested ≡ true = ground (arith, m) in
      let same : status.source ≡ requested = ground (arith, known, t) in
      let c = (common_iff status expected_app_index sender_unicast).1 a in
      (same, (or_reason-none _ _).1 (c, ground (arith, known, same)))

source_fits :
    (b : Bool) (source requested : ℕ)
    → (if b
        then (if source == requested then none else some unexpected_source)
        else some target_not_lamp)
      ≡ none
    → source ≡ requested
source_fits true source requested h = ground arith
source_fits false source requested h = cc

-- A status that the rules for reads accept came from the requested lamp.
pub unicast_status_rejection_reason_source :
    (status : Received) (requested expected_app_index sender_unicast : ℕ) (nodes : List ℕ)
    → unicast_status_rejection_reason status requested expected_app_index sender_unicast nodes
      ≡ none
    → status.source ≡ requested
unfolding unicast_status_rejection_reason
unicast_status_rejection_reason_source status requested i u nodes h =
    source_fits (contains nodes requested) status.source requested (((or_reason-none _ _).0 h).1)
