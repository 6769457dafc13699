-- ===== src/Detection/Keys.antt =====
-- The keys of the dicts of ulpf/detection/rules.py: events of one pair, events of one scope.
use ocsf_forge.Prelude.{◌≡◌, true, arith}
use ocsf_forge.Text.{text_eq_iff, text_eq_refl}
use ocsf_forge.Detection.Events.{AuthenticationEvent}
use ocsf_forge.Detection.Rules.{same_pair, in_scope}

module _ (a k x : AuthenticationEvent) where
  pub in_scope_congr : in_scope a k ≡ true → in_scope x a ≡ in_scope x k
  in_scope_congr h = ground (
    arith,
    text_eq_iff a.hostname k.hostname,
    text_eq_iff a.service k.service,
    text_eq_iff a.ip_address k.ip_address,
  )

  pub same_pair_congr : same_pair a k ≡ true → same_pair x a ≡ same_pair x k
  same_pair_congr h = ground (
    arith,
    text_eq_iff a.hostname k.hostname,
    text_eq_iff a.service k.service,
    text_eq_iff a.ip_address k.ip_address,
    text_eq_iff a.user k.user,
  )

module _ (e : AuthenticationEvent) where
  pub in_scope_refl : in_scope e e ≡ true
  in_scope_refl = simp text_eq_refl

  pub same_pair_refl : same_pair e e ≡ true
  same_pair_refl = simp text_eq_refl
