-- ===== src/Proposer/Inlets/Laws.antt =====
-- Laws of the capability labels.

use otto_q_core.Base.{String, ◌≡◌, ap, subst, ◌∙◌, false, List, ◌∷◌, str_eq, str_le, All, elem}
use otto_q_core.Base.Sort.{sort, any-sort, All-sort, sort_cons}
use otto_q_core.Base.Split.{has_char, split, before_sep-append, after_sep-append, split-join}
use otto_q_core.Proposer.Inlets.{capability, inlet_list, capability_kind, capability_inlets}

inlet_list_parts :
    (inlet : String) (inlets : List String)
    → All (λ i. has_char b'+' i ≡ false) (inlet ∷ inlets)
    → split b'+' (inlet_list (inlet ∷ inlets)) ≡ sort str_le (inlet ∷ inlets)
unfolding inlet_list
inlet_list_parts inlet inlets k =
    let (p, ps, e) = sort_cons str_le inlet inlets in
    rw e (
      split-join "+" p ps (
        subst (All (λ i. has_char b'+' i ≡ false)) e
          (All-sort str_le (λ i. has_char b'+' i ≡ false) (inlet ∷ inlets) k)))

-- A capability label gives back the stall type and the inlets that it was made from, for a type
-- without `@` and for at least one inlet, none with a `+` in it.
pub capability_roundtrip :
    (kind : String) (inlet : String) (inlets : List String)
    → has_char b'@' kind ≡ false
    → All (λ i. has_char b'+' i ≡ false) (inlet ∷ inlets)
    → (capability_kind (capability kind (inlet ∷ inlets)) ≡ kind)
      × ((i : String)
          → elem i (capability_inlets (capability kind (inlet ∷ inlets))) ≡ elem i (inlet ∷ inlets))
unfolding capability capability_kind capability_inlets
capability_roundtrip kind inlet inlets h k = (
  before_sep-append "@" kind (inlet_list (inlet ∷ inlets)) h,
  λ i.
      ap (λ t. elem i (split b'+' t)) (after_sep-append "@" kind (inlet_list (inlet ∷ inlets)) h)
      ∙ ap (elem i) (inlet_list_parts inlet inlets k)
      ∙ any-sort str_le (str_eq i) (inlet ∷ inlets),
)
