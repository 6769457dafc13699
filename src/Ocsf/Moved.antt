-- ===== src/Ocsf/Moved.antt =====
-- `retain_context` of ulpf/ocsf.py moves entries and loses none.
use ocsf_forge.Prelude.{
  ◌≡◌, refl, ap, ◌∙◌, inl, inr, true, false, Option, none, some, List, [], ◌∷◌, arith, Bool-cases,
  if◌then◌else◌,
}
use ocsf_forge.Text.{Text, codes, text_eq, text_eq_iff, is_in}
use ocsf_forge.Json.{Value, obj, Fields, get, put, remove}
use ocsf_forge.Json.Laws.{get-put, get-remove}
use ocsf_forge.Ocsf.Context.{
  pick, picked, left_after, dict_of, has, no_fields, kept_original, retain_context,
}

pub get-left_after :
    (names : List Text) (r : Fields) (j : Text)
    → get (left_after names r) j ≡ (if is_in j names then none else get r j)
unfolding left_after
get-left_after [] r j = refl
get-left_after (n ∷ names) r j =
    ground (arith, get-left_after names (remove r n) j, get-remove r n j)

get-picked :
    (names : List Text) (r : Fields) (j : Text)
    → get (picked names r) j ≡ (if is_in j names then get r j else none)
unfolding picked
get-picked [] r j = refl
get-picked (n ∷ names) r j = picking (get r n) refl (get-picked names (remove r n) j)
  where
    picking :
        (o : Option Value)
        → get r n ≡ o
        → get (picked names (remove r n)) j ≡ (if is_in j names then get (remove r n) j else none)
        → get (pick n o (picked names (remove r n))) j
          ≡ (if is_in j (n ∷ names) then get r j else none)
    picking none e ih = ground (arith, text_eq_iff j n, get-remove r n j)
    picking (some v) e ih = ground (arith, text_eq_iff j n, get-remove r n j)

abbrev pub unmapped_of : Fields → Fields
unmapped_of r = dict_of (get r (codes "unmapped"))

-- What `retain_context` makes of a record.
pub record IsMoved (names : List Text) (r out : Fields) : Type 0 where
  pub others :
      (j : Text)
      → text_eq j (codes "unmapped") ≡ false
      → get out j ≡ (if is_in j names then none else get r j)
  pub moved : (j : Text) → is_in j names ≡ true → get (picked names r) j ≡ get r j
  pub context :
      no_fields (picked names r) ≡ false
      → get (unmapped_of out) (codes "normalized_context") ≡ some (obj (picked names r))
  pub original :
      (j : Text)
      → text_eq j (codes "normalized_context") ≡ false
      → has (unmapped_of r) (codes "normalized_context") ≡ false
      → get (unmapped_of out) j ≡ get (unmapped_of r) j

module _ (names : List Text) (r : Fields) (free : is_in (codes "unmapped") names ≡ false) where
  left-unmapped : get (left_after names r) (codes "unmapped") ≡ get r (codes "unmapped")
  left-unmapped = get-left_after names r (codes "unmapped") ∙ rw free refl

  abbrev left : Fields
  left = left_after names r

  abbrev kept : Fields
  kept = kept_original (dict_of (get left (codes "unmapped")))

  abbrev unmapped : Fields
  unmapped = put kept (codes "normalized_context") (obj (picked names r))

  opened :
      (j : Text) → get (unmapped_of (put left (codes "unmapped") (obj unmapped))) j ≡ get unmapped j
  opened j =
      ap (λ v. get (dict_of v) j)
        (get-put left (codes "unmapped") (obj unmapped) (codes "unmapped"))

  -- For names other than "unmapped": the names that a record has are moved into
  -- "normalized_context" of its "unmapped" dict with their values, and every other entry, of the
  -- record and of a dict without that key, stays.
  pub retain_context-IsMoved : IsMoved names r (retain_context r names)
  unfolding retain_context
  retain_context-IsMoved = elim (Bool-cases (no_fields (picked names r))) [
    | inl nothing ↦ rw nothing (record {
      others = λ j h. get-left_after names r j;
      moved = λ j h. get-picked names r j ∙ rw h refl;
      context = λ h. absurd cc;
      original = λ j h k. ap (λ v. get (dict_of v) j) left-unmapped;
    })
    | inr something ↦ rw something (record {
      others =
          λ j h. get-put left (codes "unmapped") (obj unmapped) j ∙ rw h (get-left_after names r j);
      moved = λ j h. get-picked names r j ∙ rw h refl;
      context = λ h.
          opened (codes "normalized_context")
          ∙ get-put kept (codes "normalized_context") (obj (picked names r))
              (codes "normalized_context");
      original = λ j h k.
          opened j
          ∙ get-put kept (codes "normalized_context") (obj (picked names r)) j
          ∙ rw (h, left-unmapped, k) refl;
    })
  ]
