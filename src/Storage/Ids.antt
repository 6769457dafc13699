-- ===== src/Storage/Ids.antt =====
-- The event ids of a table, and what a MERGE of a batch does to them.
use mathlib.Core.Path.{subst}
use ocsf_forge.Prelude.{
  ◌≡◌, refl, ap, sym, Bool, true, false, ◌||◌, List, [], ◌∷◌, ◌++◌, map, any, All, All-map, arith,
  Bool-cases, inl, inr, not, if◌then◌else◌,
}
use ocsf_forge.Text.{Text, text_eq, text_eq_iff, text_eq_refl, is_in}
use ocsf_forge.Storage.Batches.{Row}
use ocsf_forge.Storage.Warehouse.{event_id_of, same_event_id, fresh}

abbrev pub ids : List Row → List Text
ids rows = map event_id_of rows

abbrev pub Has : List Text → Text → Type 0
Has known id = is_in id known ≡ true

abbrev pub Lacks : List Text → Text → Type 0
Lacks known id = is_in id known ≡ false

pub is_in-ids :
    (r : Row) (rows : List Row) → any (same_event_id r) rows ≡ is_in (event_id_of r) (ids rows)
is_in-ids r [] = refl
is_in-ids r (s ∷ rows) = ap (λ b. text_eq (event_id_of r) (event_id_of s) || b) (is_in-ids r rows)

pub is_in-append :
    (id : Text) (xs ys : List Row)
    → is_in id (ids (xs ++ ys)) ≡ (is_in id (ids xs) || is_in id (ids ys))
is_in-append id [] ys = refl
is_in-append id (x ∷ xs) ys = ground (arith, is_in-append id xs ys)

pub Has-first : (xs ys : List Row) (id : Text) → Has (ids xs) id → Has (ids (xs ++ ys)) id
Has-first xs ys id h = ground (arith, is_in-append id xs ys, h)

pub Has-second : (xs ys : List Row) (id : Text) → Has (ids ys) id → Has (ids (xs ++ ys)) id
Has-second xs ys id h = ground (arith, is_in-append id xs ys, h)

pub Lacks-first : (xs ys : List Row) (id : Text) → Lacks (ids (xs ++ ys)) id → Lacks (ids xs) id
Lacks-first xs ys id h = ground (arith, is_in-append id xs ys, h)

-- After a MERGE the table has the ids of the batch.
pub fresh-Has :
    (stored batch : List Row) → All (Has (ids (stored ++ fresh stored batch))) (ids batch)
fresh-Has stored [] = tt
fresh-Has stored (r ∷ batch) =
    from (any (same_event_id r) stored) (is_in-ids r stored) (fresh-Has stored batch)
  where
    rest : List Row
    rest = fresh stored batch

    from :
        (b : Bool)
        → b ≡ is_in (event_id_of r) (ids stored)
        → All (Has (ids (stored ++ rest))) (ids batch)
        → All (Has (ids (stored ++ (if not b then r ∷ rest else rest)))) (event_id_of r ∷ ids batch)
    from true e h = (Has-first stored rest (event_id_of r) (sym e), h)
    from false e h = (
      Has-second stored (r ∷ rest) (event_id_of r) (ground (arith, text_eq_refl (event_id_of r))),
      All-map (Has (ids (stored ++ rest))) (Has (ids (stored ++ r ∷ rest)))
          (λ id k.
            ground (arith, is_in-append id stored rest, is_in-append id stored (r ∷ rest), k))
          (ids batch) h,
    )

-- A MERGE adds rows with other ids than those it finds.
pub fresh-Lacks :
    (stored batch : List Row) → All (λ r. Lacks (ids stored) (event_id_of r)) (fresh stored batch)
fresh-Lacks stored [] = tt
fresh-Lacks stored (r ∷ batch) =
    from (any (same_event_id r) stored) (is_in-ids r stored) (fresh-Lacks stored batch)
  where
    rest : List Row
    rest = fresh stored batch

    from :
        (b : Bool)
        → b ≡ is_in (event_id_of r) (ids stored)
        → All (λ x. Lacks (ids stored) (event_id_of x)) rest
        → All (λ x. Lacks (ids stored) (event_id_of x)) (if not b then r ∷ rest else rest)
    from true e h = h
    from false e h = (sym e, h)

-- What holds of all ids holds of each.
pub Has-All :
    (P : Text → Type 0) (known : List Text) → All P known → (id : Text) → Has known id → P id
Has-All P [] hs id h = cc
Has-All P (k ∷ known) (p, ps) id h = elim (Bool-cases (text_eq id k)) [
  | inl same ↦ subst P (sym ((text_eq_iff id k).0 same)) p
  | inr other ↦ Has-All P known ps id (ground (arith, other, h))
]

-- A MERGE of rows whose ids are all there adds nothing.
pub fresh-old :
    (stored batch : List Row) → All (Has (ids stored)) (ids batch) → fresh stored batch ≡ []
fresh-old stored [] hs = refl
fresh-old stored (r ∷ batch) (h, hs) = rw (is_in-ids r stored, h) (fresh-old stored batch hs)
