-- ===== src/Detection/Sorted.antt =====
-- Lists of events in the order of time, as `ordered` of ulpf/detection/rules.py is.
use ocsf_forge.Prelude.{
  ◌≤◌, ◌≡◌, Bool, true, false, List, [], ◌∷◌, ◌++◌, keep, All, All-append, All-keep, All-map, arith,
  Bool-cases, inl, inr, if◌then◌else◌,
}
use ocsf_forge.Detection.Events.{AuthenticationEvent}
use ocsf_forge.Detection.Order.{before, insert, sort}

abbrev pub Later : AuthenticationEvent → AuthenticationEvent → Type 0
Later e f = e.timestamp ≤ f.timestamp

-- No event stands before an earlier one.
abbrev pub IsSorted : List AuthenticationEvent → Type 0
IsSorted [] = Unit
IsSorted (e ∷ l) = All (Later e) l × IsSorted l

pub IsSorted-keep :
    (p : AuthenticationEvent → Bool) (l : List AuthenticationEvent)
    → IsSorted l
    → IsSorted (keep p l)
IsSorted-keep p [] h = tt
IsSorted-keep p (e ∷ l) (h, hs) =
    elim (p e) as (λ b. IsSorted (if b then e ∷ keep p l else keep p l)) [
      | true ↦ (All-keep (Later e) p l h, IsSorted-keep p l hs)
      | false ↦ IsSorted-keep p l hs
    ]

pub IsSorted-append :
    (l : List AuthenticationEvent) (e : AuthenticationEvent)
    → IsSorted l
    → All (λ x. Later x e) l
    → IsSorted (l ++ e ∷ [])
IsSorted-append [] e h k = (tt, tt)
IsSorted-append (x ∷ l) e (h, hs) (k, ks) =
    (All-append (Later x) l (e ∷ []) h (k, tt), IsSorted-append l e hs ks)

pub All-insert :
    (P : AuthenticationEvent → Type 0) (e : AuthenticationEvent) (l : List AuthenticationEvent)
    → P e
    → All P l
    → All P (insert e l)
unfolding insert
All-insert P e [] p h = (p, tt)
All-insert P e (f ∷ l) p (h, hs) =
    elim (before e f) as (λ b. All P (if b then e ∷ f ∷ l else f ∷ insert e l)) [
      | true ↦ (p, (h, hs))
      | false ↦ (h, All-insert P e l p hs)
    ]

before-Later : (e f : AuthenticationEvent) → before e f ≡ true → Later e f
before-Later e f h = ground arith

not-before-Later : (e f : AuthenticationEvent) → before e f ≡ false → Later f e
not-before-Later e f h = ground arith

Later-trans :
    (e f : AuthenticationEvent) (l : List AuthenticationEvent)
    → Later e f
    → All (Later f) l
    → All (Later e) l
Later-trans e f l h = All-map (Later f) (Later e) (λ x k. omega arith) l

insert-IsSorted :
    (e : AuthenticationEvent) (l : List AuthenticationEvent) → IsSorted l → IsSorted (insert e l)
unfolding insert
insert-IsSorted e [] h = (tt, tt)
insert-IsSorted e (f ∷ l) (h, hs) = elim (Bool-cases (before e f)) [
  | inl yes_ ↦
      rw yes_ (let first = before-Later e f yes_ in ((first, Later-trans e f l first h), (h, hs)))
  | inr no_ ↦
      rw no_ ((All-insert (Later f) e l (not-before-Later e f no_) h, insert-IsSorted e l hs))
]

-- The events that the loop goes through are in the order of time.
pub sort-IsSorted : (l : List AuthenticationEvent) → IsSorted (sort l)
unfolding sort
sort-IsSorted [] = tt
sort-IsSorted (e ∷ l) = insert-IsSorted e (sort l) (sort-IsSorted l)
