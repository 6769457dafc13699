-- ===== src/Detection/Judged.antt =====
-- ulpf/detection/rules.py: which events `ordered` holds.
use ocsf_forge.Prelude.{
  ◌==◌, ◌⊎◌, ◌≡◌, refl, sym, true, false, List, [], ◌∷◌, map, keep, All, All-keep, All-keep_test,
  All-both, All-map, arith, Bool-cases, inl, inr,
}
use mathlib.Core.List.{Memᴰ}
use ocsf_forge.Text.{Text, CharClass, text_eq, text_eq_iff, is_in, strip}
use ocsf_forge.Sql.Console.{is_empty}
use ocsf_forge.Detection.Events.{AuthenticationEvent, eligible}
use ocsf_forge.Detection.Order.{put_event, unique_from, before, insert, sort}
use ocsf_forge.Detection.Rules.{ordered}
use ocsf_forge.Detection.Sorted.{IsSorted, sort-IsSorted, All-insert}

pub All-Memᴰ : {A : Type 0} (l : List A) → All (λ x. Memᴰ x l) l
All-Memᴰ [] = tt
All-Memᴰ (e ∷ l) = (
  Memᴰ.head refl,
  All-map (λ x. Memᴰ x l) (λ x. Memᴰ x (e ∷ l)) (λ x m. Memᴰ.tail m) l (All-Memᴰ l),
)

-- What holds of each event whose id no later one has.
abbrev pub AllLast : (AuthenticationEvent → Type 0) → List AuthenticationEvent → Type 0
AllLast P [] = Unit
AllLast P (e ∷ l) = (is_in e.event_id (map (λ x. x.event_id) l) ≡ false → P e) × AllLast P l

-- An event that was put stays if none of its id follows.
put_event-last :
    (P : AuthenticationEvent → Type 0) (e : AuthenticationEvent) (l : List AuthenticationEvent)
    → All P (put_event e l)
    → P e
unfolding put_event
put_event-last P e [] = λ (h, _). h
put_event-last P e (f ∷ l) = elim (Bool-cases (text_eq f.event_id e.event_id)) [
  | inl same ↦ rw same (λ (h, _). h)
  | inr other ↦ rw other (λ (_, hs). put_event-last P e l hs)
]

module _ (P : AuthenticationEvent → Type 0) where
  All-put_event :
      (e : AuthenticationEvent) (l : List AuthenticationEvent)
      → P e
      → All P l
      → All P (put_event e l)
  unfolding put_event
  All-put_event e [] p h = (p, tt)
  All-put_event e (f ∷ l) p (h, hs) = elim (Bool-cases (text_eq f.event_id e.event_id)) [
    | inl same ↦ rw same (p, hs)
    | inr other ↦ rw other (h, All-put_event e l p hs)
  ]

  All-unique_from :
      (l kept : List AuthenticationEvent) → All P kept → All P l → All P (unique_from kept l)
  unfolding unique_from
  All-unique_from [] kept h k = h
  All-unique_from (e ∷ l) kept h (k, ks) =
      All-unique_from l (put_event e kept) (All-put_event e kept k h) ks

  All-sort : (l : List AuthenticationEvent) → All P l → All P (sort l)
  unfolding sort
  All-sort [] h = tt
  All-sort (e ∷ l) (h, hs) = All-insert P e (sort l) h (All-sort l hs)

  insert-All :
      (e : AuthenticationEvent) (l : List AuthenticationEvent) → All P (insert e l) → P e × All P l
  unfolding insert
  insert-All e [] = λ (h, hs). (h, tt)
  insert-All e (f ∷ l) = elim (Bool-cases (before e f)) [
    | inl first ↦ rw first (λ (h, hs). (h, hs))
    | inr later ↦ rw later (λ (h, hs). let (k, ks) = insert-All e l hs in (k, (h, ks)))
  ]

  sort-All : (l : List AuthenticationEvent) → All P (sort l) → All P l
  unfolding sort
  sort-All [] h = tt
  sort-All (e ∷ l) h = let (k, ks) = insert-All e (sort l) h in (k, sort-All l ks)

  put_event-others :
      (id : Text) (e : AuthenticationEvent) (l : List AuthenticationEvent)
      → text_eq id e.event_id ≡ false
      → All (λ x. x.event_id ≡ id → P x) (put_event e l)
      → All (λ x. x.event_id ≡ id → P x) l
  unfolding put_event
  put_event-others id e [] h = λ hs. tt
  put_event-others id e (f ∷ l) h = elim (Bool-cases (text_eq f.event_id e.event_id)) [
    | inl same ↦
        rw same (λ (k, ks). ((λ is. absurd (apart id e.event_id f.event_id h same is)), ks))
    | inr other ↦ rw other (λ (k, ks). (k, put_event-others id e l h ks))
  ]
    where
      apart : (a b c : Text) → text_eq a b ≡ false → text_eq c b ≡ true → c ≡ a → ⊥
      apart a b c no_ yes_ is = absurd (ground (arith, text_eq_iff a b, text_eq_iff c b, sym is))

  unique_from-others :
      (id : Text) (l kept : List AuthenticationEvent)
      → is_in id (map (λ x. x.event_id) l) ≡ false
      → All (λ x. x.event_id ≡ id → P x) (unique_from kept l)
      → All (λ x. x.event_id ≡ id → P x) kept
  unfolding unique_from
  unique_from-others id [] kept h hs = hs
  unique_from-others id (e ∷ l) kept h hs =
      put_event-others id e kept (ground (arith, h))
        (unique_from-others id l (put_event e kept) (ground (arith, h)) hs)

  unique_from-AllLast :
      (l kept : List AuthenticationEvent) → All P (unique_from kept l) → AllLast P l
  unfolding unique_from
  unique_from-AllLast [] kept h = tt
  unique_from-AllLast (e ∷ l) kept h = (
    (λ last.
        put_event-last (λ x. x.event_id ≡ e.event_id → P x) e kept
          (unique_from-others e.event_id l (put_event e kept) last (
            All-map P (λ x. x.event_id ≡ e.event_id → P x) (λ x p _. p)
              (unique_from (put_event e kept) l) h))
          refl),
    unique_from-AllLast l (put_event e kept) h,
  )

module _ (u : CharClass) where
  -- A logon that succeeded or failed, with none of its texts blank.
  pub record IsLogon (e : AuthenticationEvent) : Type 0 where
    pub class_of : e.class_uid ≡ 3002
    pub activity_of : e.activity_id ≡ 1
    pub status_of : (e.status_id ≡ 1) ⊎ (e.status_id ≡ 2)
    pub texts_of :
        All
          (λ t. is_empty (strip u t) ≡ false)
          (e.event_id ∷ e.hostname ∷ e.service ∷ e.ip_address ∷ e.user ∷ [])

  eligible-IsLogon : (e : AuthenticationEvent) → eligible u e ≡ true → IsLogon e
  unfolding eligible
  eligible-IsLogon e h = record {
    class_of = ground (arith, h);
    activity_of = ground (arith, h);
    status_of = elim (Bool-cases (e.status_id == 1)) [
      | inl succeeded ↦ inl (ground (arith, succeeded))
      | inr other ↦ inr (ground (arith, h, other))
    ];
    texts_of = (
      ground (arith, h),
      (ground (arith, h), (ground (arith, h), (ground (arith, h), (ground (arith, h), tt)))),
    );
  }

  -- An event of the list that may be judged.
  abbrev pub IsCandidate : List AuthenticationEvent → AuthenticationEvent → Type 0
  IsCandidate events e = IsLogon e × Memᴰ e events

  -- The events judged are eligible events of the list, in the order of time, and each eligible event
  -- whose id no later one has is among them.
  pub record IsJudged (events judged : List AuthenticationEvent) : Type 0 where
    pub sorted : IsSorted judged
    pub candidates : All (IsCandidate events) judged
    pub latest : AllLast (λ e. Memᴰ e judged) (keep (eligible u) events)

  pub ordered-IsJudged : (events : List AuthenticationEvent) → IsJudged events (ordered u events)
  unfolding ordered
  ordered-IsJudged events =
      let kept = keep (eligible u) events in
      let unique = unique_from [] kept in
      let P = λ (e : AuthenticationEvent). Memᴰ e (sort unique) in
      record {
        sorted = sort-IsSorted unique;
        candidates = All-sort (IsCandidate events) unique (
            All-unique_from (IsCandidate events) kept [] tt (
              All-both IsLogon (λ e. Memᴰ e events) kept
                (All-map (λ e. eligible u e ≡ true) IsLogon eligible-IsLogon kept
                  (All-keep_test (eligible u) events))
                (All-keep (λ e. Memᴰ e events) (eligible u) events (All-Memᴰ events))));
        latest = unique_from-AllLast P kept [] (sort-All P unique (All-Memᴰ (sort unique)));
      }
