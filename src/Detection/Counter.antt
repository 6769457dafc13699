-- ===== src/Detection/Counter.antt =====
-- The `Counter`s of ulpf/detection/rules.py, which follow the members of a deque.
use ocsf_forge.Prelude.{
  ℕ, ◌+◌, ◌-◌, ◌≤◌, ◌<◌, ◌≡◌, refl, ◌↔◌, Bool, true, ◌||◌, List, [], ◌∷◌, ◌++◌, arith, ◌==◌, length,
  any, count_if, if◌then◌else◌,
}

abbrev pub Counter : Type 0 → Type 0
Counter K = List (K × ℕ)

module _ {K : Type 0} (same : K → K → Bool) where
  -- `c[k]`.
  unfoldable pub tally : K → Counter K → ℕ
  tally k [] = 0
  tally k ((j, n) ∷ c) = if same j k then n else tally k c

  -- `c[k] += 1`.
  unfoldable pub increment : K → Counter K → Counter K
  increment k [] = (k, 1) ∷ []
  increment k ((j, n) ∷ c) = if same j k then (j, n + 1) ∷ c else (j, n) ∷ increment k c

  -- `c[k] -= 1`, and `del c[k]` if that makes it 0. The key is there.
  unfoldable pub decrement : K → Counter K → Counter K
  decrement k [] = []
  decrement k ((j, n) ∷ c) =
      if same j k then (if n - 1 == 0 then c else (j, n - 1) ∷ c) else (j, n) ∷ decrement k c

  -- How many keys the list holds, each counted once.
  unfoldable pub distinct_count {ℓ} : {A : Type ℓ} → (A → K) → List A → ℕ
  distinct_count key [] = 0
  distinct_count key (x ∷ xs) =
      (if any (λ y. same (key y) (key x)) xs then 0 else 1) + distinct_count key xs

module _ {K : Type 0} (same : K → K → Bool)
    (same_iff : (a b : K) → (same a b ≡ true) ↔ (a ≡ b)) where
  -- Every entry is positive and no key stands twice.
  abbrev pub IsProper : Counter K → Type 0
  IsProper [] = Unit
  IsProper ((j, n) ∷ c) = (0 < n) × (tally same j c ≡ 0) × IsProper c

  tally-increment :
      (k j : K) (c : Counter K)
      → tally same j (increment same k c) ≡ tally same j c + (if same k j then 1 else 0)
  unfolding tally increment
  tally-increment k j [] = ground arith
  tally-increment k j ((i, n) ∷ c) =
      ground (arith, tally-increment k j c, same_iff i k, same_iff i j, same_iff k j)

  length-increment :
      (k : K) (c : Counter K)
      → IsProper c
      → length (increment same k c) ≡ length c + (if tally same k c == 0 then 1 else 0)
  unfolding tally increment
  length-increment k [] h = refl
  length-increment k ((i, n) ∷ c) h = ground (arith, length-increment k c)

  increment-IsProper : (k : K) (c : Counter K) → IsProper c → IsProper (increment same k c)
  unfolding tally increment
  increment-IsProper k [] h = ground arith
  increment-IsProper k ((i, n) ∷ c) h =
      ground (arith, increment-IsProper k c, tally-increment k i c, same_iff i k, same_iff k i)

  tally-decrement :
      (k j : K) (c : Counter K)
      → IsProper c
      → tally same j (decrement same k c) ≡ tally same j c - (if same k j then 1 else 0)
  unfolding tally decrement
  tally-decrement k j [] h = ground arith
  tally-decrement k j ((i, n) ∷ c) h =
      ground (arith, tally-decrement k j c, same_iff i k, same_iff i j, same_iff k j)

  length-decrement :
      (k : K) (c : Counter K)
      → IsProper c
      → 0 < tally same k c
      → length (decrement same k c) + (if tally same k c == 1 then 1 else 0) ≡ length c
  unfolding tally decrement
  length-decrement k [] h p = absurd (omega arith)
  length-decrement k ((i, n) ∷ c) h p = ground (arith, length-decrement k c)

  decrement-IsProper : (k : K) (c : Counter K) → IsProper c → IsProper (decrement same k c)
  unfolding tally decrement
  decrement-IsProper k [] h = tt
  decrement-IsProper k ((i, n) ∷ c) h =
      ground (arith, decrement-IsProper k c, tally-decrement k i c)

  -- The counter of the keys of a deque.
  pub record Tracks {ℓ} {A : Type ℓ} (key : A → K) (xs : List A) (c : Counter K) : Type ℓ where
    pub proper : IsProper c
    pub tallies : (k : K) → tally same k c ≡ count_if (λ x. same (key x) k) xs
    pub size : length c ≡ distinct_count same key xs

  module _ {ℓ} {A : Type ℓ} (key : A → K) where
    count_if-append :
        (k : K) (x : A) (xs : List A)
        → count_if (λ y. same (key y) k) (xs ++ x ∷ [])
          ≡ count_if (λ y. same (key y) k) xs + (if same (key x) k then 1 else 0)
    count_if-append k x [] = omega arith
    count_if-append k x (y ∷ xs) = omega (arith, count_if-append k x xs)

    any-append :
        (k : K) (x : A) (xs : List A)
        → any (λ y. same (key y) k) (xs ++ x ∷ [])
          ≡ (any (λ y. same (key y) k) xs || same (key x) k)
    any-append k x [] = ground arith
    any-append k x (y ∷ xs) = ground (arith, any-append k x xs)

    any-eq-count_if :
        (k : K) (xs : List A)
        → ◌≡◌ {A = ℕ}
            (if any (λ y. same (key y) k) xs then 0 else 1)
            (if count_if (λ y. same (key y) k) xs == 0 then 1 else 0)
    any-eq-count_if k [] = refl
    any-eq-count_if k (x ∷ xs) = ground (arith, any-eq-count_if k xs)

    distinct_count-append :
        (x : A) (xs : List A)
        → distinct_count same key (xs ++ x ∷ [])
          ≡ distinct_count same key xs + (if any (λ y. same (key y) (key x)) xs then 0 else 1)
    unfolding distinct_count
    distinct_count-append x [] = refl
    distinct_count-append x (y ∷ xs) = ground (
      arith,
      distinct_count-append x xs,
      any-append (key y) x xs,
      same_iff (key x) (key y),
      same_iff (key y) (key x),
    )

    pub Tracks-nil : Tracks key [] []
    unfolding tally distinct_count
    Tracks-nil = record { proper = tt; tallies = λ k. refl; size = refl }

    -- `append` to the deque and `+= 1` keep the counter in step.
    pub Tracks-append :
        (x : A) (xs : List A) (c : Counter K)
        → Tracks key xs c
        → Tracks key (xs ++ x ∷ []) (increment same (key x) c)
    Tracks-append x xs c t = record {
      proper = increment-IsProper (key x) c t.proper;
      tallies =
          λ k. ground (arith, tally-increment (key x) k c, count_if-append k x xs, t.tallies k);
      size = ground (
        arith,
        length-increment (key x) c t.proper,
        distinct_count-append x xs,
        any-eq-count_if (key x) xs,
        t.tallies (key x),
        t.size,
      );
    }

    -- So do `popleft` and `-= 1`.
    pub Tracks-tail :
        (x : A) (xs : List A) (c : Counter K)
        → Tracks key (x ∷ xs) c
        → Tracks key xs (decrement same (key x) c)
    unfolding distinct_count
    Tracks-tail x xs c t = record {
      proper = decrement-IsProper (key x) c t.proper;
      tallies = λ k. ground (arith, tally-decrement (key x) k c t.proper, t.tallies k);
      size = ground (
        arith,
        length-decrement (key x) c t.proper,
        any-eq-count_if (key x) xs,
        same_iff (key x) (key x),
        t.tallies (key x),
        t.size,
      );
    }

pub distinct_count-le {ℓ} :
    {K : Type 0} {A : Type ℓ} (same : K → K → Bool) (key : A → K) (xs : List A)
    → distinct_count same key xs ≤ length xs
unfolding distinct_count
distinct_count-le same key [] = omega arith
distinct_count-le same key (x ∷ xs) = ground (arith, distinct_count-le same key xs)
