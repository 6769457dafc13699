-- ===== src/Sql/Clean.antt =====
-- What `scrub_sql` of services/sql_guard.py leaves: no quote, no comment, and nothing to scrub again.
use mathlib.Core.Path.{subst}
use ocsf_forge.Prelude.{
  ℕ, zero, suc, ◌≡◌, ◌≢◌, refl, ◌⊎◌, inl, inr, false, ◌&&◌, [], ◌∷◌, Result, ok, raise,
  ok-injective, arith, ◌==◌, split_if,
}
use ocsf_forge.Text.{Text}
use ocsf_forge.Sql.Scrub.{
  ScrubError, Mode, code, quoted, line, block, is_quote, opens, closes, emit, scan, scrub_sql,
}

-- No quote character, no `--` and no `/*` stands anywhere in the text.
abbrev pub IsClean : Text → Type 0
IsClean [] = Unit
IsClean (c ∷ []) = is_quote c ≡ false
IsClean (c ∷ e ∷ s) =
    (is_quote c ≡ false)
    × ((c == b'-' && e == b'-') ≡ false)
    × (opens c e ≡ false)
    × IsClean (e ∷ s)

-- The second text begins like the first or by a space.
abbrev Heads : Text → Text → Type 0
Heads s [] = Unit
Heads [] (x ∷ t) = ⊥
Heads (e ∷ s) (x ∷ t) = (x ≡ e) ⊎ (x ≡ 32)

emit-inversion :
    (c : ℕ) (r : Result ScrubError Text) {t : Text}
    → emit c r ≡ ok t
    → (u : Text) × (r ≡ ok u) × (t ≡ c ∷ u)
emit-inversion c (ok u) h = (u, refl, ground arith)
emit-inversion c (raise e) h = cc

IsClean-space : (t : Text) → IsClean t → IsClean (32 ∷ t)
IsClean-space [] h = refl
IsClean-space (c ∷ t) h = (refl, refl, refl, h)

IsClean-cons :
    (c e : ℕ) (s t : Text)
    → is_quote c ≡ false
    → (c == b'-' && e == b'-') ≡ false
    → opens c e ≡ false
    → Heads (e ∷ s) t
    → IsClean t
    → IsClean (c ∷ t)
IsClean-cons c e s [] q d o h k = q
IsClean-cons c e s (x ∷ t) q d o h k = (q, ground arith, ground arith, k)

-- The text begins by the space that stands for a value or a comment.
abbrev IsSpaced : Text → Type 0
IsSpaced t = (u : Text) × (t ≡ 32 ∷ u)

emit-IsSpaced : (r : Result ScrubError Text) {t : Text} → emit 32 r ≡ ok t → IsSpaced t
emit-IsSpaced r h = let (u, _, e) = emit-inversion 32 r h in (u, e)

scan-IsSpaced : (m : Mode) (s : Text) {t : Text} → m ≢ code → scan m s ≡ ok t → IsSpaced t
unfolding scan
scan-IsSpaced code s ne h = absurd (ne refl)
scan-IsSpaced (quoted q) [] ne h = cc
scan-IsSpaced (quoted q) (c ∷ []) ne h = split_if (c == q) h (λ _ e. ([], ground arith)) (λ _ e. cc)
scan-IsSpaced (quoted q) (c ∷ e ∷ s) ne h =
    split_if (c == q) h
      (λ _ k. split_if (e == q) k (λ _. scan-IsSpaced (quoted q) s ne) (λ _. emit-IsSpaced _))
      (λ _. scan-IsSpaced (quoted q) (e ∷ s) ne)
scan-IsSpaced line [] ne h = ([], ground arith)
scan-IsSpaced line (c ∷ s) ne h =
    split_if (c == 10) h (λ _. emit-IsSpaced _) (λ _. scan-IsSpaced line s ne)
scan-IsSpaced (block d) [] ne h = cc
scan-IsSpaced (block d) (c ∷ []) ne h = cc
scan-IsSpaced (block zero) (c ∷ e ∷ s) ne h =
    split_if (opens c e) h (λ _. scan-IsSpaced (block 1) s (λ x. cc))
      λ _ k.
        split_if (closes c e) k (λ _. emit-IsSpaced _) (λ _. scan-IsSpaced (block 0) (e ∷ s) ne)
scan-IsSpaced (block (suc d)) (c ∷ e ∷ s) ne h =
    split_if (opens c e) h (λ _. scan-IsSpaced (block (suc (suc d))) s (λ x. cc))
      λ _ k.
        split_if (closes c e) k (λ _. scan-IsSpaced (block d) s (λ x. cc))
          (λ _. scan-IsSpaced (block (suc d)) (e ∷ s) ne)

IsSpaced-Heads : (c : ℕ) (s : Text) {t : Text} → IsSpaced t → Heads (c ∷ s) t
IsSpaced-Heads c s (u, e) = rw e (inr refl)

scan-Heads : (s t : Text) → scan code s ≡ ok t → Heads s t
unfolding scan
scan-Heads [] [] h = tt
scan-Heads [] (x ∷ t) h = cc
scan-Heads (c ∷ []) [] h = tt
scan-Heads (c ∷ []) (x ∷ t) h = ground arith
scan-Heads (c ∷ e ∷ s) t h =
    split_if (is_quote c) h
      (λ _ k. IsSpaced-Heads c (e ∷ s) (scan-IsSpaced (quoted c) (e ∷ s) (λ x. cc) k))
      λ _ k.
        split_if (c == b'-' && e == b'-') k
          (λ _ l. IsSpaced-Heads c (e ∷ s) (scan-IsSpaced line s (λ x. cc) l))
          λ _ l.
            split_if (opens c e) l
              (λ _ o. IsSpaced-Heads c (e ∷ s) (scan-IsSpaced (block 0) s (λ x. cc) o))
              λ _ o. let (u, _, same) = emit-inversion c _ o in rw same (inl refl)

emit-IsClean :
    (r : Result ScrubError Text) {t : Text}
    → ((u : Text) → r ≡ ok u → IsClean u)
    → emit 32 r ≡ ok t
    → IsClean t
emit-IsClean r clean h =
    let (u, e, same) = emit-inversion 32 r h in rw same (IsClean-space u (clean u e))

scan-IsClean : (m : Mode) (s : Text) (t : Text) → scan m s ≡ ok t → IsClean t
unfolding scan
scan-IsClean code [] t h = subst IsClean (ok-injective h) tt
scan-IsClean code (c ∷ []) t h =
    split_if (is_quote c) h (λ _ e. cc) (λ q e. subst IsClean (ok-injective e) q)
scan-IsClean code (c ∷ e ∷ s) t h =
    split_if (is_quote c) h (λ _. scan-IsClean (quoted c) (e ∷ s) t)
      λ q k.
        split_if (c == b'-' && e == b'-') k (λ _. scan-IsClean line s t)
          λ d l.
            split_if (opens c e) l (λ _. scan-IsClean (block 0) s t)
              λ o p.
                let (u, done, same) = emit-inversion c _ p in
                rw same (
                  IsClean-cons c e s u q d o (scan-Heads (e ∷ s) u done)
                    (scan-IsClean code (e ∷ s) u done))
scan-IsClean (quoted q) [] t h = cc
scan-IsClean (quoted q) (c ∷ []) t h =
    split_if (c == q) h (λ _ e. subst IsClean (ok-injective e) refl) (λ _ e. cc)
scan-IsClean (quoted q) (c ∷ e ∷ s) t h =
    split_if (c == q) h
      (λ _ k.
        split_if (e == q) k (λ _. scan-IsClean (quoted q) s t)
          (λ _. emit-IsClean _ (scan-IsClean code (e ∷ s))))
      (λ _. scan-IsClean (quoted q) (e ∷ s) t)
scan-IsClean line [] t h = subst IsClean (ok-injective h) refl
scan-IsClean line (c ∷ s) t h =
    split_if (c == 10) h (λ _. emit-IsClean _ (scan-IsClean code s)) (λ _. scan-IsClean line s t)
scan-IsClean (block d) [] t h = cc
scan-IsClean (block d) (c ∷ []) t h = cc
scan-IsClean (block zero) (c ∷ e ∷ s) t h =
    split_if (opens c e) h (λ _. scan-IsClean (block 1) s t)
      λ _ k.
        split_if (closes c e) k (λ _. emit-IsClean _ (scan-IsClean code s))
          (λ _. scan-IsClean (block 0) (e ∷ s) t)
scan-IsClean (block (suc d)) (c ∷ e ∷ s) t h =
    split_if (opens c e) h (λ _. scan-IsClean (block (suc (suc d))) s t)
      λ _ k.
        split_if (closes c e) k (λ _. scan-IsClean (block d) s t)
          (λ _. scan-IsClean (block (suc d)) (e ∷ s) t)

scan_of_IsClean : (t : Text) → IsClean t → scan code t ≡ ok t
unfolding scan
scan_of_IsClean [] h = refl
scan_of_IsClean (c ∷ []) h = rw h
scan_of_IsClean (c ∷ e ∷ s) (q, d, o, h) = rw (q, d, o, scan_of_IsClean (e ∷ s) h)

-- A scrubbed statement holds no quote character, no `--` and no `/*`.
pub scrub_sql-IsClean : (s t : Text) → scrub_sql s ≡ ok t → IsClean t
unfolding scrub_sql
scrub_sql-IsClean s t h = scan-IsClean code s t h

-- Scrubbing a scrubbed statement succeeds and changes nothing.
pub scrub_sql_idempotent : (s t : Text) → scrub_sql s ≡ ok t → scrub_sql t ≡ ok t
unfolding scrub_sql
scrub_sql_idempotent s t h = scan_of_IsClean t (scan-IsClean code s t h)
