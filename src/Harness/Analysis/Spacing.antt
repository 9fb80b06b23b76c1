-- ===== src/Harness/Analysis/Spacing.antt =====
-- plugin/haltest.c, iosim: where the zero crossings lie that give the measured frequency.
use line6_coreaudio.Prelude.{
  ℕ, suc, ◌+◌, ◌-◌, ◌*◌, ◌≤◌, ◌<◌, ◌≡◌, ◌⊎◌, inl, inr, true, false, arith, Bool-cases, List, [],
  ◌∷◌, length,
}
use native.Mathlib.Nat.{add-zero}
use line6_coreaudio.Float64.{Float64}
use line6_coreaudio.Harness.Analysis.{
  Analog, Crossings, none_yet, seen, crossed_at, is_negative, is_nonnegative, crossings_after,
  crossings_of,
}

-- The crossings lie before index `i`, from the first to the last, and from each to the next there
-- are two samples or more.
abbrev pub AreApart : Crossings → ℕ → Type 0
AreApart none_yet i = Unit
AreApart (seen count first last) i =
    (0 < count) × (first + 2 * (count - 1) ≤ last) × (0 < first) × (last < i)

suc-one : (n : ℕ) → suc n ≡ 1 + n
suc-one n = omega arith

module _ (f : Float64) {A : Type 0} (o : Analog f A) where
  -- Where the last crossing is at the sample before index `i`, that sample is not negative.
  abbrev Follows : A → ℕ → Crossings → Type 0
  Follows before i none_yet = Unit
  Follows before i (seen count first last) = (last + 1 < i) ⊎ (is_negative f o before ≡ false)

  crossed_at-AreApart :
      (before : A) (i : ℕ) (c : Crossings)
      → 0 < i
      → is_negative f o before ≡ true
      → AreApart c i
      → Follows before i c
      → AreApart (crossed_at i c) (i + 1)
  unfolding crossed_at
  crossed_at-AreApart before i none_yet pos below apart far =
      (omega arith, omega arith, pos, omega arith)
  crossed_at-AreApart before i (seen count first last) pos below (some_, spread, pos', low)
        (inl early) =
      (omega arith, omega (arith, spread), pos', omega arith)
  crossed_at-AreApart before i (seen count first last) pos below (some_, spread, pos', low)
        (inr above) =
      ground arith

  crossed_at-Follows :
      (x : A) (i : ℕ) (c : Crossings)
      → is_negative f o x ≡ false
      → Follows x (i + 1) (crossed_at i c)
  unfolding crossed_at
  crossed_at-Follows x i none_yet above = inr above
  crossed_at-Follows x i (seen count first last) above = inr above

  AreApart-next : (i : ℕ) (c : Crossings) → AreApart c i → AreApart c (i + 1)
  AreApart-next i none_yet apart = apart
  AreApart-next i (seen count first last) (some_, spread, pos, low) =
      (some_, spread, pos, omega arith)

  Follows-next : (x : A) (i : ℕ) (c : Crossings) → AreApart c i → Follows x (i + 1) c
  Follows-next x i none_yet apart = tt
  Follows-next x i (seen count first last) (some_, spread, pos, low) = inl (omega arith)

  module _ (excludes : (x : A) → is_nonnegative f o x ≡ true → is_negative f o x ≡ false) where
    after-AreApart :
        (xs : List A) (before : A) (i : ℕ) (c : Crossings)
        → 0 < i
        → AreApart c i
        → Follows before i c
        → AreApart (crossings_after f o before i xs c) (i + length xs)
    unfolding crossings_after
    after-AreApart [] before i c pos apart far = rw add-zero apart
    after-AreApart (x ∷ xs) before i c pos apart far =
        let next : i + suc (length xs) ≡ i + 1 + length xs = omega arith in
        rw next (elim (Bool-cases (is_negative f o before)) [
          | inl below ↦ elim (Bool-cases (is_nonnegative f o x)) [
            | inl above ↦
                rw (below, above)
                  (after-AreApart xs x (i + 1) (crossed_at i c) (omega arith)
                    (crossed_at-AreApart before i c pos below apart far)
                    (crossed_at-Follows x i c (excludes x above)))
            | inr not_above ↦
                rw (below, not_above)
                  (after-AreApart xs x (i + 1) c (omega arith) (AreApart-next i c apart)
                    (Follows-next x i c apart))
          ]
          | inr not_below ↦ rw not_below (
              after-AreApart xs x (i + 1) c (omega arith) (AreApart-next i c apart)
                (Follows-next x i c apart))
        ])

    -- If no sample is both negative and not negative, then of the zero crossings that the analysis
    -- counts the first and the last lie among the samples, and two samples or more for each crossing
    -- after the first lie between them: the frequency divides by at least twice what it multiplies
    -- by, never by zero.
    pub crossings_of-AreApart : (xs : List A) → AreApart (crossings_of f o xs) (length xs)
    unfolding crossings_of
    crossings_of-AreApart [] = tt
    crossings_of-AreApart (x ∷ xs) =
        rw (suc-one (length xs)) (after-AreApart xs x 1 none_yet (omega arith) tt tt)
