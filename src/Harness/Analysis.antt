-- ===== src/Harness/Analysis.antt =====
-- plugin/haltest.c, iosim: the analysis of what it has kept, over an interface to the operations on
-- doubles that it uses. What is only printed (the places of the first and last zero) is left out.
pub mod Spacing
use line6_coreaudio.Prelude.{
  ℕ, ◌+◌, ◌-◌, Bool, true, false, not, ◌&&◌, List, [], ◌∷◌, Option, none, some, ltb, ◌==◌,
  if◌then◌else◌, length,
}
use line6_coreaudio.Float64.{Float64}

-- The C operations and constants of the analysis: (double)x, fabs, -, <, >=, and 1e-9, M_PI, 2.5,
-- 0.5, 0.1.
pub record Analog (f : Float64) (A : Type 0) : Type 0 where
  pub widen : A → f.Carrier
  pub magnitude : f.Carrier → f.Carrier
  pub minus : f.Carrier → f.Carrier → f.Carrier
  pub less : f.Carrier → f.Carrier → Bool
  pub at_least : f.Carrier → f.Carrier → Bool
  pub tiny : f.Carrier
  pub pi : f.Carrier
  pub two_and_half : f.Carrier
  pub half : f.Carrier
  pub weak : f.Carrier

-- zc, firstZc and lastZc: zero and -1 at first, then a count, the first index and the last one.
pub data Crossings : Type 0 where
  none_yet : Crossings
  seen : ℕ → ℕ → ℕ → Crossings

-- The crossings after one more, at index `i`.
unfoldable pub crossed_at : ℕ → Crossings → Crossings
crossed_at i none_yet = seen 1 i i
crossed_at i (seen count first last) = seen (count + 1) first i

module _ (f : Float64) {A : Type 0} (o : Analog f A) where
  open f use {Carrier, of_u64, to_u64, times, over}

  -- The first loop: zeros and peak.
  unfoldable pub levels : List A → ℕ → Carrier → ℕ × Carrier
  levels [] zeros peak = (zeros, peak)
  levels (x ∷ xs) zeros peak =
      let v = o.magnitude (o.widen x) in
      levels xs (if o.less v o.tiny then zeros + 1 else zeros) (if o.less peak v then v else peak)

  unfoldable pub max_step : Carrier → Carrier
  max_step peak =
      times (over (times (times (times peak (of_u64 2)) o.pi) (of_u64 440)) (of_u64 48000))
        o.two_and_half

  -- The second loop: the steps above `limit`, after the sample `before`.
  unfoldable pub clicks_after : Carrier → A → List A → ℕ → ℕ
  clicks_after limit before [] clicks = clicks
  clicks_after limit before (x ∷ xs) clicks = clicks_after limit x xs (
      if o.less limit (o.magnitude (o.minus (o.widen x) (o.widen before)))
      then clicks + 1
      else clicks)

  unfoldable pub clicks_of : Carrier → List A → ℕ
  clicks_of limit [] = 0
  clicks_of limit (x ∷ xs) = clicks_after limit x xs 0

  abbrev pub is_negative : A → Bool
  is_negative x = o.less (o.widen x) (of_u64 0)

  abbrev pub is_nonnegative : A → Bool
  is_nonnegative x = o.at_least (o.widen x) (of_u64 0)

  -- The third loop from index `i` on, after the sample `before`.
  unfoldable pub crossings_after : A → ℕ → List A → Crossings → Crossings
  crossings_after before i [] c = c
  crossings_after before i (x ∷ xs) c =
      crossings_after x (i + 1) xs
        (if is_negative before && is_nonnegative x then crossed_at i c else c)

  unfoldable pub crossings_of : List A → Crossings
  crossings_of [] = none_yet
  crossings_of (x ∷ xs) = crossings_after x 1 xs none_yet

  -- freq
  unfoldable pub frequency : Crossings → Carrier
  frequency none_yet = of_u64 0
  frequency (seen count first last) =
      if ltb 2 count && ltb first last
      then over (times (of_u64 48000) (of_u64 (count - 1))) (of_u64 (last - first))
      else of_u64 0

  abbrev counted : Bool → ℕ
  counted fails = if fails then 1 else 0

  -- fail: the tests that what was kept does not pass.
  unfoldable pub failures : Carrier → List A → ℕ
  failures seconds captured =
      let got = length captured in
      let (zeros, peak) = levels captured 0 (of_u64 0) in
      let freq = frequency (crossings_of captured) in
      counted (ltb got (to_u64 (times (times seconds (of_u64 48000)) o.half)))
      + (counted (o.less peak o.weak)
          + (counted (ltb 2 (clicks_of (max_step peak) captured))
              + (counted (
                    not (got == 0)
                    && o.less (of_u64 2) (over (times (of_u64 100) (of_u64 zeros)) (of_u64 got)))
                  + counted (
                      o.less (of_u64 1) freq
                      && o.less (of_u64 1) (o.magnitude (o.minus freq (of_u64 440)))))))
