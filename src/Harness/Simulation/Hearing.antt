-- ===== src/Harness/Simulation/Hearing.antt =====
-- plugin/haltest.c, iosim: what it keeps of the daemon's stream.
use native.Mathlib.Nat.{add-zero, zero-add, zero-mul, suc-add}
use line6_coreaudio.Prelude.{
  ℕ, zero, suc, ◌+◌, ◌*◌, ◌≤◌, ◌<◌, ◌≡◌, refl, ◌∙◌, ap, true, arith, List, [], ◌∷◌, ◌++◌, length,
  get_or, ltb,
}
use line6_coreaudio.Stream.{frame_samples, segment}
use line6_coreaudio.Harness.Simulation.{Pace, keep}

module _ {A : Type 0} where
  get_or-append :
      (xs ys : List A) (k : ℕ) (d : A) → get_or (xs ++ ys) (length xs + k) d ≡ get_or ys k d
  get_or-append [] ys k d = ap (λ j. get_or ys j d) (zero-add k)
  get_or-append (x ∷ xs) ys k d =
      let e : length (x ∷ xs) + k ≡ suc (length xs + k) = omega arith in
      rw e (get_or-append xs ys k d)

  module _ (h : ℕ → ℕ → A) where
    -- Channel 0 of `n` frames from frame `f` on.
    pub first_channel : ℕ → ℕ → List A
    first_channel f zero = []
    first_channel f (suc n) = h f 0 ∷ first_channel (f + 1) n

    length-frame_samples : (f c left : ℕ) → length (frame_samples h f c left) ≡ left
    length-frame_samples f c zero = refl
    length-frame_samples f c (suc left) = ap suc (length-frame_samples f (c + 1) left)

    get_or-segment :
        (channels f n i : ℕ) (d : A)
        → 0 < channels
        → i < n
        → get_or (segment channels h f n) (i * channels) d ≡ h (f + i) 0
    get_or-segment channels f zero i d pos low = absurd (omega arith)
    get_or-segment zero f (suc n) i d pos low = absurd (omega arith)
    get_or-segment (suc channels) f (suc n) zero d pos low = rw (zero-mul, add-zero) refl
    get_or-segment (suc channels) f (suc n) (suc i) d pos low =
        let e : suc i * suc channels
            ≡ length (frame_samples h f 0 (suc channels)) + i * suc channels =
          omega (arith, length-frame_samples f 0 (suc channels)) in
        let next : f + suc i ≡ f + 1 + i = omega arith in
        rw (e, next)
          (get_or-append (frame_samples h f 0 (suc channels)) (segment (suc channels) h (f + 1) n)
              (i * suc channels) d
            ∙ get_or-segment (suc channels) (f + 1) n i d pos (omega arith))

    pub keep-segment :
        (channels : ℕ) (p : Pace) (stack : ℕ → A) (at n i got left : ℕ)
        → 0 < channels
        → i + left ≤ n
        → got + left ≤ p.max_frames
        → keep channels p (segment channels h at n) stack i got left ≡ first_channel (at + i) left
    unfolding keep first_channel
    keep-segment channels p stack at n i got zero pos within fits = refl
    keep-segment channels p stack at n i got (suc left) pos within fits =
        let more : ltb got p.max_frames ≡ true = ground arith in
        let next : at + i + 1 ≡ at + (i + 1) = omega arith in
        rw
          (
            more,
            get_or-segment channels at n i (stack (i * channels)) pos (omega arith),
            keep-segment channels p stack at n (i + 1) (got + 1) left pos (omega arith)
                (omega arith),
            next,
          )
          refl

pub first_channel-append :
    {A : Type 0} (h : ℕ → ℕ → A) (f n m : ℕ)
    → first_channel h f (n + m) ≡ first_channel h f n ++ first_channel h (f + n) m
unfolding first_channel
first_channel-append h f zero m = rw (zero-add, add-zero)
first_channel-append h f (suc n) m =
    let next : f + 1 + n ≡ f + suc n = omega arith in
    rw (suc-add, first_channel-append h (f + 1) n m, next)

pub length-first_channel : {A : Type 0} (h : ℕ → ℕ → A) (f n : ℕ) → length (first_channel h f n) ≡ n
unfolding first_channel
length-first_channel h f zero = refl
length-first_channel h f (suc n) = ap suc (length-first_channel h (f + 1) n)

-- No frames, no samples.
pub first_channel-zero : {A : Type 0} (h : ℕ → ℕ → A) (f : ℕ) → first_channel h f 0 ≡ []
unfolding first_channel
first_channel-zero h f = refl
