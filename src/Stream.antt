-- ===== src/Stream.antt =====
-- The specification that both sides of the segment meet: a stream of frames, each a sample for
-- every channel, of which the ring holds the last ones.
pub mod Producer
use line6_coreaudio.Prelude.{ℕ, zero, suc, ◌+◌, ◌-◌, ◌≤◌, ◌<◌, ◌≡◌, List, [], ◌∷◌, ◌++◌}
use line6_coreaudio.Shm.{slot}

module _ {A : Type 0} where
  -- The ring holds the frames from `lo` to before `hi`.
  abbrev pub Holds : ℕ → (ℕ → ℕ → A) → ℕ → ℕ → (ℕ → A) → Type 0
  Holds channels h lo hi ring =
      (f c : ℕ) → lo ≤ f → f < hi → c < channels → ring (slot channels f c) ≡ h f c

  -- The samples of one frame from channel `c` on, `left` of them.
  abbrev pub frame_samples : (ℕ → ℕ → A) → ℕ → ℕ → ℕ → List A
  frame_samples h f c zero = []
  frame_samples h f c (suc left) = h f c ∷ frame_samples h f (c + 1) left

  -- The interleaved samples of `n` frames from frame `f` on.
  abbrev pub segment : ℕ → (ℕ → ℕ → A) → ℕ → ℕ → List A
  segment channels h f zero = []
  segment channels h f (suc n) = frame_samples h f 0 channels ++ segment channels h (f + 1) n
