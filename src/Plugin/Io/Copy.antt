-- ===== src/Plugin/Io/Copy.antt =====
-- The copy loop of DoIOOperation (plugin/Line6HAL.c) against the stream of frames that the daemon
-- writes.
use mathlib.Core.List.{append_assoc}
use native.Mathlib.Nat.{zero-add, suc-add}
use line6_coreaudio.Prelude.{
  List, [], ◌++◌, ℕ, zero, suc, ◌+◌, ◌*◌, ◌%◌, ◌≤◌, ◌<◌, ◌≡◌, refl, ap, arith, lt→ltb, ltb_of_le,
  length, length-append, length-replicate, replicate, u64_mod,
}
use line6_coreaudio.Shm.{slot}
use line6_coreaudio.Stream.{frame_samples, segment}
use line6_coreaudio.Plugin.Io.{copy_frame, copy_frames}

module _ {A : Type 0} where
  length-copy_frame :
      (ring : ℕ → ℕ → A) (channels src ch left : ℕ)
      → length (copy_frame ring channels src ch left) ≡ left
  unfolding copy_frame
  length-copy_frame ring channels src ch zero = refl
  length-copy_frame ring channels src ch (suc left) =
      ap suc (length-copy_frame ring channels src (ch + 1) left)

  -- A frame whose slots show the stream is copied as the stream's samples.
  copy_frame-eq-samples :
      (ring h : ℕ → ℕ → A) (channels src ch left : ℕ)
      → ch + left ≤ channels
      → ((c : ℕ) → c < channels → ring c (slot channels src c) ≡ h src c)
      → copy_frame ring channels src ch left ≡ frame_samples h src ch left
  unfolding copy_frame
  copy_frame-eq-samples ring h channels src ch zero fits shows = refl
  copy_frame-eq-samples ring h channels src ch (suc left) fits shows = cc (
    shows ch (omega arith),
    copy_frame-eq-samples ring h channels src (ch + 1) left (omega arith) shows,
  )

module _ {A : Type 0} (silence : A) where
  -- The samples of `n` frames of silence.
  abbrev pub silent : ℕ → ℕ → List A
  silent channels zero = []
  silent channels (suc n) = replicate channels silence ++ silent channels n

  -- The loop fills exactly the caller's buffer: `left` frames of `channels` samples.
  length-copy_frames :
      (ring : ℕ → ℕ → ℕ → A) (channels w rf i left : ℕ)
      → length (copy_frames silence ring channels w rf i left) ≡ left * channels
  unfolding copy_frames
  length-copy_frames ring channels w rf i zero = omega arith
  length-copy_frames ring channels w rf i (suc left) = ground (
    arith,
    length-copy_frame (ring i) channels ((rf + i) % u64_mod) 0 channels,
    length-replicate channels silence,
    length-append (copy_frame (ring i) channels ((rf + i) % u64_mod) 0 channels)
        (copy_frames silence ring channels w rf (i + 1) left),
    length-append (replicate channels silence)
        (copy_frames silence ring channels w rf (i + 1) left),
    length-copy_frames ring channels w rf (i + 1) left,
  )

  -- If every frame of the window is published before `w` and its slots show the stream when they
  -- are copied, the loop returns the stream's samples.
  pub copy_frames-eq-segment :
      (ring : ℕ → ℕ → ℕ → A) (h : ℕ → ℕ → A) (channels w rf i left : ℕ)
      → rf + i + left ≤ w
      → w < u64_mod
      → ((j c : ℕ)
          → j < i + left
          → c < channels
          → ring j c (slot channels (rf + j) c) ≡ h (rf + j) c)
      → copy_frames silence ring channels w rf i left ≡ segment channels h (rf + i) left
  unfolding copy_frames
  copy_frames-eq-segment ring h channels w rf i zero fits small shows = refl
  copy_frames-eq-segment ring h channels w rf i (suc left) fits small shows =
      rw (at, lt→ltb (rf + i) w (omega arith))
        (cc (
          copy_frame-eq-samples (ring i) h channels (rf + i) 0 channels (omega arith)
              (λ c low. shows i c (omega arith) low),
          copy_frames-eq-segment ring h channels w rf (i + 1) left (omega arith) small
              (λ j c inside low. shows j c (omega arith) low),
          next,
        ))
    where
      at : (rf + i) % u64_mod ≡ rf + i
      at = omega arith

      next : rf + (i + 1) ≡ rf + i + 1
      next = omega arith

  -- Past the write head the loop returns silence.
  pub copy_frames_past :
      (ring : ℕ → ℕ → ℕ → A) (channels w rf i left : ℕ)
      → w ≤ rf + i
      → rf + i + left ≤ u64_mod
      → copy_frames silence ring channels w rf i left ≡ silent channels left
  unfolding copy_frames
  copy_frames_past ring channels w rf i zero past small = refl
  copy_frames_past ring channels w rf i (suc left) past small =
      rw (at, ltb_of_le (rf + i) w past)
        (rw (copy_frames_past ring channels w rf (i + 1) left (omega arith) (omega arith)))
    where
      at : (rf + i) % u64_mod ≡ rf + i
      at = omega arith

  -- If the slots of the published frames show the stream when they are copied, and the frame
  -- numbers stay below 2^64, a read that runs past the write head returns the published frames,
  -- then silence.
  copy_frames_split :
      (ring : ℕ → ℕ → ℕ → A) (h : ℕ → ℕ → A) (channels w rf i n m : ℕ)
      → rf + i + n ≡ w
      → w + m < u64_mod
      → ((j c : ℕ) → j < i + n → c < channels → ring j c (slot channels (rf + j) c) ≡ h (rf + j) c)
      → copy_frames silence ring channels w rf i (n + m)
        ≡ segment channels h (rf + i) n ++ silent channels m
  unfolding copy_frames
  copy_frames_split ring h channels w rf i zero m ends small shows =
      rw (zero-add, copy_frames_past ring channels w rf i m (omega arith) (omega arith))
  copy_frames_split ring h channels w rf i (suc n) m ends small shows =
      rw (suc-add, at, lt→ltb (rf + i) w (omega arith), append_assoc)
        (cc (
          copy_frame-eq-samples (ring i) h channels (rf + i) 0 channels (omega arith)
              (λ c low. shows i c (omega arith) low),
          copy_frames_split ring h channels w rf (i + 1) n m (omega arith) small
              (λ j c inside low. shows j c (omega arith) low),
          next,
        ))
    where
      at : (rf + i) % u64_mod ≡ rf + i
      at = omega arith

      next : rf + (i + 1) ≡ rf + i + 1
      next = omega arith
