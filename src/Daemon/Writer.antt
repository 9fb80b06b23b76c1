-- ===== src/Daemon/Writer.antt =====
-- daemon/src/shm.rs, push_frames: whole frames of S24_3LE bytes into the ring. A read past the end
-- of the slice, or a division by a channel count of 0, is the panic `none`, and so is a store outside
-- the ring array, which the source does not check.
use native.Mathlib.Nat.{add-zero, zero-add, div-mul-le_self}
use line6_coreaudio.Prelude.{
  ℕ, zero, suc, ◌+◌, ◌*◌, ◌/◌, ◌%◌, ◌≤◌, ◌<◌, ◌≡◌, refl, ◌∙◌, ap, ℕ_discrete, List, Option, none,
  some, arith, u64_mod, length, get_elem?, get_or, get_elem?-eq-get_or, ◌==◌, if◌then◌else◌, ◌-◌,
  ltb, lt→ltb, true,
}
use line6_coreaudio.Shm.{Shm, slot, store, ring_frames_count, ring_samples, max_channels}
use line6_coreaudio.Shm.Layout.{slot-lt-ring_samples}
use line6_coreaudio.Stream.{Holds}
use line6_coreaudio.Stream.Producer.{
  Produced, begin, put, next, Produced-Holds, at_frame, at_sample,
}
use line6_coreaudio.Daemon.Samples.{Steps, s24_to_f32}

infixl 5 ◌>>=◌
abbrev pub ◌>>=◌ {ℓ κ} : {A : Type ℓ} {B : Type κ} → Option A → (A → Option B) → Option B
none >>= f = none
some a >>= f = f a

-- s24_to_f32(s24[o], s24[o + 1], s24[o + 2])
unfoldable pub sample_at : List ℕ → ℕ → Option Steps
sample_at s24 o = do
  b0 ← get_elem? s24 o
  b1 ← get_elem? s24 (o + 1)
  b2 ← get_elem? s24 (o + 2)
  some (s24_to_f32 b0 b1 b2)

-- A store through the pointer to the ring: the array has RING_SAMPLES elements.
unfoldable pub store_in : (ℕ → Steps) → ℕ → Steps → Option (ℕ → Steps)
store_in ring i v = if ltb i ring_samples then some (store ring i v) else none

-- The loop over the channels from `ch` on, `left` of them, for the frame at byte `base`.
unfoldable pub push_channels : List ℕ → ℕ → ℕ → ℕ → ℕ → ℕ → (ℕ → Steps) → Option (ℕ → Steps)
push_channels s24 channels w base ch zero ring = some ring
push_channels s24 channels w base ch (suc left) ring = do
  v ← sample_at s24 (base + ch * 3)
  ring1 ← store_in ring (slot channels w ch) v
  push_channels s24 channels w base (ch + 1) left ring1

-- The loop over the frames from `f` on, `left` of them; `w` is the frame counter.
unfoldable pub push_loop : List ℕ → ℕ → ℕ → ℕ → ℕ → (ℕ → Steps) → Option ((ℕ → Steps) × ℕ)
push_loop s24 channels f zero w ring = some (ring, w)
push_loop s24 channels f (suc left) w ring = do
  ring1 ← push_channels s24 channels w (f * (channels * 3)) 0 channels ring
  push_loop s24 channels (f + 1) left ((w + 1) % u64_mod) ring1

-- `write_frames` is stored once, after the loops.
unfoldable pub push_frames : ℕ → List ℕ → Shm Steps → Option (Shm Steps)
push_frames channels s24 shm =
    if channels * 3 == 0
    then none
    else let frames = length s24 / (channels * 3) in
      if frames == 0 then some shm else do
        p ← push_loop s24 channels 0 frames shm.write_frames shm.ring
        some (record shm { ring = p.0; write_frames = p.1 })

-- With as many channels as the segment has room for, every store is inside the ring.
pub store_in-slot :
    (ring : ℕ → Steps) (channels w ch : ℕ) (v : Steps)
    → channels ≤ max_channels
    → ch < channels
    → store_in ring (slot channels w ch) v ≡ some (store ring (slot channels w ch) v)
unfolding store_in
store_in-slot ring channels w ch v few low =
    let inside : ltb (slot channels w ch) ring_samples ≡ true =
      lt→ltb (slot channels w ch) ring_samples (slot-lt-ring_samples channels w ch few low) in
    rw inside refl

-- The sample that the bytes from `o` on give.
abbrev pub decoded : List ℕ → ℕ → Steps
decoded s24 o = s24_to_f32 (get_or s24 o 0) (get_or s24 (o + 1) 0) (get_or s24 (o + 2) 0)

sample_at_lem : (s24 : List ℕ) (o : ℕ) → o + 2 < length s24 → sample_at s24 o ≡ some (decoded s24 o)
unfolding sample_at
sample_at_lem s24 o within = rw (
  get_elem?-eq-get_or s24 o 0 (omega arith),
  get_elem?-eq-get_or s24 (o + 1) 0 (omega arith),
  get_elem?-eq-get_or s24 (o + 2) 0 within,
)

module _ (s24 : List ℕ) (channels : ℕ) (h : ℕ → ℕ → Steps) (old : ℕ → Steps) (first : ℕ)
    (few : channels ≤ max_channels) where
  channels-Produced :
      (w base ch left : ℕ) (ring : ℕ → Steps)
      → ch + left ≡ channels
      → base + channels * 3 ≤ length s24
      → ((c : ℕ) → c < channels → h w c ≡ decoded s24 (base + c * 3))
      → Produced channels h old first ring w ch
      → (ring' : ℕ → Steps) × (push_channels s24 channels w base ch left ring ≡ some ring')
        × Produced channels h old first ring' w channels
  unfolding push_channels
  channels-Produced w base ch zero ring whole within means p =
      (ring, refl, at_sample (omega arith) p)
  channels-Produced w base ch (suc left) ring whole within means p =
      let low : ch < channels = omega arith in
      let (ring', ran, q) =
        channels-Produced w base (ch + 1) left
          (store ring (slot channels w ch) (decoded s24 (base + ch * 3))) (omega arith) within means
          (rw (← means ch low) (at_sample (omega arith) (put p low))) in
      (
        ring',
        rw
            (
              sample_at_lem s24 (base + ch * 3) (omega arith),
              store_in-slot ring channels w ch (decoded s24 (base + ch * 3)) few low,
            )
            ran,
        q,
      )

  loop-Produced :
      (f left w : ℕ) (ring : ℕ → Steps)
      → (f + left) * (channels * 3) ≤ length s24
      → w + left < u64_mod
      → ((i c : ℕ)
          → i < left
          → c < channels
          → h (w + i) c ≡ decoded s24 ((f + i) * (channels * 3) + c * 3))
      → Produced channels h old first ring w 0
      → (ring' : ℕ → Steps) × (push_loop s24 channels f left w ring ≡ some (ring', w + left))
        × Produced channels h old first ring' (w + left) 0
  unfolding push_loop
  loop-Produced f zero w ring within small means p = (ring, rw add-zero, at_frame (omega arith) p)
  loop-Produced f (suc left) w ring within small means p =
      let (ring1, ran1, p1) =
        channels-Produced w (f * (channels * 3)) 0 channels ring (omega arith) (omega arith)
          (λ c low. let first_of = means 0 c (omega arith) low in simp add-zero at first_of) p in
      let (ring2, ran2, p2) =
        loop-Produced (f + 1) left (w + 1) ring1 (omega arith) (omega arith)
          (λ i c near low.
            let e1 : w + 1 + i ≡ w + (i + 1) = omega arith in
            let e2 : f + 1 + i ≡ f + (i + 1) = omega arith in
            rw (e1, e2) (means (i + 1) c (omega arith) low))
          (at_frame (omega arith) (next p1)) in
      let wrap : (w + 1) % u64_mod ≡ w + 1 = omega arith in
      let sum : w + suc left ≡ w + 1 + left = omega arith in
      (ring2, rw (ran1, wrap, sum) ran2, at_frame (omega arith) p2)

-- The stream `h` has the frames of the bytes after the frame `w`.
abbrev pub Carries : ℕ → List ℕ → (ℕ → ℕ → Steps) → ℕ → Type 0
Carries channels s24 h w =
    (i c : ℕ)
    → i < length s24 / (channels * 3)
    → c < channels
    → h (w + i) c ≡ decoded s24 (i * (channels * 3) + c * 3)

-- Two states of the segment that differ in its ring and its count only.
abbrev pub SameHeader : Shm Steps → Shm Steps → Type 0
SameHeader shm shm' = shm' ≡ record shm { ring = shm'.ring; write_frames = shm'.write_frames }

pub SameHeader-trans : (a b c : Shm Steps) → SameHeader a b → SameHeader b c → SameHeader a c
SameHeader-trans a b c ab bc =
    bc ∙ ap (λ (s : Shm Steps). record s { ring = c.ring; write_frames = c.write_frames }) ab

abbrev pub pushed : Shm Steps → (ℕ → Steps) → ℕ → Shm Steps
pushed shm ring frames = record shm { ring = ring; write_frames = shm.write_frames + frames }

push_frames-loop :
    (channels : ℕ) (s24 : List ℕ) (shm : Shm Steps)
    → 0 < channels
    → push_frames channels s24 shm ≡ (
        push_loop s24 channels 0 (length s24 / (channels * 3)) shm.write_frames shm.ring >>= λ p.
        some (record shm { ring = p.0; write_frames = p.1 }))
unfolding push_frames push_loop
push_frames-loop channels s24 shm some_channel = elim (ℕ_discrete (length s24 / (channels * 3)) 0) [
  | yes none_whole ↦ rw none_whole (ground arith)
  | no some_whole ↦ ground arith
]

module _ (channels : ℕ) (s24 : List ℕ) (shm : Shm Steps) (h : ℕ → ℕ → Steps) where
  -- push_frames never reads past the slice or stores outside the ring array: its stores are the stream's next frames, sample by
  -- sample, as many as the bytes hold whole, and then the frame count is published; the header
  -- stays.
  pub push_frames-Produced :
      0 < channels
      → channels ≤ max_channels
      → shm.write_frames + length s24 / (channels * 3) < u64_mod
      → Carries channels s24 h shm.write_frames
      → (ring' : ℕ → Steps) × (push_frames channels s24 shm
          ≡ some (pushed shm ring' (length s24 / (channels * 3))))
        × Produced channels h shm.ring shm.write_frames ring'
            (shm.write_frames + length s24 / (channels * 3))
            0
  unfolding push_frames
  push_frames-Produced some_channel few small carries =
      let (ring', ran, p) =
        loop-Produced s24 channels h shm.ring shm.write_frames few 0 (length s24 / (channels * 3))
          shm.write_frames shm.ring (rw zero-add (div-mul-le_self (length s24) (channels * 3)))
          small (λ i c near low. let e : 0 + i ≡ i = omega arith in rw e (carries i c near low))
          begin in
      (ring', push_frames-loop channels s24 shm some_channel ∙ rw ran, p)

  -- If the device has a channel and at most eight, the frame count stays below 2^64 and the stream has the frames of
  -- the bytes next, push_frames neither panics nor reads past the slice
  -- nor stores outside the ring array: from a ring that holds
  -- the last frames of the stream it makes one that holds the last frames, the new ones included,
  -- and the count grows by the number of whole frames in the bytes.
  pub push_frames-Holds :
      0 < channels
      → channels ≤ max_channels
      → shm.write_frames + length s24 / (channels * 3) < u64_mod
      → Carries channels s24 h shm.write_frames
      → Holds channels h (shm.write_frames + 1 - ring_frames_count) shm.write_frames shm.ring
      → (shm' : Shm Steps) × (push_frames channels s24 shm ≡ some shm')
        × (shm'.write_frames ≡ shm.write_frames + length s24 / (channels * 3))
        × Holds channels h (shm'.write_frames + 1 - ring_frames_count) shm'.write_frames shm'.ring
        × SameHeader shm shm'
  push_frames-Holds some_channel few small carries held =
      let (ring', ran, p) = push_frames-Produced some_channel few small carries in
      (
        pushed shm ring' (length s24 / (channels * 3)),
        ran,
        refl,
        Produced-Holds channels h held p,
        refl,
      )
