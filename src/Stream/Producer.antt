-- ===== src/Stream/Producer.antt =====
-- The daemon as seen by a reader: it stores one sample at a time, frame after frame, in the order
-- of its loops (daemon/src/shm.rs, push_frames and push_sine).
use line6_coreaudio.Prelude.{ℕ, suc, ◌+◌, ◌-◌, ◌≤◌, ◌<◌, ◌≡◌, sym, ◌∙◌, arith, dec_lt}
use line6_coreaudio.Shm.{slot, store, ring_frames_count}
use line6_coreaudio.Shm.Layout.{slot_disjoint, slot_injective, store_self, store_ne}
use line6_coreaudio.Stream.{Holds}

module _ {A : Type 0} (channels : ℕ) (h : ℕ → ℕ → A) where
  -- From the ring `old` that holds `first` frames, the daemon gets to a ring with `n` whole frames
  -- and `k` samples of the next one.
  pub data Produced (old : ℕ → A) (first : ℕ) : (ℕ → A) → ℕ → ℕ → Type 0 where
    begin : Produced old first old first 0
    put :
        {ring : ℕ → A} {n k : ℕ}
        → Produced old first ring n k
        → k < channels
        → Produced old first (store ring (slot channels n k) (h n k)) n (suc k)
    next :
        {ring : ℕ → A} {n : ℕ}
        → Produced old first ring n channels
        → Produced old first ring (suc n) 0

  -- What a ring in the middle of a frame still shows: the whole frames but the one that is being
  -- overwritten, and the samples of the new one.
  record IsIntact (ring : ℕ → A) (n k : ℕ) : Type 0 where
    whole : Holds channels h (n + 1 - ring_frames_count) n ring
    begun : (c : ℕ) → c < k → ring (slot channels n c) ≡ h n c
    kept : k ≤ channels

  put-IsIntact :
      (ring : ℕ → A) (n k : ℕ)
      → k < channels
      → IsIntact ring n k
      → IsIntact (store ring (slot channels n k) (h n k)) n (suc k)
  put-IsIntact ring n k inside i = record {
    whole = λ f c lo hi low. older f c lo hi low;
    begun = λ c low. newer c low;
    kept = omega arith;
  }
    where
      older :
          Holds channels h (n + 1 - ring_frames_count) n (store ring (slot channels n k) (h n k))
      older f c lo hi low =
          store_ne ring (slot channels n k) (slot channels f c) (h n k)
            (λ e. slot_disjoint channels f n c k low inside hi (omega arith) (sym e))
          ∙ i.whole f c lo hi low

      newer :
          (c : ℕ) → c < suc k → store ring (slot channels n k) (h n k) (slot channels n c) ≡ h n c
      newer c low = elim (dec_lt c k) [
        | yes before ↦
            store_ne ring (slot channels n k) (slot channels n c) (h n k)
              (λ e. omega (arith, (slot_injective channels n n k c inside (omega arith) e).1))
            ∙ i.begun c before
        | no at ↦ let e : c ≡ k = omega arith in rw e (store_self ring (slot channels n k) (h n k))
      ]

  next-IsIntact : (ring : ℕ → A) (n : ℕ) → IsIntact ring n channels → IsIntact ring (suc n) 0
  next-IsIntact ring n i = record {
    whole = λ f c lo hi low. elim (dec_lt f n) [
      | yes before ↦ i.whole f c (omega arith) before low
      | no at ↦ let e : f ≡ n = omega arith in rw e (i.begun c low)
    ];
    begun = λ c low. absurd (omega arith);
    kept = omega arith;
  }

  Produced-IsIntact :
      {old : ℕ → A} {first : ℕ} {ring : ℕ → A} {n k : ℕ}
      → Holds channels h (first + 1 - ring_frames_count) first old
      → Produced old first ring n k
      → IsIntact ring n k
  Produced-IsIntact held begin = record {
    whole = held;
    begun = λ c low. absurd (omega arith);
    kept = omega arith;
  }
  Produced-IsIntact held (put p inside) = put-IsIntact _ _ _ inside (Produced-IsIntact held p)
  Produced-IsIntact held (next p) = next-IsIntact _ _ (Produced-IsIntact held p)

  -- From a ring that holds the last frames of the stream, at every moment of the daemon's loops,
  -- between any two stores, the ring shows the last ring's worth of whole frames but the one that
  -- is being overwritten.
  pub Produced-Holds :
      {old : ℕ → A} {first : ℕ} {ring : ℕ → A} {n k : ℕ}
      → Holds channels h (first + 1 - ring_frames_count) first old
      → Produced old first ring n k
      → Holds channels h (n + 1 - ring_frames_count) n ring
  Produced-Holds held p = (Produced-IsIntact held p).whole

-- A run read at an equal frame number, or at an equal sample of its frame.
module _ {A : Type 0} {channels : ℕ} {h : ℕ → ℕ → A} {old ring : ℕ → A} {first : ℕ} where
  pub at_frame :
      {n m k : ℕ}
      → n ≡ m
      → Produced channels h old first ring n k
      → Produced channels h old first ring m k
  at_frame e p = rw (← e) p

  pub at_sample :
      {n k l : ℕ}
      → k ≡ l
      → Produced channels h old first ring n k
      → Produced channels h old first ring n l
  at_sample e p = rw (← e) p
