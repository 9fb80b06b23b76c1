-- ===== src/Shm/Layout.antt =====
-- Where the samples of shared/line6_shm.h lie: bounds, and which frames share a slot.
use line6_coreaudio.Prelude.{
  ℕ, ◌+◌, ◌*◌, ◌%◌, ◌≤◌, ◌<◌, ◌≡◌, ◌≢◌, refl, sym, ap, ◌∙◌, bit_and, arith,
}
use line6_coreaudio.Prelude.Bits.{bit_and_mask}
use line6_coreaudio.Shm.{ring_mask, ring_frames_count, ring_samples, max_channels, slot, store}

bit_and-ring_mask : (frame : ℕ) → bit_and frame ring_mask ≡ frame % ring_frames_count
bit_and-ring_mask frame = bit_and_mask 16 frame ring_mask refl

pub slot-eq-mod :
    (channels frame ch : ℕ) → slot channels frame ch ≡ frame % ring_frames_count * channels + ch
unfolding slot
slot-eq-mod channels frame ch = rw (bit_and-ring_mask frame)

row-lt : (r c ch rows : ℕ) → r < rows → ch < c → r * c + ch < rows * c
row-lt r c ch rows inside low = grind arith

-- Every sample of every frame lies inside the ring array, if the device has at most `max_channels`
-- channels.
pub slot-lt-ring_samples :
    (channels frame ch : ℕ)
    → channels ≤ max_channels
    → ch < channels
    → slot channels frame ch < ring_samples
slot-lt-ring_samples channels frame ch few inside = rw (slot-eq-mod channels frame ch) (
    omega (
      arith,
      row-lt (frame % ring_frames_count) channels ch ring_frames_count (omega arith) inside,
    ))

-- The rows of a table with `c` columns do not meet.
row_eq : (r r' c ch ch' : ℕ) → ch < c → ch' < c → r * c + ch ≡ r' * c + ch' → r ≡ r'
row_eq r r' c ch ch' low low' e = grind (arith, row-lt)

-- Two frames share a sample slot only if they are a whole number of rings apart, and then the
-- slots belong to one channel.
pub slot_injective :
    (channels frame frame' ch ch' : ℕ)
    → ch < channels
    → ch' < channels
    → slot channels frame ch ≡ slot channels frame' ch'
    → (frame % ring_frames_count ≡ frame' % ring_frames_count) × (ch ≡ ch')
slot_injective channels frame frame' ch ch' low low' e =
    let flat : frame % ring_frames_count * channels + ch
        ≡ frame' % ring_frames_count * channels + ch' =
      sym (slot-eq-mod channels frame ch) ∙ e ∙ slot-eq-mod channels frame' ch' in
    let same : frame % ring_frames_count ≡ frame' % ring_frames_count =
      row_eq (frame % ring_frames_count) (frame' % ring_frames_count) channels ch ch' low low'
        flat in
    (same, omega (arith, ap (λ r. r * channels) same))

-- Different frames less than one ring apart have no sample slot in common.
pub slot_disjoint :
    (channels frame frame' ch ch' : ℕ)
    → ch < channels
    → ch' < channels
    → frame < frame'
    → frame' < frame + ring_frames_count
    → slot channels frame ch ≢ slot channels frame' ch'
slot_disjoint channels frame frame' ch ch' low low' lt near e =
    omega (arith, (slot_injective channels frame frame' ch ch' low low' e).0)

module _ {ℓ} {A : Type ℓ} where
  pub store_self : (ring : ℕ → A) (i : ℕ) (v : A) → store ring i v i ≡ v
  unfolding store
  store_self ring i v = ground arith

  pub store_ne : (ring : ℕ → A) (i j : ℕ) (v : A) → i ≢ j → store ring i v j ≡ ring j
  unfolding store
  store_ne ring i j v h = ground arith
