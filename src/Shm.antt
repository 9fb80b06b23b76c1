-- ===== src/Shm.antt =====
-- The shared segment of shared/line6_shm.h: its constants and `line6_shm_t`.
-- `A` is the type of a Float32 sample, which the C side copies and never computes with. The ring
-- is memory addressed by sample index; the child is about its bounds.
pub mod Layout
use line6_coreaudio.Prelude.{ℕ, ◌+◌, ◌-◌, ◌*◌, List, bit_and, ◌==◌, if◌then◌else◌}

abbrev pub shm_magic : ℕ
shm_magic = 0x4C494E36

abbrev pub shm_version : ℕ
shm_version = 1

abbrev pub sample_rate_hz : ℕ
sample_rate_hz = 48000

abbrev pub max_channels : ℕ
max_channels = 8

abbrev pub name_len : ℕ
name_len = 32

abbrev pub ring_frames_count : ℕ
ring_frames_count = 65536

abbrev pub ring_mask : ℕ
ring_mask = ring_frames_count - 1

abbrev pub ring_samples : ℕ
ring_samples = ring_frames_count * max_channels

-- `line6_shm_t`. `name` is the array of `name_len` bytes.
pub record Shm (A : Type 0) : Type 0 where
  pub magic : ℕ
  pub version : ℕ
  pub sample_rate : ℕ
  pub channels : ℕ
  pub ring_frames : ℕ
  pub latency_frames : ℕ
  pub name : List ℕ
  pub write_frames : ℕ
  pub ring : ℕ → A

-- `(frame & LINE6_RING_MASK) * channels`: the index of a frame's first sample.
pub frame_base : ℕ → ℕ → ℕ
frame_base channels frame = bit_and frame ring_mask * channels

-- The index of one sample of a frame.
pub slot : ℕ → ℕ → ℕ → ℕ
unfolding frame_base
slot channels frame ch = frame_base channels frame + ch

-- A store to one sample of the ring.
pub store {ℓ} : {A : Type ℓ} → (ℕ → A) → ℕ → A → ℕ → A
store ring i v j = if i == j then v else ring j
