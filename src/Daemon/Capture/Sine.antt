-- ===== src/Daemon/Capture/Sine.antt =====
-- daemon/src/shm.rs, push_sine: the test tone in place of captured frames.
use line6_coreaudio.Prelude.{ℕ, zero, suc}
use line6_coreaudio.Shm.{Shm}
use line6_coreaudio.Daemon.Capture.{Double, next_phase}

module _ (fp : Double) where
  -- The phase after some frames of the tone.
  pub phase_after : ℕ → fp.Carrier → fp.Carrier
  phase_after zero phase = phase
  phase_after (suc n) phase = phase_after n (next_phase fp phase)
