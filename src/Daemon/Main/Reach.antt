-- ===== src/Daemon/Main/Reach.antt =====
-- daemon/src/main.rs: the states that run_daemon can reach, and what a capture in one of them writes to.
use Prim.Native.String.{String}
use mathlib.Core.Path.{subst}
use line6_coreaudio.Prelude.{
  ℕ, ◌≡◌, refl, ap, ◌∙◌, Bool, true, inl, inr, arith, List, Option, some, none,
}
use line6_coreaudio.Shm.{shm_magic, shm_version, Shm, max_channels}
use line6_coreaudio.Plugin.Lifecycle.{Mapping, has_good_header, mapped, open_failed, map_failed}
use line6_coreaudio.Daemon.Samples.{Steps}
use line6_coreaudio.Daemon.Devices.{Device}
use line6_coreaudio.Daemon.Header.{create}
use line6_coreaudio.Daemon.Capture.{Double}
use line6_coreaudio.Daemon.Capture.Total.{IsSetUp}
use line6_coreaudio.Daemon.Engine.{Call}
use line6_coreaudio.Daemon.Engine.Protocol.{Held, follow}
use line6_coreaudio.Daemon.Engine.Streaming.{nothing-IsIdle, nothing, IsStreaming}
use line6_coreaudio.Daemon.Main.{Active, Locals, new_locals, Turn, next, turn}
use line6_coreaudio.Daemon.Main.Laws.{
  IsHeld, DescribedBy, IsDescribed, IsDescribed-channels, IsFair, IsLate, IsWell, Ends,
}
use line6_coreaudio.Daemon.Main.Turns.{turn-Ends}

module _ {fp : Double} (sine exits : Bool) (latency_frames : ℕ) (as_bytes : String → List ℕ) where
  -- The states before a turn, with what libusb then holds: the one at the start, and those after a
  -- turn whose callbacks are of active transfers and whose calls libusb allows: no stop has so far
  -- freed a transfer in flight.
  pub data Reach : Locals fp → Held → Type 0 where
    begins : (now : ℕ) → Reach (new_locals fp now) nothing
    turned :
        {l : Locals fp} {h : Held} {l' : Locals fp} {h' : Held} (t : Turn) (calls : List Call)
        → Reach l h
        → IsFair t l.active h
        → turn sine exits latency_frames as_bytes t l ≡ next l' calls
        → follow calls h ≡ some h'
        → Reach l' h'

  begins-IsWell : (now : ℕ) → IsWell latency_frames as_bytes (new_locals fp now) nothing
  begins-IsWell now = record { held = nothing-IsIdle; described = tt }

  pub Reach-IsWell : {l : Locals fp} {h : Held} → Reach l h → IsWell latency_frames as_bytes l h
  Reach-IsWell (begins now) = begins-IsWell now
  Reach-IsWell (turned {l = l} {h = h} {l' = l'} {h' = h'} t calls r fair ran allowed) =
      let ends : Ends latency_frames as_bytes (IsLate t l.active h) (next l' calls) h =
        subst (λ e. Ends latency_frames as_bytes (IsLate t l.active h) e h) ran
          (turn-Ends latency_frames as_bytes sine exits t l h (Reach-IsWell r) fair) in
      elim ends [
        | inl (h2, allowed2, well) ↦
            let same : h2 ≡ h' = cc (allowed, allowed2) in
            subst (IsWell latency_frames as_bytes l') same well
        | inr (late, refused, gone, described) ↦ cc (allowed, refused)
      ]

module _ (latency_frames : ℕ) (as_bytes : String → List ℕ) where
  create-header :
      (mapping : Mapping) (d : Device) (ring : ℕ → Steps) (base : Shm Steps)
      → create as_bytes mapping d latency_frames ring ≡ some base
      → (has_good_header base ≡ true) × (base.latency_frames ≡ latency_frames)
  unfolding create has_good_header
  create-header open_failed d ring base made = cc
  create-header map_failed d ring base made = cc
  create-header mapped d ring base made =
      let magic : base.magic ≡ shm_magic = cc made in
      let version : base.version ≡ shm_version = cc made in (ground arith, cc made)

  described-header :
      (shm : Shm Steps) (pid : ℕ)
      → IsDescribed latency_frames as_bytes shm pid
      → (has_good_header shm ≡ true) × (shm.latency_frames ≡ latency_frames)
  unfolding has_good_header
  described-header shm pid s =
      let (good, latency) = create-header s.mapping s.device s.ring s.base s.made in
      (
        ap (λ (x : Shm Steps). has_good_header x) s.header ∙ good,
        ap (λ (x : Shm Steps). x.latency_frames) s.header ∙ latency,
      )

module _ {fp : Double} (sine exits : Bool) (latency_frames : ℕ) (as_bytes : String → List ℕ) where
  held_capture :
      (l : Locals fp) (a : Active fp) (h : Held) (segment : Option (Shm Steps))
      → IsHeld (some a) segment h
      → DescribedBy latency_frames as_bytes l.shm_pid segment
      → (shm : Shm Steps) × (segment ≡ some shm)
        × (a.stream.channels ≡ shm.channels)
        × (shm.channels ≡ max_channels)
        × (has_good_header shm ≡ true)
        × (shm.latency_frames ≡ latency_frames)
        × IsSetUp a.stream
        × IsStreaming a.engine a.stream h
  held_capture l a h none held described = absurd held
  held_capture l a h (some shm) (s, set_up, running, channels) described =
      let (good, latency) = described-header latency_frames as_bytes shm l.shm_pid described in
      (
        shm,
        refl,
        channels,
        IsDescribed-channels latency_frames as_bytes shm l.shm_pid described,
        good,
        latency,
        set_up,
        s,
      )

  -- In every state that run_daemon can reach while libusb calls back active transfers only, with
  -- packets inside their buffers, and no stop has yet freed a transfer in flight, whatever the devices
  -- that come and go, the stalls, the failures of start and the resubmissions that fail: a capture that runs writes to
  -- a segment whose header AttachShm accepts and which has the stream's channel count, at most the
  -- plugin's maximum, and the latency of the command line; and libusb is held for exactly that
  -- capture.
  pub reached_capture :
      (l : Locals fp) (h : Held) (a : Active fp)
      → Reach sine exits latency_frames as_bytes l h
      → l.active ≡ some a
      → (shm : Shm Steps) × (l.segment ≡ some shm)
        × (a.stream.channels ≡ shm.channels)
        × (shm.channels ≡ max_channels)
        × (has_good_header shm ≡ true)
        × (shm.latency_frames ≡ latency_frames)
        × IsSetUp a.stream
        × IsStreaming a.engine a.stream h
  reached_capture l h a reach on =
      let well : IsWell latency_frames as_bytes l h =
        Reach-IsWell sine exits latency_frames as_bytes reach in
      held_capture l a h l.segment (subst (λ o. IsHeld o l.segment h) on well.held) well.described
