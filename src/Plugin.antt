-- ===== src/Plugin.antt =====
-- The globals of plugin/Line6HAL.c, its status codes and its mutex.
-- A handler takes the globals and returns the new ones. `gMutex` is not recursive: a thread that
-- locks it twice never returns, which is the outcome `deadlock`. A call of a framework function with
-- a null object ends the process, which is the outcome `crashed`.
pub mod Lifecycle
pub mod Io
pub mod Timeline
pub mod Presence
pub mod Names
pub mod Property
pub mod Interface
use line6_coreaudio.Prelude.{
  ℕ, zero, suc, ◌+◌, ◌-◌, ◌%◌, ◌<◌, ◌≡◌, refl, Bool, true, false, ◌&&◌, ◌||◌, not, ltb, ◌==◌,
  if◌then◌else◌, u32_mod, u64_mod,
}
use line6_coreaudio.Shm.{Shm, max_channels}

-- OSStatus
pub data Status : Type 0 where
  no_err bad_object unknown_property unsupported_operation : Status

-- kObjectID_PlugIn, kObjectID_Device, kObjectID_Stream_Input
abbrev pub object_plug_in : ℕ
object_plug_in = 1

abbrev pub object_device : ℕ
object_device = 2

abbrev pub object_stream_input : ℕ
object_stream_input = 3

abbrev pub bytes_per_sample : ℕ
bytes_per_sample = 4

abbrev pub ring_period : ℕ
ring_period = 8192

abbrev pub safety_offset : ℕ
safety_offset = 256

abbrev pub default_margin : ℕ
default_margin = 3072

-- The read cursor: gReadFrame, gCycleReadFrame, gLastCycle.
pub record Cursor : Type 0 where
  pub read_frame : ℕ
  pub cycle_read_frame : ℕ
  pub last_cycle : ℕ

-- The static variables. `attached` is `gShm != NULL`: gShm is written once, and the segment that
-- it points to, which the daemon changes, is an argument of the handlers that read it.
-- `F` is the type Float64.
pub record Globals (F : Type 0) : Type 0 where
  pub locked : Bool
  pub ref_count : ℕ
  pub has_host : Bool
  pub io_running : ℕ
  pub host_ticks_per_frame : F
  pub anchor_host_time : ℕ
  pub number_time_stamps : ℕ
  pub attached : Bool
  pub cursor : Cursor
  pub device_present : Bool
  pub monitor_run : Bool

pub data Outcome {ℓ} (A : Type ℓ) : Type ℓ where
  returned : A → Outcome A
  deadlock : Outcome A
  crashed : Outcome A

infixl 5 ◌>>=◌
abbrev pub ◌>>=◌ {ℓ κ} : {A : Type ℓ} {B : Type κ} → Outcome A → (A → Outcome B) → Outcome B
returned a >>= f = f a
deadlock >>= f = deadlock
crashed >>= f = crashed

module _ {F : Type 0} where
  -- pthread_mutex_lock(&gMutex) and pthread_mutex_unlock(&gMutex)
  abbrev pub lock : Globals F → Outcome (Globals F)
  lock g = if g.locked then deadlock else returned (record g { locked = true })

  abbrev pub unlock : Globals F → Globals F
  unlock g = record g { locked = false }

  -- DevChannels: the device's channel count, from the segment.
  unfoldable pub dev_channels : {A : Type 0} → Globals F → Shm A → ℕ
  dev_channels g shm =
      let c = if g.attached then shm.channels else max_channels in
      if c == 0 || ltb max_channels c then max_channels else c
