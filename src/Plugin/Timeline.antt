-- ===== src/Plugin/Timeline.antt =====
-- plugin/Line6HAL.c: GetZeroTimeStamp, the 48 kHz timeline on the host clock.
pub mod Laws
use line6_coreaudio.Prelude.{
  ℕ, ◌+◌, ◌*◌, ◌%◌, Bool, true, false, not, ◌||◌, ltb, leb, ◌==◌, if◌then◌else◌, Option, none, some,
  u64_mod,
}
use line6_coreaudio.Float64.{Float64}
use line6_coreaudio.Plugin.{
  Status, no_err, bad_object, object_device, ring_period, Globals, Outcome, returned, ◌>>=◌, lock,
  unlock,
}

-- What goes through outSampleTime, outHostTime and outSeed.
pub record TimeStamp (F : Type 0) : Type 0 where
  pub sample_time : F
  pub host_time : ℕ
  pub seed : ℕ

module _ (f : Float64) where
  open f use {Carrier, of_u64, to_u64, times}

  -- The host ticks of one period.
  unfoldable pub ticks_per_period : Globals Carrier → Carrier
  ticks_per_period g = times g.host_ticks_per_frame (of_u64 ring_period)

  -- The host time of the n-th period boundary: the anchor and n periods.
  unfoldable pub boundary : Globals Carrier → ℕ → ℕ
  boundary g n = (g.anchor_host_time + to_u64 (times (of_u64 n) (ticks_per_period g))) % u64_mod

  -- gNumberTimeStamps after the call: one more if the next boundary has come.
  unfoldable pub next_stamps : ℕ → Globals Carrier → ℕ
  next_stamps now g =
      let next = (g.number_time_stamps + 1) % u64_mod in
      if leb (boundary g next) now then next else g.number_time_stamps

  pub stamp : ℕ → Globals Carrier → TimeStamp Carrier
  stamp n g = record {
    sample_time = of_u64 (n * ring_period % u64_mod);
    host_time = boundary g n;
    seed = 1;
  }

  -- Line6_GetZeroTimeStamp; `now` is mach_absolute_time().
  unfoldable pub get_zero_time_stamp :
      Bool
      → ℕ
      → ℕ
      → Globals Carrier
      → Outcome (Status × Option (TimeStamp Carrier) × Globals Carrier)
  get_zero_time_stamp mine device now g =
      if not mine || not (device == object_device) then returned (bad_object, none, g) else do
        g1 ← lock g
        let n = next_stamps now g1
        returned (no_err, some (stamp n g1), unlock (record g1 { number_time_stamps = n }))
