-- ===== src/Plugin/Timeline/Laws.antt =====
-- The timeline of GetZeroTimeStamp (plugin/Line6HAL.c) against the host clock: the order of its
-- boundaries, one call, and many.
use Prim.Native.Nat.{min}
use line6_coreaudio.Prelude.{
  ℕ, zero, suc, ◌+◌, ◌≤◌, ◌<◌, ◌≡◌, ◌⊎◌, sym, ap, true, arith, u64_mod, some, dec_lt, false,
}
use line6_coreaudio.Float64.{Float64, IsOrdered}
use line6_coreaudio.Plugin.{Globals, Outcome, returned, ◌>>=◌, no_err, object_device}
use line6_coreaudio.Plugin.Timeline.{
  ticks_per_period, boundary, next_stamps, stamp, get_zero_time_stamp,
}

module _ (f : Float64) where
  open f use {Carrier}

  -- A time stamp has the one seed.
  pub seed-stamp : (n : ℕ) (g : Globals Carrier) → (stamp f n g).seed ≡ 1
  unfolding stamp
  seed-stamp n g = omega arith

  -- The call, with the mutex free.
  pub get_zero_time_stamp-eq :
      (now : ℕ) (g : Globals Carrier)
      → g.locked ≡ false
      → get_zero_time_stamp f true object_device now g
        ≡ returned (
          no_err,
          some (stamp f (next_stamps f now g) g),
          record g { number_time_stamps = next_stamps f now g },
        )
  unfolding get_zero_time_stamp next_stamps boundary stamp ticks_per_period
  get_zero_time_stamp-eq now g free = ground arith

module _ (f : Float64) (o : IsOrdered f) where
  open f use {Carrier, of_u64, to_u64, times}

  abbrev offset : Globals Carrier → ℕ → ℕ
  offset g n = to_u64 (times (of_u64 n) (ticks_per_period f g))

  -- The rate is no negative number, and the clock does not reach 2^64 ticks up to boundary `m`.
  pub record IsClocked (g : Globals Carrier) (m : ℕ) : Type 0 where
    pub rate : o.IsNonneg (ticks_per_period f g)
    pub far : g.anchor_host_time + to_u64 (times (of_u64 m) (ticks_per_period f g)) < u64_mod
    pub count : m < u64_mod

  offset_mono :
      (g : Globals Carrier) (m : ℕ) → IsClocked g m → (a b : ℕ) → a ≤ b → offset g a ≤ offset g b
  offset_mono g m k a b le =
      o.to_u64_mono _ _ (o.times_mono _ _ (ticks_per_period f g) k.rate (o.of_u64_mono a b le))

  boundary-eq :
      (g : Globals Carrier) (m n : ℕ)
      → IsClocked g m
      → n ≤ m
      → boundary f g n ≡ g.anchor_host_time + offset g n
  unfolding boundary
  boundary-eq g m n k le = omega (arith, offset_mono g m k n m le, k.far)

  -- With a rate that is not negative and a clock below 2^64 ticks up to boundary `m`, the host
  -- times of the boundaries up to `m` come in order.
  boundary_mono :
      (g : Globals Carrier) (m a b : ℕ)
      → IsClocked g m
      → a ≤ b
      → b ≤ m
      → boundary f g a ≤ boundary f g b
  boundary_mono g m a b k le in_reach = omega (
    arith,
    boundary-eq g m a k (omega arith),
    boundary-eq g m b k in_reach,
    offset_mono g m k a b le,
  )

  -- The first boundary is the anchor itself.
  pub boundary-zero :
      (g : Globals Carrier) (m : ℕ) → IsClocked g m → boundary f g 0 ≡ g.anchor_host_time
  boundary-zero g m k =
      omega (arith, boundary-eq g m 0 k (omega arith), o.zero_times (ticks_per_period f g) k.rate)

  -- With the mutex free, if the last reported boundary has come, a call reports a boundary that
  -- has come, and moves on by none or one period.
  pub get_zero_time_stamp_lem :
      (now : ℕ) (g : Globals Carrier)
      → g.locked ≡ false
      → g.number_time_stamps + 1 < u64_mod
      → boundary f g g.number_time_stamps ≤ now
      → (n : ℕ) × (get_zero_time_stamp f true object_device now g
          ≡ returned (no_err, some (stamp f n g), record g { number_time_stamps = n }))
        × (boundary f g n ≤ now)
        × ((n ≡ g.number_time_stamps) ⊎ (n ≡ g.number_time_stamps + 1))
  unfolding get_zero_time_stamp next_stamps boundary stamp ticks_per_period
  get_zero_time_stamp_lem now g free small past =
      (next_stamps f now g, ground arith, ground arith, ground arith)

  -- Of two boundaries around the present time the call moves towards the earlier one.
  next_stamps-eq-min :
      (now m : ℕ) (g : Globals Carrier)
      → IsClocked g (m + 1)
      → g.number_time_stamps ≤ m
      → boundary f g m ≤ now
      → now < boundary f g (m + 1)
      → next_stamps f now g ≡ min (g.number_time_stamps + 1) m
  unfolding next_stamps
  next_stamps-eq-min now m g k le past ahead = elim (dec_lt g.number_time_stamps m) [
    | yes behind ↦ ground (arith, k.count, boundary_mono g (m + 1) (g.number_time_stamps + 1) m k)
    | no level ↦ let e : g.number_time_stamps ≡ m = omega arith in rw e (ground (arith, k.count))
  ]

  -- Some calls in a row at one time.
  pub call_times : ℕ → ℕ → Globals Carrier → Outcome (Globals Carrier)
  call_times zero now g = returned g
  call_times (suc k) now g =
      get_zero_time_stamp f true object_device now g >>= λ p. call_times k now p.2

  -- With the mutex free and the clock below 2^64 ticks: `k` calls at one time, between the
  -- boundaries `m` and `m + 1`, move the timeline from an earlier boundary on by one period a call
  -- up to boundary `m`, and no further.
  pub call_times_catch_up :
      (k now m : ℕ) (g : Globals Carrier)
      → g.locked ≡ false
      → IsClocked g (m + 1)
      → g.number_time_stamps ≤ m
      → boundary f g m ≤ now
      → now < boundary f g (m + 1)
      → call_times k now g
        ≡ returned (record g { number_time_stamps = min (g.number_time_stamps + k) m })
  unfolding call_times boundary ticks_per_period
  call_times_catch_up zero now m g free c le past ahead =
      let e : min (g.number_time_stamps + 0) m ≡ g.number_time_stamps = omega arith in
      ap (λ n. returned (record g { number_time_stamps = n })) (sym e)
  call_times_catch_up (suc k) now m g free c le past ahead =
      let n : ℕ = min (g.number_time_stamps + 1) m in
      let e : min (n + k) m ≡ min (g.number_time_stamps + suc k) m = omega arith in
      rw (get_zero_time_stamp-eq f now g free, next_stamps-eq-min now m g c le past ahead, ← e)
        (call_times_catch_up k now m (record g { number_time_stamps = n }) free
          (record { rate = c.rate; far = c.far; count = c.count }) (omega arith) past ahead)
