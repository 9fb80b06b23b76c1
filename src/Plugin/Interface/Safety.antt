-- ===== src/Plugin/Interface/Safety.antt =====
-- plugin/Line6HAL.c, gInterface: what every handler keeps of the plugin's variables.
use line6_coreaudio.Prelude.{
  ℕ, ◌+◌, ◌-◌, ◌%◌, ◌<◌, ◌≡◌, inl, inr, refl, Bool, true, false, not, ◌&&◌, ◌||◌, arith, dec_lt,
  ℕ_discrete, u32_mod, u64_mod, ◌==◌, Option, some, none, Bool-cases,
}
use line6_coreaudio.Shm.{Shm}
use line6_coreaudio.Float64.{Float64}
use line6_coreaudio.Plugin.{
  dev_channels, Status, Globals, Outcome, returned, object_device, bad_object, no_err,
}
use line6_coreaudio.Plugin.Lifecycle.{
  Mapping, HResult, s_ok, InterfaceId, query_interface, add_ref, release, initialize,
  ticks_per_frame,
}
use line6_coreaudio.Plugin.Lifecycle.Laws.{finds, initialize_lem}
use line6_coreaudio.Plugin.Io.{
  copy_frames, silent_frames, Operation, read_input, other_operation, start_io, stop_io, do_io,
  advance,
}
use line6_coreaudio.Plugin.Io.Session.{start_io_first, first_client, io_bad_object}
use line6_coreaudio.Plugin.Timeline.{TimeStamp, next_stamps, stamp, get_zero_time_stamp}

-- Between two requests: the mutex is free, and the counters are in the range of their types.
pub record IsSound {F : Type 0} (g : Globals F) : Type 0 where
  pub free : g.locked ≡ false
  pub refs : g.ref_count < u32_mod
  pub clients : g.io_running < u64_mod
  pub frame : g.cursor.read_frame < u64_mod
  pub stamps : g.number_time_stamps < u64_mod

-- What a handler keeps: soundness, and a segment once it is attached.
pub record Kept {F : Type 0} (g g' : Globals F) : Type 0 where
  pub sound : IsSound g'
  pub still : g.attached ≡ true → g'.attached ≡ true

-- A call that comes back with the globals kept.
abbrev pub Comes : {R F : Type 0} → Outcome (R × Globals F) → Globals F → Type 0
Comes {R} {F} call g = (r : R) × (g' : Globals F) × (call ≡ returned (r, g')) × Kept g g'

module _ {F : Type 0} (g : Globals F) (s : IsSound g) where
  pub same-Kept : Kept g g
  same-Kept = record { sound = s; still = λ h. h }

  -- The reference count may be set to any number below 2^32.
  refs-Kept : (n : ℕ) → n < u32_mod → Kept g (record g { ref_count = n })
  refs-Kept n low = record {
    sound = record {
      free = s.free;
      refs = low;
      clients = s.clients;
      frame = s.frame;
      stamps = s.stamps;
    };
    still = λ h. h;
  }

  pub add_ref-Comes : (mine : Bool) → Comes (add_ref mine g) g
  unfolding add_ref
  add_ref-Comes false = (_, g, refl, same-Kept)
  add_ref-Comes true = (
    (g.ref_count + 1) % u32_mod,
    record g { ref_count = (g.ref_count + 1) % u32_mod },
    ground arith,
    refs-Kept _ (omega arith),
  )

  pub release-Comes : (mine : Bool) → Comes (release mine g) g
  unfolding release
  release-Comes false = (_, g, refl, same-Kept)
  release-Comes true = (
    g.ref_count - 1,
    record g { ref_count = g.ref_count - 1 },
    ground arith,
    refs-Kept _ (omega (arith, s.refs)),
  )

  pub query_interface-Comes :
      (mine : Bool) (iid : InterfaceId) (out_null : Bool)
      → (r : HResult) × (out : Bool) × (g' : Globals F) × (query_interface mine iid out_null g
          ≡ returned (r, out, g'))
        × Kept g g'
  unfolding query_interface
  query_interface-Comes false iid out_null = (_, _, g, refl, same-Kept)
  query_interface-Comes true iid true = (_, _, g, refl, same-Kept)
  query_interface-Comes true InterfaceId.other_interface false = (_, _, g, refl, same-Kept)
  query_interface-Comes true _ false = (
    s_ok,
    true,
    record g { ref_count = (g.ref_count + 1) % u32_mod },
    ground arith,
    refs-Kept _ (omega arith),
  )

  pub stop_io-Comes : (mine : Bool) (device : ℕ) → Comes (stop_io mine device g) g
  unfolding stop_io
  stop_io-Comes false device = (_, g, refl, same-Kept)
  stop_io-Comes true device = elim (ℕ_discrete device object_device) [
    | yes ours ↦ (
      no_err,
      record g { io_running = g.io_running - 1 },
      ground arith,
      record { sound = ground arith; still = λ h. h },
    )
    | no other ↦ (bad_object, g, ground arith, same-Kept)
  ]

  advance_bound :
      (cycle w in_frames latency_frames : ℕ)
      → (advance cycle w in_frames latency_frames g.cursor).read_frame < u64_mod
  unfolding advance
  advance_bound cycle w in_frames latency_frames = ground (arith, s.frame)

  pub do_io-Comes :
      {A : Type 0} (silence : A) (op : Operation) (buffer : Bool) (in_frames cycle : ℕ)
      (shm : Shm A) (ring : ℕ → ℕ → ℕ → A)
      → Comes (do_io silence op buffer in_frames cycle shm ring g) g
  unfolding do_io
  do_io-Comes silence other_operation buffer in_frames cycle shm ring = (_, g, refl, same-Kept)
  do_io-Comes silence read_input false in_frames cycle shm ring = (_, g, refl, same-Kept)
  do_io-Comes silence read_input true in_frames cycle shm ring = elim (Bool-cases g.attached) [
    | inl there ↦ (
      copy_frames silence ring (dev_channels g shm) shm.write_frames
          (advance cycle shm.write_frames in_frames shm.latency_frames g.cursor).cycle_read_frame 0
          in_frames,
      record g { cursor = advance cycle shm.write_frames in_frames shm.latency_frames g.cursor },
      rw (there, s.free) refl,
      record {
        sound = record {
          free = s.free;
          refs = s.refs;
          clients = s.clients;
          frame = advance_bound cycle shm.write_frames in_frames shm.latency_frames;
          stamps = s.stamps;
        };
        still = λ h. h;
      },
    )
    | inr absent ↦
        (silent_frames silence (dev_channels g shm) in_frames, g, rw absent refl, same-Kept)
  ]

  -- StartIO comes back unless it would attach the segment with the mutex held.
  pub start_io-Comes :
      {A : Type 0} (mine : Bool) (device : ℕ) (m : Mapping) (now : ℕ) (shm : Shm A)
      → shm.write_frames < u64_mod
      → mine && device == object_device && g.io_running == 0 && not g.attached ≡ false
      → Comes (start_io mine device m now shm g) g
  unfolding start_io
  start_io-Comes false device m now shm small fine = (_, g, refl, same-Kept)
  start_io-Comes true device m now shm small fine = elim (ℕ_discrete device object_device) [
    | yes ours ↦ rw ours (elim (dec_lt 0 g.io_running) [
      | yes busy ↦ (
        no_err,
        record g { io_running = (g.io_running + 1) % u64_mod },
        ground arith,
        record { sound = ground arith; still = λ h. h },
      )
      | no idle ↦
          let there : g.attached ≡ true = ground arith in
          (
            no_err,
            first_client now shm g,
            start_io_first m now shm g s.free (omega arith) there,
            record { sound = ground arith; still = λ h. h },
          )
    ])
    | no other ↦ (bad_object, g, (io_bad_object m now shm g true device (inr other)).0, same-Kept)
  ]

next_stamps_bound :
    (f : Float64) (g : Globals f.Carrier)
    → g.number_time_stamps < u64_mod
    → (now : ℕ) → next_stamps f now g < u64_mod
unfolding next_stamps
next_stamps_bound f g low now = ground arith

module _ (f : Float64) (g : Globals f.Carrier) (s : IsSound g) where
  pub initialize-Comes :
      {A : Type 0} (mine host : Bool) (numer denom : ℕ) (m : Mapping) (shm : Shm A) (thread : Bool)
      → (r : Status) × (runs : Bool) × (g' : Globals f.Carrier) × (initialize f mine host numer
            denom m shm thread g
          ≡ returned (r, runs, g'))
        × Kept g g'
  unfolding initialize
  initialize-Comes false host numer denom m shm thread = (_, _, g, refl, same-Kept g s)
  initialize-Comes true host numer denom m shm thread = (
    no_err,
    thread,
    record g {
      has_host = host;
      host_ticks_per_frame = ticks_per_frame f numer denom;
      attached = g.attached || finds m shm;
      monitor_run = true;
    },
    initialize_lem f m shm g host thread numer denom s.free,
    record { sound = ground arith; still = λ h. rw h refl },
  )

  pub get_zero_time_stamp-Comes :
      (mine : Bool) (device now : ℕ)
      → (r : Status) × (t : Option (TimeStamp f.Carrier)) × (g' : Globals f.Carrier)
        × (get_zero_time_stamp f mine device now g ≡ returned (r, t, g'))
        × Kept g g'
  unfolding get_zero_time_stamp
  get_zero_time_stamp-Comes false device now = (_, _, g, refl, same-Kept g s)
  get_zero_time_stamp-Comes true device now = elim (ℕ_discrete device object_device) [
    | yes ours ↦
        let held : Globals f.Carrier = record g { locked = true } in
        let n : ℕ = next_stamps f now held in
        (
          no_err,
          some (stamp f n held),
          record g { locked = false; number_time_stamps = n },
          ground (arith, s.free),
          record {
            sound = record {
              free = refl;
              refs = s.refs;
              clients = s.clients;
              frame = s.frame;
              stamps = next_stamps_bound f held s.stamps now;
            };
            still = λ h. h;
          },
        )
    | no other ↦ (bad_object, none, g, ground arith, same-Kept g s)
  ]
