-- ===== src/Plugin/Io/Session.antt =====
-- StartIO and StopIO of plugin/Line6HAL.c: who gets through the mutex, and how many clients run.
use line6_coreaudio.Prelude.{
  ℕ, ◌+◌, ◌-◌, ◌≤◌, ◌<◌, ◌≡◌, dec_lt, ◌≢◌, ◌⊎◌, refl, ◌∙◌, ap, Bool, true, false, List, [], ◌∷◌,
  arith, u64_mod, length,
}
use line6_coreaudio.Shm.{Shm}
use line6_coreaudio.Plugin.{
  Status, no_err, bad_object, object_device, Globals, Outcome, returned, deadlock, ◌>>=◌,
}
use line6_coreaudio.Plugin.Lifecycle.{Mapping}
use line6_coreaudio.Plugin.Lifecycle.Laws.{attach_shm_stuck, attach_shm_again}
use line6_coreaudio.Plugin.Io.{anchor, no_cycle, start_io, stop_io}

module _ {F A : Type 0} (now : ℕ) (shm : Shm A) (g : Globals F) where
  -- The globals after the StartIO of a first client.
  abbrev pub first_client : Globals F
  first_client = record g {
    io_running = 1;
    anchor_host_time = now;
    number_time_stamps = 0;
    cursor = record {
      read_frame = shm.write_frames;
      cycle_read_frame = shm.write_frames;
      last_cycle = no_cycle;
    };
  }

module _ {F A : Type 0} (m : Mapping) (now : ℕ) (shm : Shm A) (g : Globals F) where
  -- The first client's StartIO on the plugin's device, called with the mutex free, never returns
  -- if no segment is attached yet, whatever shm_open would give: AttachShm locks the mutex that
  -- StartIO holds.
  pub start_io_deadlock :
      g.locked ≡ false
      → g.io_running ≡ 0
      → g.attached ≡ false
      → start_io true object_device m now shm g ≡ deadlock
  unfolding start_io
  start_io_deadlock free idle absent =
      ground (arith, attach_shm_stuck m shm (record g { locked = true }) refl absent)

  -- With a segment attached and the mutex free the first client's StartIO anchors the timeline at
  -- the present time, puts the cursor at the write head, and counts one client; nothing else
  -- changes.
  pub start_io_first :
      g.locked ≡ false
      → g.io_running ≡ 0
      → g.attached ≡ true
      → start_io true object_device m now shm g ≡ returned (no_err, first_client now shm g)
  unfolding start_io anchor
  start_io_first free idle there =
      ground (arith, attach_shm_again m shm (record g { locked = true }) there)

  -- With the mutex free, a later client's StartIO only counts the client, below 2^64: the timeline
  -- and the cursor stay.
  pub start_io_later :
      g.locked ≡ false
      → 0 < g.io_running
      → g.io_running + 1 < u64_mod
      → start_io true object_device m now shm g
        ≡ returned (no_err, record g { io_running = g.io_running + 1 })
  unfolding start_io
  start_io_later free busy small = ground arith

  -- A wrong driver or object is refused before the mutex is touched, by both calls.
  pub io_bad_object :
      (mine : Bool) (device : ℕ)
      → (mine ≡ false) ⊎ (device ≢ object_device)
      → (start_io mine device m now shm g ≡ returned (bad_object, g))
        × (stop_io mine device g ≡ returned (bad_object, g))
  unfolding start_io stop_io
  io_bad_object mine device wrong = ground arith

-- What clients call: a StartIO with what shm_open would give, the host time and the segment of
-- that moment, or a StopIO.
pub data Call (A : Type 0) : Type 0 where
  start : Mapping → ℕ → Shm A → Call A
  stop : Call A

-- The number of clients after some calls; a StopIO without a client is ignored.
abbrev counted : {A : Type 0} → Call A → ℕ → ℕ
counted (start m now shm) n = n + 1
counted stop n = n - 1

counted-le : {A : Type 0} (x : Call A) (n : ℕ) → counted x n ≤ n + 1
counted-le (start m now shm) n = omega arith
counted-le stop n = omega arith

pub clients : {A : Type 0} → List (Call A) → ℕ → ℕ
clients [] n = n
clients (x ∷ xs) n = clients xs (counted x n)

module _ {F A : Type 0} where
  call_of : Call A → Globals F → Outcome (Status × Globals F)
  call_of (start m now shm) g = start_io true object_device m now shm g
  call_of stop g = stop_io true object_device g

  pub run_calls : List (Call A) → Globals F → Outcome (Globals F)
  run_calls [] g = returned g
  run_calls (x ∷ xs) g = call_of x g >>= λ p. run_calls xs p.1

  -- One call that comes back, and what it leaves.
  record Called (x : Call A) (g : Globals F) : Type 0 where
    after : Globals F
    back : call_of x g ≡ returned (no_err, after)
    free : after.locked ≡ false
    there : after.attached ≡ true
    count : after.io_running ≡ counted x g.io_running

  called :
      (x : Call A) (g : Globals F)
      → g.locked ≡ false
      → g.attached ≡ true
      → g.io_running + 1 < u64_mod
      → Called x g
  unfolding call_of stop_io
  called (start m now shm) g free there small = elim (dec_lt 0 g.io_running) [
    | yes busy ↦ record {
      after = record g { io_running = g.io_running + 1 };
      back = start_io_later m now shm g free busy small;
      free = free;
      there = there;
      count = refl;
    }
    | no idle ↦ record {
      after = first_client now shm g;
      back = start_io_first m now shm g free (omega arith) there;
      free = free;
      there = there;
      count = omega arith;
    }
  ]
  called stop g free there small = record {
    after = record g { io_running = g.io_running - 1 };
    back = ground arith;
    free = free;
    there = there;
    count = refl;
  }

  -- With a segment attached, the mutex free and fewer than 2^64 clients, no sequence of StartIO
  -- and StopIO calls gets stuck, the mutex is free after it, and gIO_Running is the number of
  -- clients.
  pub run_calls_lem :
      (xs : List (Call A)) (g : Globals F)
      → g.locked ≡ false
      → g.attached ≡ true
      → g.io_running + length xs < u64_mod
      → (g' : Globals F) × (run_calls xs g ≡ returned g')
        × (g'.locked ≡ false)
        × (g'.attached ≡ true)
        × (g'.io_running ≡ clients xs g.io_running)
  unfolding run_calls clients
  run_calls_lem [] g free there small = (g, refl, free, there, refl)
  run_calls_lem (x ∷ xs) g free there small =
      let c : Called x g = called x g free there (omega arith) in
      let (g', ran, free', there', count) =
        run_calls_lem xs c.after c.free c.there
          (omega (arith, counted-le x g.io_running, c.count)) in
      (g', rw (c.back) ran, free', there', count ∙ ap (clients xs) c.count)
