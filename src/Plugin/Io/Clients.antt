-- ===== src/Plugin/Io/Clients.antt =====
-- Several clients in one IO cycle, and one client over many cycles (plugin/Line6HAL.c,
-- DoIOOperation).
use mathlib.Core.List.{append_assoc}
use native.Mathlib.Nat.{add-zero, zero-add, suc-add, zero-mul}
use line6_coreaudio.Prelude.{
  ℕ, zero, suc, ◌+◌, ◌-◌, ◌*◌, ◌≤◌, ◌<◌, ◌≡◌, ◌≢◌, sym, ◌∙◌, ap, true, false, arith, u64_mod, List,
  [], ◌∷◌, ◌++◌, length,
}
use line6_coreaudio.Shm.{Shm, ring_frames_count, max_channels}
use line6_coreaudio.Stream.{Holds, segment}
use line6_coreaudio.Plugin.{Cursor, Globals, Outcome, returned, ◌>>=◌}
use line6_coreaudio.Plugin.Io.{read_input, advance, do_io}
use line6_coreaudio.Plugin.Io.Window.{IsWindow, IsSized, advance_contiguous}
use line6_coreaudio.Plugin.Io.Delivery.{IsReady, SeesUpTo, next_cursor, position, do_io-eq-segment}

-- A second step in a cycle leaves the cursor, at any later write count.
pub advance_again :
    (cycle w w' n n' l l' : ℕ) (c : Cursor)
    → advance cycle w' n' l' (advance cycle w n l c) ≡ advance cycle w n l c
unfolding advance
advance_again cycle w w' n n' l l' c = ground arith

module _ {F A : Type 0} (silence : A) (shm : Shm A) (g : Globals F) (ready : IsReady shm g) where
  -- With a segment of 1 to 8 channels attached and the mutex free, a client that reads later in
  -- the same IO cycle gets the samples that the first one got and leaves the same globals, also
  -- where the daemon has published more frames in between (fewer than 2^64), if the frames are
  -- published and the daemon does not come round to them during either call.
  pub do_io_same_cycle :
      (h : ℕ → ℕ → A) (old : ℕ → A) (first in_frames cycle w' : ℕ) (ring ring' : ℕ → ℕ → ℕ → A)
      → Holds shm.channels h (first + 1 - ring_frames_count) first old
      → shm.write_frames ≤ w'
      → w' < u64_mod
      → position shm cycle in_frames g + in_frames ≤ shm.write_frames
      → SeesUpTo shm h old first (position shm cycle in_frames g + ring_frames_count) ring
      → SeesUpTo
          (record shm { write_frames = w' })
          h
          old
          first
          (position shm cycle in_frames g + ring_frames_count)
          ring'
      → do_io silence read_input true in_frames cycle
          (record shm { write_frames = w' })
          ring'
          (record g { cursor = next_cursor shm cycle in_frames g })
        ≡ do_io silence read_input true in_frames cycle shm ring g
  do_io_same_cycle h old first in_frames cycle w' ring ring' held more small published sees sees' =
      do_io-eq-segment silence shm' g' ready' h old first in_frames cycle ring' held small
        (rw here (omega arith)) (rw here sees')
      ∙ ap
          (λ (x : Cursor).
            returned (segment shm.channels h x.cycle_read_frame in_frames, record g { cursor = x }))
          again
      ∙ sym (
          do_io-eq-segment silence shm g ready h old first in_frames cycle ring held (omega arith)
            published sees)
    where
      shm' : Shm A
      shm' = record shm { write_frames = w' }

      c : Cursor
      c = next_cursor shm cycle in_frames g

      g' : Globals F
      g' = record g { cursor = c }

      ready' : IsReady shm' g'
      ready' = record {
        free = ready.free;
        attached = ready.attached;
        some_channel = ready.some_channel;
        few_channels = ready.few_channels;
      }

      again : next_cursor shm' cycle in_frames g' ≡ c
      again =
          advance_again cycle shm.write_frames w' in_frames in_frames shm.latency_frames
            shm.latency_frames g.cursor

      here : position shm' cycle in_frames g' ≡ position shm cycle in_frames g
      here = ap (λ (x : Cursor). x.cycle_read_frame) again

-- One IO cycle of a client: its counter, the segment as it is loaded, and the ring during the copy.
pub record IoCycle (A : Type 0) : Type 0 where
  pub counter : ℕ
  pub shm : Shm A
  pub seen : ℕ → ℕ → ℕ → A

module _ {A : Type 0} (silence : A) (in_frames : ℕ) where
  -- The host's loop: what a client hears over its cycles.
  pub play : {F : Type 0} → List (IoCycle A) → Globals F → Outcome (List A × Globals F)
  play [] g = returned ([], g)
  play (y ∷ ys) g = do_io silence read_input true in_frames y.counter y.shm y.seen g >>= λ p.
      play ys p.1 >>= λ q. returned (p.0 ++ q.0, q.1)

segment-append :
    {A : Type 0} (channels : ℕ) (h : ℕ → ℕ → A) (f n m : ℕ)
    → segment channels h f (n + m) ≡ segment channels h f n ++ segment channels h (f + n) m
segment-append channels h f zero m = rw (zero-add, add-zero)
segment-append channels h f (suc n) m =
    let next : f + 1 + n ≡ f + suc n = omega arith in
    rw (suc-add, append_assoc, segment-append channels h (f + 1) n m, next)

-- The globals after a paced cycle.
abbrev pub moved : {F : Type 0} → ℕ → ℕ → Globals F → Globals F
moved in_frames counter g = record g {
  cursor = record {
    read_frame = g.cursor.read_frame + in_frames;
    cycle_read_frame = g.cursor.read_frame;
    last_cycle = counter;
  };
}

suc-mul_flip : (n m : ℕ) → suc n * m ≡ m + n * m
suc-mul_flip n m = omega arith

module _ {A : Type 0} (channels : ℕ) (h : ℕ → ℕ → A) (old : ℕ → A) (first in_frames : ℕ) where
  -- A cycle in which the daemon is far enough ahead of the frame `at` and less than a ring ahead.
  pub record IsPaced (at last : ℕ) (y : IoCycle A) : Type 0 where
    pub few : 0 < channels
    pub few_channels : channels ≤ max_channels
    pub same_device : y.shm.channels ≡ channels
    pub sized : IsSized y.shm.write_frames in_frames y.shm.latency_frames
    pub ahead : IsWindow y.shm.write_frames in_frames at
    pub fresh : y.counter ≢ last
    pub sees : SeesUpTo y.shm h old first (y.shm.write_frames + in_frames) y.seen

  abbrev pub ArePaced : ℕ → ℕ → List (IoCycle A) → Type 0
  ArePaced at last [] = Unit
  ArePaced at last (y ∷ ys) = IsPaced at last y × ArePaced (at + in_frames) y.counter ys

  -- Such a cycle delivers the stream and moves the cursor by a buffer.
  pub paced_step :
      (silence : A)
      → Holds channels h (first + 1 - ring_frames_count) first old
      → {F : Type 0} (y : IoCycle A) (g : Globals F) → g.locked ≡ false
      → g.attached ≡ true
      → IsPaced g.cursor.read_frame g.cursor.last_cycle y
      → do_io silence read_input true in_frames y.counter y.shm y.seen g
        ≡ returned (segment channels h g.cursor.read_frame in_frames, moved in_frames y.counter g)
  paced_step silence held {F} y g free attached p = rw (← p.same_device) (
      do_io-eq-segment silence y.shm g ready h old first in_frames y.counter y.seen
        (rw p.same_device held) (omega (arith, p.sized.clock)) (rw here p.ahead.written)
        (rw here (λ i c.
          let (n, k, q, later, soon) = p.sees i c in (n, k, q, later, omega (arith, p.ahead.kept))))
      ∙ ap
          (λ (x : Cursor).
            returned
              (segment y.shm.channels h x.cycle_read_frame in_frames, record g { cursor = x }))
          step)
    where
      ready : IsReady y.shm g
      ready = record {
        free = free;
        attached = attached;
        some_channel = rw p.same_device p.few;
        few_channels = rw p.same_device p.few_channels;
      }

      step : next_cursor y.shm y.counter in_frames g ≡ (moved in_frames y.counter g).cursor
      step = advance_contiguous p.sized y.counter g.cursor p.fresh p.ahead

      here : position y.shm y.counter in_frames g ≡ g.cursor.read_frame
      here = ap (λ (x : Cursor). x.cycle_read_frame) step

  -- With the segment attached and the mutex free, if in every cycle the frames at the cursor are
  -- written and kept, the cycle is new, and the daemon writes less than a buffer during the call
  -- (IsPaced), then a client hears one unbroken stretch of the daemon's stream over all its
  -- cycles: no frame twice, none left out.
  pub play_gapless :
      (silence : A)
      → Holds channels h (first + 1 - ring_frames_count) first old
      → {F : Type 0} (ys : List (IoCycle A)) (g : Globals F) → g.locked ≡ false
      → g.attached ≡ true
      → ArePaced g.cursor.read_frame g.cursor.last_cycle ys
      → (g' : Globals F) × (play silence in_frames ys g
          ≡ returned (segment channels h g.cursor.read_frame (length ys * in_frames), g'))
  unfolding play
  play_gapless silence held [] g free attached paced = (g, rw zero-mul)
  play_gapless silence held (y ∷ ys) g free attached (now, later) =
      let (g', rest) =
        play_gapless silence held ys (moved in_frames y.counter g) free attached later in
      (
        g',
        rw (
          paced_step silence held y g free attached now,
          rest,
          suc-mul_flip,
          segment-append channels h g.cursor.read_frame in_frames (length ys * in_frames),
        ),
      )
