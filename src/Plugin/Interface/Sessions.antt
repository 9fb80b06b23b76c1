-- ===== src/Plugin/Interface/Sessions.antt =====
-- plugin/Line6HAL.c: a host's requests (gInterface) among the rounds of the presence monitor, from
-- the loading of the bundle on.
use line6_coreaudio.Prelude.{
  ℕ, suc, ◌≡◌, refl, ap, Bool, true, false, ◌||◌, arith, List, [], ◌∷◌, length,
}
use line6_coreaudio.Shm.{Shm}
use line6_coreaudio.Float64.{Float64}
use line6_coreaudio.CoreAudio.{CoreAudio}
use line6_coreaudio.CoreFoundation.{CoreFoundation, IsCounted}
use line6_coreaudio.Plugin.{Globals, returned, deadlock, no_err, object_device}
use line6_coreaudio.Plugin.Lifecycle.{mapped, has_good_header, ticks_per_frame}
use line6_coreaudio.Plugin.Lifecycle.Laws.{finds, initialize_lem}
use line6_coreaudio.Plugin.Presence.{Round}
use line6_coreaudio.Plugin.Presence.Laws.{round_sees, poll_lem}
use line6_coreaudio.Plugin.Names.{Names}
use line6_coreaudio.Plugin.Names.Laws.{IsOwned}
use line6_coreaudio.Plugin.Io.Session.{start_io_deadlock}
use line6_coreaudio.Plugin.Interface.{
  Request, starts, initializes, status, Response, serve, Event, request, monitor_round, Driver,
  loaded, run,
}
use line6_coreaudio.Plugin.Interface.Safety.{IsSound}
use line6_coreaudio.Plugin.Interface.Answers.{waits_forever, IsSane, Answers, fine-Answers}

-- The number of requests among the events.
abbrev pub requests : {A : Type 0} → List (Event A) → ℕ
requests [] = 0
requests (request r ∷ es) = suc (requests es)
requests (monitor_round t ∷ es) = requests es

-- A driver in the middle of a session: a sound state with a segment attached.
pub record IsUp (cf : CoreFoundation) (law : IsCounted cf) {F : Type 0} (d : Driver cf F)
    : Type 0 where
  pub sound : IsSound d.globals
  pub there : d.globals.attached ≡ true
  pub owned : IsOwned cf law d.names

module _ (ca : CoreAudio) (cf : CoreFoundation) (law : IsCounted cf) (f : Float64) {A : Type 0}
    (silence : A) where
  serve_waits :
      (r : Request A) (n : Names cf.Heap) (g : Globals f.Carrier)
      → g.locked ≡ false
      → waits_forever r g ≡ true
      → serve ca cf f silence r n g ≡ deadlock
  unfolding serve
  serve_waits (starts false device m now shm) n g free stuck = cc
  serve_waits (starts true device m now shm) n g free stuck =
      let ours : device ≡ object_device = ground arith in
      let idle : g.io_running ≡ 0 = ground arith in
      let absent : g.attached ≡ false = ground arith in
      rw (ours, start_io_deadlock m now shm g free idle absent) refl
  serve_waits _ n g free stuck = cc

  -- In a sound state with a cache that owns its string, a sane request comes back, keeps the state
  -- sound and an attached segment attached, unless it is a StartIO of a first client with no segment
  -- attached, which never comes back.
  pub serve-Answers :
      (r : Request A) (n : Names cf.Heap) (g : Globals f.Carrier)
      → IsSound g
      → IsOwned cf law n
      → IsSane ca cf law f silence r
      → (waits_forever r g ≡ false → Answers ca cf law f silence r n g)
        × (waits_forever r g ≡ true → serve ca cf f silence r n g ≡ deadlock)
  serve-Answers r n g s o sane =
      (fine-Answers ca cf law f silence n g s o r sane, serve_waits r n g s.free)

  -- Every request among the events is sane.
  abbrev pub AreSane : List (Event A) → Type 0
  AreSane [] = Unit {0}
  AreSane (request r ∷ es) = IsSane ca cf law f silence r × AreSane es
  AreSane (monitor_round t ∷ es) = AreSane es

  -- With a segment attached nothing waits.
  up-waits : (r : Request A) (g : Globals f.Carrier) → g.attached ≡ true → waits_forever r g ≡ false
  up-waits (starts mine device m now shm) g there = ground arith
  up-waits _ g there = refl

  -- The driver after a round of the monitor.
  abbrev looked : Round A → Driver cf f.Carrier → Driver cf f.Carrier
  looked t d = record d {
    watch = (round_sees t.mapping t.shm d.watch d.globals).0;
    globals = record d.globals {
      attached = d.globals.attached || finds t.mapping t.shm;
      device_present = (round_sees t.mapping t.shm d.watch d.globals).1;
    };
  }

  looked-IsUp : (t : Round A) (d : Driver cf f.Carrier) → IsUp cf law d → IsUp cf law (looked t d)
  looked-IsUp t d up = record {
    sound = record {
      free = up.sound.free;
      refs = up.sound.refs;
      clients = up.sound.clients;
      frame = up.sound.frame;
      stamps = up.sound.stamps;
    };
    there = rw up.there refl;
    owned = up.owned;
  }

  -- In a sound state with a segment attached, any sequence of sane requests and monitor rounds is
  -- answered, request by request, and ends in such a state.
  pub run_answers :
      (es : List (Event A)) (d : Driver cf f.Carrier)
      → IsUp cf law d
      → AreSane es
      → (xs : List (Response ca f.Carrier A)) × (d' : Driver cf f.Carrier) × (run ca cf f silence es
            d
          ≡ returned (xs, d'))
        × (length xs ≡ requests es)
        × IsUp cf law d'
  unfolding run
  run_answers [] d up sane = ([], d, refl, refl, up)
  run_answers (request r ∷ es) d up (sane, rest) =
      let a : Answers ca cf law f silence r d.names d.globals =
        fine-Answers ca cf law f silence d.names d.globals up.sound up.owned r sane
          (up-waits r d.globals up.there) in
      let d1 : Driver cf f.Carrier = record d { names = a.names; globals = a.after } in
      let up1 : IsUp cf law d1 = record {
        sound = a.kept.sound;
        there = a.kept.still up.there;
        owned = a.owned;
      } in
      let (xs, d', ran, counted, up') = run_answers es d1 up1 rest in
      (a.response ∷ xs, d', rw (a.back, ran) refl, ap suc counted, up')
  run_answers (monitor_round t ∷ es) d up sane =
      let (xs, d', ran, counted, up') = run_answers es (looked t d) (looked-IsUp t d up) sane in
      (
        xs,
        d',
        rw (poll_lem t.mapping t.shm d.watch d.globals up.sound.free, ran) refl,
        counted,
        up',
      )

  initialized-IsUp :
      (heap : cf.Heap) (g : Globals f.Carrier)
      → g.locked ≡ false
      → g.ref_count ≡ 0
      → g.io_running ≡ 0
      → g.cursor.read_frame ≡ 0
      → g.number_time_stamps ≡ 0
      → g.attached ≡ true
      → IsUp cf law (record (loaded cf heap f) { globals = g })
  unfolding IsOwned
  initialized-IsUp heap g free refs clients frame stamps there = record {
    sound = record {
      free = free;
      refs = omega arith;
      clients = omega arith;
      frame = omega arith;
      stamps = omega arith;
    };
    there = there;
    owned = λ r e. cc;
  }

  -- A host that loads the bundle and initialises it while a segment with a good header is there gets
  -- an answer to every sane request that it makes afterwards, in any order and between any rounds
  -- of the presence monitor.
  pub session_answers :
      (heap : cf.Heap) (host thread : Bool) (numer denom : ℕ) (shm : Shm A) (es : List (Event A))
      → has_good_header shm ≡ true
      → AreSane es
      → (xs : List (Response ca f.Carrier A)) × (d' : Driver cf f.Carrier) × (run ca cf f silence
            (request (initializes true host numer denom mapped shm thread) ∷ es)
            (loaded cf heap f)
          ≡ returned (status no_err ∷ xs, d'))
        × (length xs ≡ requests es)
        × IsUp cf law d'
  unfolding run serve
  session_answers heap host thread numer denom shm es good sane =
      let g : Globals f.Carrier = record (loaded cf heap f).globals {
        has_host = host;
        host_ticks_per_frame = ticks_per_frame f numer denom;
        attached = false || finds mapped shm;
      } in
      let d : Driver cf f.Carrier = record (loaded cf heap f) { globals = g } in
      let (xs, d', ran, counted, up') =
        run_answers es d (initialized-IsUp heap g refl refl refl refl refl good) sane in
      (
        xs,
        d',
        rw
            (
              initialize_lem f mapped shm (loaded cf heap f).globals host thread numer denom refl,
              ran,
            )
            refl,
        counted,
        up',
      )
