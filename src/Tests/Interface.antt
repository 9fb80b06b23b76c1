-- ===== src/Tests/Interface.antt =====
-- The theorems on the plugin's interface at concrete inputs.
use line6_coreaudio.Prelude.{ℕ, ◌≡◌, refl, true, false, arith, List, [], ◌∷◌, length}
use line6_coreaudio.Plugin.{returned, deadlock, no_err, object_device}
use line6_coreaudio.Plugin.Lifecycle.{open_failed, mapped, has_good_header}
use line6_coreaudio.Plugin.Io.{read_input}
use line6_coreaudio.Plugin.Property.{Selector, Scope}
use line6_coreaudio.Plugin.Interface.{
  Request, starts, stops, initializes, asks_data, asks_time, does, Response, status, serve, Event,
  request, monitor_round, Driver, loaded, run,
}
use line6_coreaudio.Plugin.Interface.Answers.{waits_forever, Answers}
use line6_coreaudio.Plugin.Interface.Sessions.{requests, serve-Answers, IsUp, session_answers}
use line6_coreaudio.Tests.Frameworks.{whole_float, log_heap, log_heap-IsCounted, core_audio_64}
use line6_coreaudio.Tests.State.{
  shm4000, seen, fresh_globals, empty_names, empty_names-IsOwned, can_create, no_qualifier, at_main,
}

abbrev first_start : Request ℕ
first_start = starts true object_device open_failed 5 shm4000

serve-Answers_example :
    (waits_forever first_start fresh_globals ≡ false
      → Answers core_audio_64 log_heap log_heap-IsCounted whole_float 0 first_start empty_names
          fresh_globals)
    × (waits_forever first_start fresh_globals ≡ true
        → serve core_audio_64 log_heap whole_float 0 first_start empty_names fresh_globals
          ≡ deadlock)
serve-Answers_example =
    serve-Answers core_audio_64 log_heap log_heap-IsCounted whole_float 0 first_start empty_names
      fresh_globals
      (record {
        free = refl;
        refs = omega arith;
        clients = omega arith;
        frame = omega arith;
        stamps = omega arith;
      })
      empty_names-IsOwned (omega arith)

-- A client's session, with a look of the monitor in between.
abbrev session : List (Event ℕ)
session =
    request
      (asks_data object_device (at_main Selector.object_name Scope.global) no_qualifier 8 shm4000)
    ∷ request (starts true object_device mapped 5 shm4000)
    ∷ monitor_round (record { mapping = mapped; shm = shm4000 })
    ∷ request (does read_input true 64 1 shm4000 seen)
    ∷ request (asks_time true object_device 900)
    ∷ request (stops true object_device)
    ∷ []

session_answers_example :
    (xs : List (Response core_audio_64 ℕ ℕ)) × (d' : Driver log_heap ℕ) × (run core_audio_64
        log_heap whole_float 0
        (request (initializes true true 125 3 mapped shm4000 true) ∷ session)
        (loaded log_heap [] whole_float)
      ≡ returned (status no_err ∷ xs, d'))
    × (length xs ≡ requests session)
    × IsUp log_heap log_heap-IsCounted d'
unfolding has_good_header
session_answers_example =
    session_answers core_audio_64 log_heap log_heap-IsCounted whole_float 0 [] true true 125 3
      shm4000 session refl ((can_create _, can_create _), (omega arith, (tt, (tt, (tt, tt)))))
