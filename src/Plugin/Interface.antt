-- ===== src/Plugin/Interface.antt =====
-- plugin/Line6HAL.c, gInterface: the table of handlers through which the host calls the plugin.
-- A request names a handler and carries its arguments, with what the handler reads of the outside:
-- the outcome of shm_open, the segment, the clock. Arguments that no handler reads are left out.
pub mod Safety
pub mod Answers
pub mod Sessions
use line6_coreaudio.Prelude.{ℕ, Bool, List, [], ◌∷◌, Option, none, true, false}
use line6_coreaudio.Shm.{Shm}
use line6_coreaudio.Float64.{Float64}
use line6_coreaudio.CoreAudio.{CoreAudio}
use line6_coreaudio.CoreFoundation.{CoreFoundation}
use line6_coreaudio.Plugin.{Status, Globals, Outcome, returned, ◌>>=◌}
use line6_coreaudio.Plugin.Lifecycle.{
  Mapping, HResult, InterfaceId, query_interface, add_ref, release, initialize, create_device,
  destroy_device, add_device_client, remove_device_client, perform_configuration_change,
  abort_configuration_change,
}
use line6_coreaudio.Plugin.Io.{
  Operation, start_io, stop_io, will_do_io, begin_io, do_io, end_io, no_cycle,
}
use line6_coreaudio.Plugin.Timeline.{TimeStamp, get_zero_time_stamp}
use line6_coreaudio.Plugin.Names.{Names}
use line6_coreaudio.Plugin.Presence.{Monitor, new_monitor, Round, poll}
use line6_coreaudio.Plugin.Property.{Address, Reply}
use line6_coreaudio.Plugin.Property.Size.{
  has_property, is_property_settable, get_property_data_size, set_property_data,
}
use line6_coreaudio.Plugin.Property.Query.{Qualifier, Answer, get_property_data}

-- The requests, in the order of the table; the first Boolean of a request is
-- `inDriver == gDriverRef`.
pub data Request (A : Type 0) : Type 0 where
  queries_interface : Bool → InterfaceId → Bool → Request A
  adds_ref : Bool → Request A
  releases : Bool → Request A
  initializes : Bool → Bool → ℕ → ℕ → Mapping → Shm A → Bool → Request A
  creates_device : Request A
  destroys_device : Request A
  adds_client : Request A
  removes_client : Request A
  performs_change : Request A
  aborts_change : Request A
  has : ℕ → Address → Request A
  asks_settable : ℕ → Address → Request A
  asks_size : ℕ → Address → Request A
  asks_data : ℕ → Address → Qualifier → ℕ → Shm A → Request A
  sets_data : Request A
  starts : Bool → ℕ → Mapping → ℕ → Shm A → Request A
  stops : Bool → ℕ → Request A
  asks_time : Bool → ℕ → ℕ → Request A
  asks_will_do : Operation → Request A
  begins : Request A
  does : Operation → Bool → ℕ → ℕ → Shm A → (ℕ → ℕ → ℕ → A) → Request A
  ends : Request A

-- What a handler gives back: its result and what it writes through its pointers.
pub data Response (ca : CoreAudio) (F A : Type 0) : Type 0 where
  result : HResult → Bool → Response ca F A
  count : ℕ → Response ca F A
  status : Status → Response ca F A
  answer_bool : Bool → Response ca F A
  answer_settable : Reply Bool → Response ca F A
  answer_size : Reply ℕ → Response ca F A
  answer_data : Reply (Answer ca) → Response ca F A
  answer_time : Status → Option (TimeStamp F) → Response ca F A
  answer_will_do : Bool → Bool → Response ca F A
  answer_samples : List A → Response ca F A

module _ (ca : CoreAudio) (cf : CoreFoundation) (f : Float64) {A : Type 0} (silence : A) where
  -- The response, the name cache and the globals after a request.
  abbrev pub Served : Type 0
  Served = Response ca f.Carrier A × Names cf.Heap × Globals f.Carrier

  -- The handlers of gInterface.
  unfoldable pub serve : Request A → Names cf.Heap → Globals f.Carrier → Outcome Served
  serve (queries_interface mine iid out_null) n g =
      query_interface mine iid out_null g >>= λ p. returned (result p.0 p.1, n, p.2)
  serve (adds_ref mine) n g = add_ref mine g >>= λ p. returned (count p.0, n, p.1)
  serve (releases mine) n g = release mine g >>= λ p. returned (count p.0, n, p.1)
  serve (initializes mine host numer denom m shm thread) n g =
      initialize f mine host numer denom m shm thread g >>= λ p. returned (status p.0, n, p.2)
  serve creates_device n g = returned (status create_device, n, g)
  serve destroys_device n g = returned (status destroy_device, n, g)
  serve adds_client n g = returned (status add_device_client, n, g)
  serve removes_client n g = returned (status remove_device_client, n, g)
  serve performs_change n g = returned (status perform_configuration_change, n, g)
  serve aborts_change n g = returned (status abort_configuration_change, n, g)
  serve (has obj a) n g = returned (answer_bool (has_property ca g obj a), n, g)
  serve (asks_settable obj a) n g =
      returned (answer_settable (is_property_settable ca g obj a), n, g)
  serve (asks_size obj a) n g = returned (answer_size (get_property_data_size ca g obj a), n, g)
  serve (asks_data obj a q in_size shm) n g =
      get_property_data ca cf shm obj a q in_size n g >>= λ p. returned (answer_data p.0, p.1, p.2)
  serve sets_data n g = returned (status set_property_data, n, g)
  serve (starts mine device m now shm) n g =
      start_io mine device m now shm g >>= λ p. returned (status p.0, n, p.1)
  serve (stops mine device) n g = stop_io mine device g >>= λ p. returned (status p.0, n, p.1)
  serve (asks_time mine device now) n g =
      get_zero_time_stamp f mine device now g >>= λ p. returned (answer_time p.0 p.1, n, p.2)
  serve (asks_will_do op) n g = let w = will_do_io op in returned (answer_will_do w.0 w.1, n, g)
  serve begins n g = returned (status begin_io, n, g)
  serve (does op buffer in_frames cycle shm ring) n g =
      do_io silence op buffer in_frames cycle shm ring g >>= λ p.
      returned (answer_samples p.0, n, p.1)
  serve ends n g = returned (status end_io, n, g)

-- What happens to the plugin: a request of the host, or a round of the presence monitor's thread.
pub data Event (A : Type 0) : Type 0 where
  request : Request A → Event A
  monitor_round : Round A → Event A

-- All the plugin's variables: the name cache, the globals, and the locals of the monitor.
pub record Driver (cf : CoreFoundation) (F : Type 0) : Type 0 where
  pub names : Names cf.Heap
  pub globals : Globals F
  pub watch : Monitor

-- The variables when the bundle is loaded.
abbrev pub loaded : (cf : CoreFoundation) → cf.Heap → (f : Float64) → Driver cf f.Carrier
loaded cf heap f = record {
  names = record { cached = none; cached_str = []; heap = heap };
  globals = record {
    locked = false;
    ref_count = 0;
    has_host = false;
    io_running = 0;
    host_ticks_per_frame = f.of_u64 0;
    anchor_host_time = 0;
    number_time_stamps = 0;
    attached = false;
    cursor = record { read_frame = 0; cycle_read_frame = 0; last_cycle = no_cycle };
    device_present = true;
    monitor_run = true;
  };
  watch = new_monitor;
}

module _ (ca : CoreAudio) (cf : CoreFoundation) (f : Float64) {A : Type 0} (silence : A) where
  -- Events one after the other, and the responses to the requests among them.
  unfoldable pub run :
      List (Event A)
      → Driver cf f.Carrier
      → Outcome (List (Response ca f.Carrier A) × Driver cf f.Carrier)
  run [] d = returned ([], d)
  run (request r ∷ es) d = serve ca cf f silence r d.names d.globals >>= λ p.
      run es (record d { names = p.1; globals = p.2 }) >>= λ q. returned (p.0 ∷ q.0, q.1)
  run (monitor_round t ∷ es) d = poll t.mapping t.shm d.watch d.globals >>= λ p.
      run es (record d { watch = p.0; globals = p.1 })
