-- ===== src/Harness.antt =====
-- plugin/haltest.c: the property sweep. It calls the plugin's handlers as the host does and counts
-- what it finds wrong. Its children Simulation, Analysis and Main are about the rest
-- of the file.
pub mod Repeat
pub mod Sizes
pub mod Laws
pub mod Main
pub mod Analysis
pub mod Simulation
use line6_coreaudio.Prelude.{
  ℕ, ◌+◌, Bool, true, false, not, ◌||◌, List, [], ◌∷◌, ◌++◌, Option, none, some, ltb, ◌==◌,
  if◌then◌else◌, take, replicate,
}
use line6_coreaudio.Shm.{Shm}
use line6_coreaudio.CoreAudio.{CoreAudio}
use line6_coreaudio.CoreFoundation.{CoreFoundation}
use line6_coreaudio.Plugin.{
  Globals, Outcome, returned, ◌>>=◌, object_plug_in, object_device, object_stream_input,
}
use line6_coreaudio.Plugin.Names.{Names, same_text}
use line6_coreaudio.Plugin.Property.{
  Selector, base_class, own_class, owner, object_name, manufacturer, owned_objects, control_list,
  device_list, box_list, clock_device_list, translate_uid, resource_bundle, device_uid, model_uid,
  transport_type, clock_domain, device_is_alive, device_is_running, can_be_default,
  can_be_default_system, latency, safety_offset, is_hidden, zero_time_stamp_period,
  nominal_sample_rate, available_sample_rates, related_devices, streams, stream_configuration,
  preferred_stereo, is_active, direction, terminal_type, starting_channel, virtual_format,
  physical_format, available_virtual_formats, available_physical_formats, Scope, global, input,
  output, Address, Reply, ok, fail,
}
use line6_coreaudio.Plugin.Property.Size.{get_property_data_size, has_property}
use line6_coreaudio.Plugin.Property.Value.{Value}
use line6_coreaudio.Plugin.Property.Query.{Qualifier, Answer, get_property_data}

-- kSelectors
abbrev pub swept_selectors : List Selector
swept_selectors =
    base_class ∷ own_class ∷ owner ∷ object_name ∷ manufacturer ∷ owned_objects ∷ device_list
    ∷ box_list ∷ clock_device_list ∷ translate_uid ∷ resource_bundle ∷ control_list ∷ device_uid
    ∷ model_uid ∷ transport_type ∷ clock_domain ∷ device_is_alive ∷ device_is_running
    ∷ can_be_default ∷ can_be_default_system ∷ latency ∷ safety_offset ∷ is_hidden
    ∷ zero_time_stamp_period ∷ nominal_sample_rate ∷ available_sample_rates ∷ related_devices
    ∷ streams ∷ stream_configuration ∷ preferred_stereo ∷ is_active ∷ direction ∷ terminal_type
    ∷ starting_channel ∷ latency ∷ virtual_format ∷ physical_format ∷ available_virtual_formats
    ∷ available_physical_formats ∷ []

-- kScopes
abbrev pub swept_scopes : List Scope
swept_scopes = global ∷ input ∷ output ∷ []

-- The sizes of buf1 and buf2.
abbrev pub buffer_size : ℕ
buffer_size = 512

abbrev pub null_qualifier : Qualifier
null_qualifier = record { size = 0; given = false; uid = none }

-- The number of problems so far, and what the calls have left.
abbrev pub Swept : Type 0 → Type 0 → Type 0
Swept N F = ℕ × N × Globals F

-- A loop over a list; the problems add up.
unfoldable pub each :
    {N F X : Type 0}
    → (X → N → Globals F → Outcome (Swept N F))
    → List X
    → N
    → Globals F
    → Outcome (Swept N F)
each body [] n g = returned (0, n, g)
each body (x ∷ xs) n g =
    body x n g >>= λ p. each body xs p.1 p.2 >>= λ q. returned (p.0 + q.0, q.1, q.2)

-- The two calls of GetPropertyDataSize: the size, if both succeed with one size.
unfoldable pub stable_size : Reply ℕ → Reply ℕ → Option ℕ
stable_size (ok n) (ok m) = if n == m then some n else none
stable_size (ok n) (fail t) = none
stable_size (fail s) r = none

-- `encode` gives the bytes of a value in memory, which the headers of the framework lay down.
module _ (ca : CoreAudio) (encode : Value ca → List ℕ) where
  -- The bytes that memcmp reads of a zeroed buffer after a call.
  unfoldable pub compared : ℕ → Value ca → List ℕ
  compared out v =
      take (if ltb out buffer_size then out else buffer_size) (encode v ++ replicate buffer_size 0)

  -- The problems that the sweep counts after two calls of GetPropertyData.
  unfoldable pub data_problems : ℕ → ℕ → Reply (Answer ca) → Reply (Answer ca) → ℕ
  data_problems size element (ok (out1, v1)) (ok (out2, v2)) =
      (if out1 == size then 0 else 1)
      + ((if not (out1 == out2) || not (same_text (compared out1 v1) (compared out1 v2))
            then 1
            else 0)
          + (if element == 0 then 0 else 1))
  data_problems size element (ok d) (fail t) = 1
  data_problems size element (fail s) r = 1

  module _ (cf : CoreFoundation) {F A : Type 0} (shm : Shm A) where
    -- The calls of GetPropertyData once the size is known.
    unfoldable pub probe_data :
        ℕ → Address → Option ℕ → Names cf.Heap → Globals F → Outcome (Swept (Names cf.Heap) F)
    probe_data object a none n g = returned (1, n, g)
    probe_data object a (some size) n g =
        let room = if ltb buffer_size size then buffer_size else size in
        get_property_data ca cf shm object a null_qualifier room n g >>= λ p.
        get_property_data ca cf shm object a null_qualifier room p.1 p.2 >>= λ q.
        returned (data_problems size a.element p.0 q.0, q.1, q.2)

    -- The body of the innermost loop.
    unfoldable pub probe :
        ℕ → Address → Names cf.Heap → Globals F → Outcome (Swept (Names cf.Heap) F)
    probe object a n g =
        if not (has_property ca g object a)
        then returned (0, n, g)
        else probe_data object a
            (stable_size (get_property_data_size ca g object a)
              (get_property_data_size ca g object a))
            n g

    -- sweep
    unfoldable pub sweep : Names cf.Heap → Globals F → Outcome (Swept (Names cf.Heap) F)
    sweep =
        each
          (λ object.
            each
              (λ scope.
                each
                  (λ element.
                    each
                      (λ sel.
                        probe object (record { selector = sel; scope = scope; element = element }))
                      swept_selectors)
                  (0 ∷ 1 ∷ 2 ∷ []))
              swept_scopes)
          (object_plug_in ∷ object_device ∷ object_stream_input ∷ [])
