-- ===== src/Tests/Properties.antt =====
-- The theorems on properties, and on the sweep over them, at concrete inputs.
use line6_coreaudio.Prelude.{ℕ, ◌+◌, ◌*◌, ◌≤◌, ◌<◌, ◌≡◌, refl, false, arith, List, [], ◌∷◌}
use line6_coreaudio.Shm.{max_channels}
use line6_coreaudio.Plugin.{returned, object_device, object_stream_input}
use line6_coreaudio.Plugin.Names.{Names}
use line6_coreaudio.Plugin.Property.{
  object_name, streams, virtual_format, stream_configuration, global, input, ok, device_stream_list,
}
use line6_coreaudio.Plugin.Property.Size.{
  device_size, get_property_data_size, has_property, is_property_settable,
}
use line6_coreaudio.Plugin.Property.Value.{Value, bytes, Format, Buffer, format, buffers}
use line6_coreaudio.Plugin.Property.Query.{get_property_data}
use line6_coreaudio.Plugin.Property.Agree.{Agrees, get_property_data-Agrees}
use line6_coreaudio.Plugin.Property.Laws.{formats_agree, has_property_sound}
use line6_coreaudio.Tests.Frameworks.{Entry, log_heap, log_heap-IsCounted, core_audio_64}
use line6_coreaudio.Tests.State.{
  shm4000, running_globals, empty_names, empty_names-IsOwned, can_create, core_audio_64-IsLaidOut,
  no_qualifier, at_main,
}
use line6_coreaudio.Harness.Sizes.{IsShort}

get_property_data-Agrees_example :
    Agrees core_audio_64 core_audio_64-IsLaidOut running_globals
      (get_property_data_size core_audio_64 running_globals object_device (at_main streams input))
      (get_property_data core_audio_64 log_heap shm4000 object_device
        (at_main streams input)
        no_qualifier
        4
        empty_names
        running_globals)
unfolding get_property_data_size device_size device_stream_list
get_property_data-Agrees_example =
    get_property_data-Agrees core_audio_64 core_audio_64-IsLaidOut log_heap log_heap-IsCounted
      shm4000 empty_names running_globals refl empty_names-IsOwned (can_create _) object_device
      (at_main streams input) no_qualifier 4 (omega arith)

has_property_sound_example :
    ((at_main object_name global).element ≡ 0)
    × (is_property_settable core_audio_64 running_globals object_device (at_main object_name global)
        ≡ ok false)
    × ((size : ℕ) × (v : Value core_audio_64) × (n' : Names (List Entry)) × (get_property_data_size
            core_audio_64 running_globals object_device
            (at_main object_name global)
          ≡ ok size)
        × (get_property_data core_audio_64 log_heap shm4000 object_device
              (at_main object_name global)
              no_qualifier
              8
              empty_names
              running_globals
            ≡ returned (ok (size, v), n', running_globals))
        × (bytes core_audio_64 v ≡ size))
unfolding has_property get_property_data_size device_size
has_property_sound_example =
    has_property_sound core_audio_64 log_heap shm4000 no_qualifier 8 empty_names running_globals
      log_heap-IsCounted core_audio_64-IsLaidOut object_device (at_main object_name global) refl
      empty_names-IsOwned (can_create _) refl (omega arith)

formats_agree_example :
    (f : Format core_audio_64) × (b : Buffer) × (get_property_data core_audio_64 log_heap shm4000
        object_stream_input
        (at_main virtual_format input)
        no_qualifier
        40
        empty_names
        running_globals
      ≡ returned (ok (40, format f), empty_names, running_globals))
    × (get_property_data core_audio_64 log_heap shm4000 object_device
          (at_main stream_configuration input)
          no_qualifier
          40
          empty_names
          running_globals
        ≡ returned (ok (8 + 16, buffers (b ∷ [])), empty_names, running_globals))
    × (b.number_channels ≡ f.channels_per_frame)
    × (f.bytes_per_frame ≡ f.channels_per_frame * 4)
    × (f.bytes_per_packet ≡ f.frames_per_packet * f.bytes_per_frame)
    × (0 < f.channels_per_frame)
    × (f.channels_per_frame ≤ max_channels)
formats_agree_example =
    formats_agree core_audio_64 log_heap shm4000 no_qualifier 40 empty_names running_globals input
      (λ e. cc e)

abbrev pub core_audio_64-IsShort : IsShort core_audio_64
core_audio_64-IsShort = record {
  class_id = omega arith;
  object_id = omega arith;
  string_ref = omega arith;
  uint32 = omega arith;
  float64 = omega arith;
  value_range = omega arith;
  basic_description = omega arith;
  ranged_description = omega arith;
  buffer = omega arith;
  buffers_offset = omega arith;
}
