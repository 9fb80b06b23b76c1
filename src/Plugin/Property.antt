-- ===== src/Plugin/Property.antt =====
-- plugin/Line6HAL.c, the property sections: the vocabulary of addresses and values.
-- One constructor stands for each selector that the source names, and `other` for any other value.
-- kAudioStreamPropertyLatency is the header's second name for kAudioDevicePropertyLatency, so both
-- are `latency`.
pub mod Size
pub mod Value
pub mod Query
pub mod Agree
pub mod Shape
pub mod Laws
use line6_coreaudio.Prelude.{ℕ, List, [], ◌∷◌, Option, none, some}
use line6_coreaudio.Plugin.{Status, unknown_property, object_stream_input}

pub data Selector : Type 0 where
  -- kAudioObjectProperty...
  base_class own_class owner object_name manufacturer owned_objects control_list : Selector
  -- kAudioPlugInProperty...
  device_list box_list clock_device_list translate_uid resource_bundle : Selector
  -- kAudioDeviceProperty...
  device_uid model_uid transport_type clock_domain device_is_alive device_is_running : Selector
  can_be_default can_be_default_system latency safety_offset is_hidden : Selector
  zero_time_stamp_period nominal_sample_rate available_sample_rates related_devices : Selector
  streams stream_configuration preferred_stereo : Selector
  -- kAudioStreamProperty...
  is_active direction terminal_type starting_channel virtual_format physical_format : Selector
  available_virtual_formats available_physical_formats : Selector
  other : ℕ → Selector

pub data Scope : Type 0 where
  global input output : Scope
  other_scope : ℕ → Scope

-- AudioObjectPropertyAddress; the Main element is 0.
pub record Address : Type 0 where
  pub selector : Selector
  pub scope : Scope
  pub element : ℕ

-- A status other than noErr, or noErr with what the call writes.
pub data Reply {ℓ} (A : Type ℓ) : Type ℓ where
  ok : A → Reply A
  fail : Status → Reply A

-- The end of a switch: a selector that no case takes.
abbrev pub or_unknown {ℓ} : {A : Type ℓ} → Option A → Reply A
or_unknown none = fail unknown_property
or_unknown (some a) = ok a

-- DeviceStreamList: the input stream, in the global and the input scope.
unfoldable pub device_stream_list : Scope → List ℕ
device_stream_list global = object_stream_input ∷ []
device_stream_list input = object_stream_input ∷ []
device_stream_list output = []
device_stream_list (other_scope n) = []
