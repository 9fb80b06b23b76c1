-- ===== src/Plugin/Property/Size.antt =====
-- plugin/Line6HAL.c: GetPropertyDataSize and the handlers that stand on it.
use line6_coreaudio.Prelude.{
  ℕ, ◌+◌, ◌*◌, Bool, true, false, not, Option, none, some, ◌==◌, if◌then◌else◌, length,
}
use line6_coreaudio.CoreAudio.{CoreAudio}
use line6_coreaudio.Plugin.{
  Status, bad_object, unknown_property, Globals, object_plug_in, object_device, object_stream_input,
}
use line6_coreaudio.Plugin.Property.{
  Selector, base_class, own_class, owner, object_name, manufacturer, owned_objects, control_list,
  device_list, box_list, clock_device_list, translate_uid, resource_bundle, device_uid, model_uid,
  transport_type, clock_domain, device_is_alive, device_is_running, can_be_default,
  can_be_default_system, latency, safety_offset, is_hidden, zero_time_stamp_period,
  nominal_sample_rate, available_sample_rates, related_devices, streams, stream_configuration,
  preferred_stereo, is_active, direction, terminal_type, starting_channel, virtual_format,
  physical_format, available_virtual_formats, available_physical_formats, Scope, output, Address,
  Reply, ok, fail, or_unknown, device_stream_list,
}

module _ (ca : CoreAudio) where
  open ca use {
    class_id, object_id, string_ref, uint32, float64, value_range, basic_description,
    ranged_description, buffer, buffers_offset,
  }

  -- The switch for the plug-in object.
  unfoldable pub plug_in_size : Bool → Selector → Option ℕ
  plug_in_size present base_class = some class_id
  plug_in_size present own_class = some class_id
  plug_in_size present owner = some class_id
  plug_in_size present manufacturer = some string_ref
  plug_in_size present owned_objects = some (if present then object_id else 0)
  plug_in_size present device_list = some (if present then object_id else 0)
  plug_in_size present box_list = some 0
  plug_in_size present clock_device_list = some 0
  plug_in_size present translate_uid = some object_id
  plug_in_size present resource_bundle = some string_ref
  plug_in_size present _ = none

  -- The size of the stream configuration; the output scope has no buffers.
  unfoldable pub configuration_size : Scope → ℕ
  configuration_size output = buffers_offset
  configuration_size _ = buffers_offset + buffer

  -- The switch for the device.
  unfoldable pub device_size : Scope → Selector → Option ℕ
  device_size scope base_class = some class_id
  device_size scope own_class = some class_id
  device_size scope owner = some class_id
  device_size scope object_name = some string_ref
  device_size scope manufacturer = some string_ref
  device_size scope owned_objects = some (length (device_stream_list scope) * object_id)
  device_size scope streams = some (length (device_stream_list scope) * object_id)
  device_size scope control_list = some 0
  device_size scope device_uid = some string_ref
  device_size scope model_uid = some string_ref
  device_size scope transport_type = some uint32
  device_size scope clock_domain = some uint32
  device_size scope device_is_alive = some uint32
  device_size scope device_is_running = some uint32
  device_size scope can_be_default = some uint32
  device_size scope can_be_default_system = some uint32
  device_size scope latency = some uint32
  device_size scope safety_offset = some uint32
  device_size scope is_hidden = some uint32
  device_size scope zero_time_stamp_period = some uint32
  device_size scope nominal_sample_rate = some float64
  device_size scope available_sample_rates = some value_range
  device_size scope related_devices = some object_id
  device_size scope stream_configuration = some (configuration_size scope)
  device_size scope preferred_stereo = some (2 * uint32)
  device_size scope _ = none

  -- The switch for the input stream.
  unfoldable pub stream_size : Selector → Option ℕ
  stream_size base_class = some class_id
  stream_size own_class = some class_id
  stream_size owner = some class_id
  stream_size owned_objects = some 0
  stream_size is_active = some uint32
  stream_size direction = some uint32
  stream_size terminal_type = some uint32
  stream_size starting_channel = some uint32
  stream_size latency = some uint32
  stream_size virtual_format = some basic_description
  stream_size physical_format = some basic_description
  stream_size available_virtual_formats = some ranged_description
  stream_size available_physical_formats = some ranged_description
  stream_size _ = none

  module _ {F : Type 0} where
    -- Line6_GetPropertyDataSize
    unfoldable pub get_property_data_size : Globals F → ℕ → Address → Reply ℕ
    get_property_data_size g object a =
        if not (a.element == 0)
        then fail unknown_property
        else if object == object_plug_in
        then or_unknown (plug_in_size g.device_present a.selector)
        else if object == object_device
        then or_unknown (device_size a.scope a.selector)
        else if object == object_stream_input
        then or_unknown (stream_size a.selector)
        else fail bad_object

    -- Line6_HasProperty
    unfoldable pub has_property : Globals F → ℕ → Address → Bool
    has_property g object a = elim (get_property_data_size g object a) [
      | ok n ↦ true
      | fail s ↦ false
    ]

    -- Line6_IsPropertySettable: nothing is settable.
    unfoldable pub is_property_settable : Globals F → ℕ → Address → Reply Bool
    is_property_settable g object a = elim (get_property_data_size g object a) [
      | ok n ↦ ok false
      | fail s ↦ fail unknown_property
    ]

-- Line6_SetPropertyData
abbrev pub set_property_data : Status
set_property_data = unknown_property
