-- ===== src/Plugin/Property/Query.antt =====
-- plugin/Line6HAL.c: GetPropertyData. An answer is *outSize and the value written.
use Prim.Native.String.{String}
use text.Mathlib.Text.{◌==◌ as str_eq}
use line6_coreaudio.Prelude.{
  ℕ, ◌+◌, ◌*◌, ◌/◌, Bool, true, false, not, ◌&&◌, [], ◌∷◌, Option, none, some, ltb, leb, ◌==◌,
  if◌then◌else◌, length, take,
}
use line6_coreaudio.Shm.{Shm, sample_rate_hz}
use line6_coreaudio.CoreAudio.{CoreAudio}
use line6_coreaudio.CoreFoundation.{CoreFoundation}
use line6_coreaudio.Plugin.{
  bad_object, unknown_property, Globals, Outcome, returned, ◌>>=◌, object_plug_in, object_device,
  object_stream_input, safety_offset as safety_frames, ring_period, dev_channels,
}
use line6_coreaudio.Plugin.Names.{Names, device_name_copy}
use line6_coreaudio.Plugin.Property.{
  Selector, base_class, own_class, owner, object_name, manufacturer, owned_objects, control_list,
  device_list, box_list, clock_device_list, translate_uid, resource_bundle, device_uid, model_uid,
  transport_type, clock_domain, device_is_alive, device_is_running, can_be_default,
  can_be_default_system, latency, safety_offset, is_hidden, zero_time_stamp_period,
  nominal_sample_rate, available_sample_rates, related_devices, streams, stream_configuration,
  preferred_stereo, is_active, direction, terminal_type, starting_channel, virtual_format,
  physical_format, available_virtual_formats, available_physical_formats, Scope, output, Address,
  Reply, ok, fail, or_unknown, device_stream_list,
}
use line6_coreaudio.Plugin.Property.Value.{
  object_class, plug_in_class, device_class, stream_class, literal, created, Value, class_of,
  object, objects, string, number, two_numbers, rate, rate_range, buffers, format, ranged_format,
  fill_asbd,
}

-- kManufacturer_Name, kDevice_UID, kDevice_ModelUID
abbrev pub manufacturer_text : String
manufacturer_text = "Line 6 (community driver)"

abbrev pub device_uid_text : String
device_uid_text = "Line6_Device_UID"

abbrev pub model_uid_text : String
model_uid_text = "Line6_Model_UID"

-- The qualifier: its size, whether its pointer is given, and the string it points to.
pub record Qualifier : Type 0 where
  pub size : ℕ
  pub given : Bool
  pub uid : Option String

-- uid && CFEqual(uid, CFSTR(kDevice_UID))
names_device : Option String → Bool
names_device none = false
names_device (some s) = str_eq s device_uid_text

module _ (ca : CoreAudio) where
  open ca use {
    class_id, object_id, string_ref, uint32, float64, value_range, basic_description,
    ranged_description, buffer, buffers_offset, object_unknown, transport_usb, terminal_unknown,
  }

  abbrev pub Answer : Type 0
  Answer = ℕ × Value ca

  abbrev u32 : ℕ → Option Answer
  u32 n = some (uint32, number n)

  abbrev text_of : String → Option Answer
  text_of s = some (string_ref, string (literal s))

  -- The device in a list, if it is there and fits the caller's buffer.
  unfoldable pub listed : Bool → ℕ → Answer
  listed there in_size =
      if there && leb object_id in_size
      then (object_id, objects (object_device ∷ []))
      else (0, objects [])

  -- The switch for the plug-in object.
  unfoldable pub plug_in_data : Bool → Qualifier → ℕ → Selector → Option Answer
  unfolding names_device
  plug_in_data present q in_size base_class = some (class_id, class_of object_class)
  plug_in_data present q in_size own_class = some (class_id, class_of plug_in_class)
  plug_in_data present q in_size owner = some (object_id, object object_unknown)
  plug_in_data present q in_size manufacturer = text_of manufacturer_text
  plug_in_data present q in_size owned_objects = some (listed present in_size)
  plug_in_data present q in_size device_list = some (listed present in_size)
  plug_in_data present q in_size box_list = some (0, objects [])
  plug_in_data present q in_size clock_device_list = some (0, objects [])
  plug_in_data present q in_size translate_uid =
      let uid = if leb string_ref q.size && q.given then q.uid else none in
      some
        (object_id, object (if present && names_device uid then object_device else object_unknown))
  plug_in_data present q in_size resource_bundle = text_of ""
  plug_in_data present q in_size _ = none

  -- As many of the device's streams as the caller's buffer holds.
  unfoldable pub stream_answer : Scope → ℕ → Answer
  stream_answer scope in_size =
      let list = device_stream_list scope in
      let n = length list in
      let fit = in_size / object_id in
      let fit' = if ltb n fit then n else fit in (fit' * object_id, objects (take fit' list))

  unfoldable pub configuration : ℕ → Scope → Answer
  configuration channels output = (buffers_offset, buffers [])
  configuration channels _ = (
    buffers_offset + buffer,
    buffers (record { number_channels = channels; data_byte_size = 0 } ∷ []),
  )

  -- The switch for the device, but for its name.
  unfoldable pub device_data : ℕ → ℕ → Scope → ℕ → Selector → Option Answer
  device_data channels running scope in_size base_class = some (class_id, class_of object_class)
  device_data channels running scope in_size own_class = some (class_id, class_of device_class)
  device_data channels running scope in_size owner = some (object_id, object object_plug_in)
  device_data channels running scope in_size manufacturer = text_of manufacturer_text
  device_data channels running scope in_size owned_objects = some (stream_answer scope in_size)
  device_data channels running scope in_size streams = some (stream_answer scope in_size)
  device_data channels running scope in_size control_list = some (0, objects [])
  device_data channels running scope in_size device_uid = text_of device_uid_text
  device_data channels running scope in_size model_uid = text_of model_uid_text
  device_data channels running scope in_size transport_type = u32 transport_usb
  device_data channels running scope in_size clock_domain = u32 0
  device_data channels running scope in_size device_is_alive = u32 1
  device_data channels running scope in_size device_is_running =
      u32 (if ltb 0 running then 1 else 0)
  device_data channels running scope in_size can_be_default = u32 1
  device_data channels running scope in_size can_be_default_system = u32 0
  device_data channels running scope in_size latency = u32 0
  device_data channels running scope in_size safety_offset = u32 safety_frames
  device_data channels running scope in_size is_hidden = u32 0
  device_data channels running scope in_size zero_time_stamp_period = u32 ring_period
  device_data channels running scope in_size nominal_sample_rate =
      some (float64, rate sample_rate_hz)
  device_data channels running scope in_size available_sample_rates =
      some (value_range, rate_range sample_rate_hz sample_rate_hz)
  device_data channels running scope in_size related_devices = some (listed true in_size)
  device_data channels running scope in_size stream_configuration =
      some (configuration channels scope)
  device_data channels running scope in_size preferred_stereo = some (2 * uint32, two_numbers 1 2)
  device_data channels running scope in_size _ = none

  -- The switch for the input stream.
  unfoldable pub stream_data : ℕ → Selector → Option Answer
  stream_data channels base_class = some (class_id, class_of object_class)
  stream_data channels own_class = some (class_id, class_of stream_class)
  stream_data channels owner = some (object_id, object object_device)
  stream_data channels owned_objects = some (0, objects [])
  stream_data channels is_active = u32 1
  stream_data channels direction = u32 1
  stream_data channels terminal_type = u32 terminal_unknown
  stream_data channels starting_channel = u32 1
  stream_data channels latency = u32 0
  stream_data channels virtual_format = some (basic_description, format (fill_asbd ca channels))
  stream_data channels physical_format = some (basic_description, format (fill_asbd ca channels))
  stream_data channels available_virtual_formats =
      some (ranged_description, ranged_format (fill_asbd ca channels) sample_rate_hz sample_rate_hz)
  stream_data channels available_physical_formats =
      some (ranged_description, ranged_format (fill_asbd ca channels) sample_rate_hz sample_rate_hz)
  stream_data channels _ = none

  -- What a query leaves: the reply, the name cache and the globals.
  abbrev pub Queried : CoreFoundation → Type 0 → Type 0
  Queried cf F = Reply Answer × Names cf.Heap × Globals F

  module _ (cf : CoreFoundation) {F A : Type 0} where
    -- The device's switch with its name, which comes from DeviceNameCopy.
    unfoldable pub device_query :
        Shm A → Scope → ℕ → Selector → Names cf.Heap → Globals F → Outcome (Queried cf F)
    device_query shm scope in_size object_name n g = device_name_copy cf shm n g >>= λ p.
        returned (ok (string_ref, string (created p.0)), p.1, p.2)
    device_query shm scope in_size sel n g =
        returned
          (or_unknown (device_data (dev_channels g shm) g.io_running scope in_size sel), n, g)

    -- Line6_GetPropertyData
    unfoldable pub get_property_data :
        Shm A → ℕ → Address → Qualifier → ℕ → Names cf.Heap → Globals F → Outcome (Queried cf F)
    get_property_data shm obj a q in_size n g =
        if not (a.element == 0)
        then returned (fail unknown_property, n, g)
        else if obj == object_plug_in
        then returned (or_unknown (plug_in_data g.device_present q in_size a.selector), n, g)
        else if obj == object_device
        then device_query shm a.scope in_size a.selector n g
        else if obj == object_stream_input
        then returned (or_unknown (stream_data (dev_channels g shm) a.selector), n, g)
        else returned (fail bad_object, n, g)
