-- ===== src/Harness/Sizes.antt =====
-- plugin/Line6HAL.c, GetPropertyDataSize, against the 512 bytes of the buffers of plugin/haltest.c.
use line6_coreaudio.Prelude.{
  ℕ, ◌*◌, ◌≤◌, ◌≡◌, Bool, true, false, not, arith, length, ◌==◌, if◌then◌else◌,
}
use line6_coreaudio.CoreAudio.{CoreAudio}
use line6_coreaudio.Plugin.{Globals, object_plug_in, object_device, object_stream_input}
use line6_coreaudio.Plugin.Property.{
  Selector, Scope, Address, Reply, ok, fail, or_unknown, device_stream_list,
}
use line6_coreaudio.Plugin.Property.Size.{
  plug_in_size, device_size, stream_size, configuration_size, get_property_data_size,
}
use line6_coreaudio.Harness.{buffer_size}

-- Every size of the framework's types is far below the sweep's buffers.
pub record IsShort (ca : CoreAudio) : Type 0 where
  pub class_id : ca.class_id ≤ 64
  pub object_id : ca.object_id ≤ 64
  pub string_ref : ca.string_ref ≤ 64
  pub uint32 : ca.uint32 ≤ 64
  pub float64 : ca.float64 ≤ 64
  pub value_range : ca.value_range ≤ 64
  pub basic_description : ca.basic_description ≤ 64
  pub ranged_description : ca.ranged_description ≤ 64
  pub buffer : ca.buffer ≤ 64
  pub buffers_offset : ca.buffers_offset ≤ 64

module _ (ca : CoreAudio) (short : IsShort ca) where
  -- A size, if there is one, fits the buffers.
  abbrev pub FitsBuffer : Reply ℕ → Type 0
  FitsBuffer (ok n) = n ≤ buffer_size
  FitsBuffer (fail s) = Unit

  plug_in-FitsBuffer :
      (present : Bool) (sel : Selector) → FitsBuffer (or_unknown (plug_in_size ca present sel))
  unfolding plug_in_size
  plug_in-FitsBuffer present _ = ground (arith, short)

  stream-FitsBuffer : (sel : Selector) → FitsBuffer (or_unknown (stream_size ca sel))
  unfolding stream_size
  stream-FitsBuffer _ = ground (arith, short)

  streams-le : (scope : Scope) → length (device_stream_list scope) * ca.object_id ≤ 64
  unfolding device_stream_list
  streams-le _ = ground (arith, short)

  configuration_size-le : (scope : Scope) → configuration_size ca scope ≤ 128
  unfolding configuration_size
  configuration_size-le _ = ground (arith, short)

  device-FitsBuffer :
      (scope : Scope) (sel : Selector) → FitsBuffer (or_unknown (device_size ca scope sel))
  unfolding device_size
  device-FitsBuffer scope _ = ground (arith, short, streams-le scope, configuration_size-le scope)

  pub within_buffer : (s : Reply ℕ) (k : ℕ) → s ≡ ok k → FitsBuffer s → k ≤ buffer_size
  within_buffer (ok n) k e fits = let same : n ≡ k = cc e in rw (← same) fits
  within_buffer (fail t) k e fits = absurd (cc e)

  if-FitsBuffer :
      (b : Bool) (x y : Reply ℕ) → FitsBuffer x → FitsBuffer y → FitsBuffer (if b then x else y)
  if-FitsBuffer true x y fx fy = fx
  if-FitsBuffer false x y fx fy = fy

  pub size-FitsBuffer :
      {F : Type 0} (g : Globals F) (obj : ℕ) (a : Address)
      → FitsBuffer (get_property_data_size ca g obj a)
  unfolding get_property_data_size
  size-FitsBuffer g obj a = if-FitsBuffer (not (a.element == 0)) _ _ tt (
      if-FitsBuffer (obj == object_plug_in) _ _ (plug_in-FitsBuffer g.device_present a.selector) (
        if-FitsBuffer (obj == object_device) _ _ (device-FitsBuffer a.scope a.selector)
          (if-FitsBuffer (obj == object_stream_input) _ _ (stream-FitsBuffer a.selector) tt)))
