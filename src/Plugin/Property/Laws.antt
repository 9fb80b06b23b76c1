-- ===== src/Plugin/Property/Laws.antt =====
-- plugin/Line6HAL.c: what the property queries say together.
use line6_coreaudio.Prelude.{
  ℕ, ◌+◌, ◌*◌, ◌≤◌, ◌<◌, ◌≡◌, ◌≢◌, refl, ap, Bool, true, false, arith, [], ◌∷◌,
}
use line6_coreaudio.Shm.{Shm, max_channels}
use line6_coreaudio.CoreAudio.{CoreAudio}
use line6_coreaudio.CoreFoundation.{CoreFoundation, IsCounted}
use line6_coreaudio.Plugin.{
  Globals, Outcome, returned, deadlock, crashed, object_device, object_stream_input, dev_channels,
}
use line6_coreaudio.Plugin.Names.{Names, current_name}
use line6_coreaudio.Plugin.Names.Laws.{IsOwned, CanCreate}
use line6_coreaudio.Plugin.Property.{
  Scope, output, Address, Reply, ok, fail, stream_configuration, virtual_format,
}
use line6_coreaudio.Plugin.Property.Size.{
  get_property_data_size, has_property, is_property_settable,
}
use line6_coreaudio.Plugin.Property.Value.{Value, bytes, Format, Buffer, format, buffers, fill_asbd}
use line6_coreaudio.Plugin.Property.Query.{
  Qualifier, Answer, get_property_data, device_query, device_data, configuration, stream_data,
}
use line6_coreaudio.Plugin.Property.Agree.{IsLaidOut, Agrees, Fits, get_property_data-Agrees}

-- The channel count is always one that the ring is sized for.
pub dev_channels_bounds :
    {F A : Type 0} (g : Globals F) (shm : Shm A)
    → (0 < dev_channels g shm) × (dev_channels g shm ≤ max_channels)
unfolding dev_channels
dev_channels_bounds g shm = ground arith

-- A call that agrees with a reported size answers with that size.
Agrees-ok :
    (ca : CoreAudio) (laid : IsLaidOut ca) {N F : Type 0} (g : Globals F) (k : ℕ)
    (d : Outcome (Reply (Answer ca) × N × Globals F))
    → Agrees ca laid g (ok k) d
    → (v : Value ca) × (names : N) × (d ≡ returned (ok (k, v), names, g)) × (bytes ca v ≡ k)
Agrees-ok ca laid g k (returned (ok (m, v), names, g')) (e, size, same) =
    (v, names, rw (e, same), size)
Agrees-ok ca laid g k (returned (fail s, names, g')) h = absurd h
Agrees-ok ca laid g k deadlock h = absurd h
Agrees-ok ca laid g k crashed h = absurd h

-- Only the Main element has a size.
size-main :
    (ca : CoreAudio) {F : Type 0} (g : Globals F) (obj : ℕ) (a : Address) (k : ℕ)
    → get_property_data_size ca g obj a ≡ ok k
    → a.element ≡ 0
unfolding get_property_data_size
size-main ca g obj a k e = ground arith

pub has_size :
    (s : Reply ℕ)
    → (elim s as (λ x. Bool) [ ok n ↦ true | fail t ↦ false ]) ≡ true
    → (k : ℕ) × (s ≡ ok k)
has_size (ok k) h = (k, refl)
has_size (fail t) h = cc

configuration_inward :
    {ca : CoreAudio} {channels : ℕ} (scope : Scope)
    → scope ≢ output
    → configuration ca channels scope ≡ (
      ca.buffers_offset + ca.buffer,
      buffers (record { number_channels = channels; data_byte_size = 0 } ∷ []),
    )
unfolding configuration
configuration_inward output inward = absurd (inward refl)
configuration_inward _ inward = refl

module _ (ca : CoreAudio) (cf : CoreFoundation) {F A : Type 0} (shm : Shm A) (q : Qualifier)
    (in_size : ℕ) (n : Names cf.Heap) (g : Globals F) where
  -- Outside the output scope the device's stream configuration and the stream's virtual format
  -- tell of the same channels, from 1 to 8, and a frame of the format is a packet of one sample of
  -- four bytes for each, whatever is in the segment.
  pub formats_agree :
      (scope : Scope)
      → scope ≢ output
      → (f : Format ca) × (b : Buffer) × (get_property_data ca cf shm object_stream_input
            (record { selector = virtual_format; scope = scope; element = 0 })
            q
            in_size
            n
            g
          ≡ returned (ok (ca.basic_description, format f), n, g))
        × (get_property_data ca cf shm object_device
              (record { selector = stream_configuration; scope = scope; element = 0 })
              q
              in_size
              n
              g
            ≡ returned (ok (ca.buffers_offset + ca.buffer, buffers (b ∷ [])), n, g))
        × (b.number_channels ≡ f.channels_per_frame)
        × (f.bytes_per_frame ≡ f.channels_per_frame * 4)
        × (f.bytes_per_packet ≡ f.frames_per_packet * f.bytes_per_frame)
        × (0 < f.channels_per_frame)
        × (f.channels_per_frame ≤ max_channels)
  unfolding get_property_data device_query device_data stream_data configuration fill_asbd
  formats_agree scope inward =
      let (some_channel, few) = dev_channels_bounds g shm in
      (
        fill_asbd ca (dev_channels g shm),
        record { number_channels = dev_channels g shm; data_byte_size = 0 },
        refl,
        ap (λ a. returned (ok a, n, g)) (configuration_inward scope inward),
        refl,
        refl,
        omega arith,
        some_channel,
        few,
      )

  -- With the mutex free, the name cache owning its string, and a string for the name that can be
  -- made: a property that HasProperty admits lies on the Main element, is not settable, and has
  -- the same answer size in GetPropertyData as in GetPropertyDataSize when the buffer is that
  -- large.
  pub has_property_sound :
      (law : IsCounted cf) (laid : IsLaidOut ca) (obj : ℕ) (a : Address)
      → g.locked ≡ false
      → IsOwned cf law n
      → CanCreate cf law (current_name g shm)
      → has_property ca g obj a ≡ true
      → Fits ca laid (get_property_data_size ca g obj a) in_size
      → (a.element ≡ 0)
        × (is_property_settable ca g obj a ≡ ok false)
        × ((size : ℕ) × (v : Value ca) × (n' : Names cf.Heap) × (get_property_data_size ca g obj a
              ≡ ok size)
            × (get_property_data ca cf shm obj a q in_size n g ≡ returned (ok (size, v), n', g))
            × (bytes ca v ≡ size))
  unfolding has_property is_property_settable
  has_property_sound law laid obj a free owned can has fits =
      let (size, reported) = has_size (get_property_data_size ca g obj a) has in
      let agrees : Agrees ca laid g (ok size) (get_property_data ca cf shm obj a q in_size n g) =
        rw (← reported)
          (get_property_data-Agrees ca laid cf law shm n g free owned can obj a q in_size fits) in
      let (v, n', came, exact) = Agrees-ok ca laid g size _ agrees in
      (
        size-main ca g obj a size reported,
        rw (is_property_settable, reported),
        (size, v, n', reported, came, exact),
      )
