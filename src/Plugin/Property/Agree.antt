-- ===== src/Plugin/Property/Agree.antt =====
-- plugin/Line6HAL.c: GetPropertyDataSize against GetPropertyData, switch by switch. That they agree
-- is what plugin/haltest.c tests.
use native.Mathlib.Nat.{le-div_iff_mul-le}
use line6_coreaudio.Prelude.{
  ℕ, ◌*◌, ◌/◌, ◌<◌, ◌≤◌, ◌≡◌, ◌≢◌, refl, Bool, true, false, arith, Option, none, some, length, ltb,
  not, ◌==◌, if◌then◌else◌,
}
use line6_coreaudio.Shm.{Shm}
use line6_coreaudio.CoreAudio.{CoreAudio}
use line6_coreaudio.CoreFoundation.{CoreFoundation, IsCounted}
use line6_coreaudio.Plugin.{
  Globals, Outcome, returned, dev_channels, object_plug_in, object_device, object_stream_input,
}
use line6_coreaudio.Plugin.Names.{Names, current_name}
use line6_coreaudio.Plugin.Names.Laws.{IsOwned, CanCreate, device_name_copy_lem}
use line6_coreaudio.Plugin.Property.{
  Selector, base_class, object_name, Scope, global, input, output, other_scope, Address, streams,
  owned_objects, stream_configuration, Reply, ok, fail, or_unknown, device_stream_list,
}
use line6_coreaudio.Plugin.Property.Size.{
  plug_in_size, device_size, stream_size, configuration_size, get_property_data_size,
}
use line6_coreaudio.Plugin.Property.Value.{bytes}
use line6_coreaudio.Plugin.Property.Query.{
  Qualifier, Answer, listed, plug_in_data, stream_answer, configuration, device_data, stream_data,
  device_query, get_property_data,
}

-- What the headers say of the sizes: an object id has bytes, and a class id is as large.
pub record IsLaidOut (ca : CoreAudio) : Type 0 where
  pub some_bytes : 0 < ca.object_id
  pub same_size : ca.class_id ≡ ca.object_id

-- The number of items that fit, cut to the number there is, is the latter if that many fit.
fit_all :
    (n size room : ℕ)
    → 0 < size
    → n * size ≤ room
    → (if ltb n (room / size) then n else room / size) ≡ n
fit_all n size room pos fits =
    let enough : n ≤ room / size = (le-div_iff_mul-le pos).1 fits in ground arith

module _ (ca : CoreAudio) (laid : IsLaidOut ca) where
  open ca use {object_id}

  -- A size and an answer agree: both unknown, or the answer's size is that size and the size of
  -- the value written.
  abbrev Match : Option ℕ → Option (Answer ca) → Type 0
  Match none none = Unit
  Match (some n) (some (m, v)) = (m ≡ n) × (bytes ca v ≡ n)
  Match none (some a) = ⊥
  Match (some n) none = ⊥

  -- The caller's buffer holds the reported size.
  abbrev Room : Option ℕ → ℕ → Type 0
  Room none in_size = Unit
  Room (some n) in_size = n ≤ in_size

  plug_in-Match :
      (present : Bool) (q : Qualifier) (in_size : ℕ) (sel : Selector)
      → Room (plug_in_size ca present sel) in_size
      → Match (plug_in_size ca present sel) (plug_in_data ca present q in_size sel)
  unfolding plug_in_size plug_in_data listed bytes
  plug_in-Match present q in_size base_class fits = ground arith
  plug_in-Match present q in_size _ fits = ground (arith, laid)

  stream-Match :
      (channels : ℕ) (sel : Selector) → Match (stream_size ca sel) (stream_data ca channels sel)
  unfolding stream_size stream_data bytes
  stream-Match channels base_class = ground arith
  stream-Match channels _ = ground (arith, laid)

  stream_answer-Match :
      (scope : Scope) (in_size : ℕ)
      → 0 < object_id
      → length (device_stream_list scope) * object_id ≤ in_size
      → Match
          (some (length (device_stream_list scope) * object_id))
          (some (stream_answer ca scope in_size))
  unfolding stream_answer device_stream_list bytes
  stream_answer-Match global in_size pos fits =
      rw (fit_all 1 object_id in_size pos fits) (refl, refl)
  stream_answer-Match input in_size pos fits =
      rw (fit_all 1 object_id in_size pos fits) (refl, refl)
  stream_answer-Match output in_size pos fits =
      rw (fit_all 0 object_id in_size pos fits) (refl, refl)
  stream_answer-Match (other_scope n) in_size pos fits =
      rw (fit_all 0 object_id in_size pos fits) (refl, refl)

  configuration-Match :
      (channels : ℕ) (scope : Scope)
      → Match (some (configuration_size ca scope)) (some (configuration ca channels scope))
  unfolding configuration_size configuration bytes
  configuration-Match channels output = ground arith
  configuration-Match channels _ = ground arith

  device-Match :
      (channels running : ℕ) (scope : Scope) (in_size : ℕ) (sel : Selector)
      → sel ≢ object_name
      → Room (device_size ca scope sel) in_size
      → Match (device_size ca scope sel) (device_data ca channels running scope in_size sel)
  unfolding device_size device_data listed bytes
  device-Match channels running scope in_size object_name other fits = absurd (other refl)
  device-Match channels running scope in_size owned_objects other fits =
      stream_answer-Match scope in_size laid.some_bytes fits
  device-Match channels running scope in_size streams other fits =
      stream_answer-Match scope in_size laid.some_bytes fits
  device-Match channels running scope in_size stream_configuration other fits =
      configuration-Match channels scope
  device-Match channels running scope in_size _ other fits = ground (arith, laid)

  -- What a call of GetPropertyData must give for a reported size: the same refusal, or the
  -- reported size and a value of that many bytes; the globals stay in either case.
  abbrev pub Agrees :
      {N F : Type 0} → Globals F → Reply ℕ → Outcome (Reply (Answer ca) × N × Globals F) → Type 0
  Agrees g (ok n) (returned (ok (m, v), names, g')) = (m ≡ n) × (bytes ca v ≡ n) × (g' ≡ g)
  Agrees g (fail s) (returned (fail t, names, g')) = (s ≡ t) × (g' ≡ g)
  Agrees g _ _ = ⊥

  -- The caller's buffer holds the reported size.
  abbrev pub Fits : Reply ℕ → ℕ → Type 0
  Fits (ok n) in_size = n ≤ in_size
  Fits (fail s) in_size = Unit

  or_unknown-Room : (s : Option ℕ) (in_size : ℕ) → Fits (or_unknown s) in_size → Room s in_size
  or_unknown-Room none in_size h = h
  or_unknown-Room (some k) in_size h = h

  module _ {N F : Type 0} (g : Globals F) where
    or_unknown-Agrees :
        (s : Option ℕ) (d : Option (Answer ca)) (names : N)
        → Match s d
        → Agrees g (or_unknown s) (returned (or_unknown d, names, g))
    or_unknown-Agrees none none names m = (refl, refl)
    or_unknown-Agrees none (some d) names m = m
    or_unknown-Agrees (some k) none names m = m
    or_unknown-Agrees (some k) (some (l, v)) names m = (m.0, m.1, refl)

    -- A test that both functions make in the same place.
    if-Agrees :
        (b : Bool) (in_size : ℕ) (s s' : Reply ℕ)
        (d d' : Outcome (Reply (Answer ca) × N × Globals F))
        → (Fits s in_size → Agrees g s d)
        → (Fits s' in_size → Agrees g s' d')
        → Fits (if b then s else s') in_size
        → Agrees g (if b then s else s') (if b then d else d')
    if-Agrees true in_size s s' d d' left right = left
    if-Agrees false in_size s s' d d' left right = right

  module _ (cf : CoreFoundation) (law : IsCounted cf) {F A : Type 0} (shm : Shm A)
      (n : Names cf.Heap) (g : Globals F) (free : g.locked ≡ false) (owned : IsOwned cf law n)
      (can : CanCreate cf law (current_name g shm)) where
    device_query-Agrees :
        (scope : Scope) (in_size : ℕ) (sel : Selector)
        → Fits (or_unknown (device_size ca scope sel)) in_size
        → Agrees g
            (or_unknown (device_size ca scope sel))
            (device_query ca cf shm scope in_size sel n g)
    unfolding device_query device_size bytes
    device_query-Agrees scope in_size object_name fits =
        let (r, n', came, shown, two, kept, text_kept, owned') =
          device_name_copy_lem cf law shm n g free owned can in
        rw came (refl, refl, refl)
    device_query-Agrees scope in_size sel fits =
        or_unknown-Agrees g (device_size ca scope sel)
          (device_data ca (dev_channels g shm) g.io_running scope in_size sel) n
          (device-Match (dev_channels g shm) g.io_running scope in_size sel (λ e. cc)
            (or_unknown-Room (device_size ca scope sel) in_size fits))

    -- With the mutex free, the name cache owning its string, a string for the name that can be
    -- made, and an object id as large as a class id: for every object, selector, scope and
    -- element, GetPropertyData answers a buffer of at least the reported size with exactly that
    -- size and a value of as many bytes, and refuses with the same status where
    -- GetPropertyDataSize refuses; neither changes the globals.
    pub get_property_data-Agrees :
        (obj : ℕ) (a : Address) (q : Qualifier) (in_size : ℕ)
        → Fits (get_property_data_size ca g obj a) in_size
        → Agrees g
            (get_property_data_size ca g obj a)
            (get_property_data ca cf shm obj a q in_size n g)
    unfolding get_property_data_size get_property_data
    get_property_data-Agrees obj a q in_size =
        if-Agrees g (not (a.element == 0)) in_size _ _ _ _ (λ _. (refl, refl))
          (if-Agrees g (obj == object_plug_in) in_size _ _ _ _
            (λ fits. or_unknown-Agrees g (plug_in_size ca g.device_present a.selector) _ n (
              plug_in-Match g.device_present q in_size a.selector (or_unknown-Room _ in_size fits)))
            (if-Agrees g (obj == object_device) in_size _ _ _ _
              (device_query-Agrees a.scope in_size a.selector)
              (if-Agrees g (obj == object_stream_input) in_size _ _ _ _
                (λ fits.
                  or_unknown-Agrees g (stream_size ca a.selector) _ n
                    (stream-Match (dev_channels g shm) a.selector))
                (λ _. (refl, refl)))))
