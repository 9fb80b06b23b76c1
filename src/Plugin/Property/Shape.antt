-- ===== src/Plugin/Property/Shape.antt =====
-- plugin/Line6HAL.c, GetPropertyData: the one query that touches the name cache.
use line6_coreaudio.Prelude.{
  ℕ, ◌≡◌, ◌⊎◌, inl, inr, refl, Bool, true, false, not, ◌==◌, if◌then◌else◌,
}
use line6_coreaudio.Shm.{Shm}
use line6_coreaudio.CoreAudio.{CoreAudio}
use line6_coreaudio.CoreFoundation.{CoreFoundation}
use line6_coreaudio.Plugin.{
  Globals, Outcome, returned, ◌>>=◌, object_plug_in, object_device, object_stream_input,
}
use line6_coreaudio.Plugin.Names.{Names, device_name_copy}
use line6_coreaudio.Plugin.Property.{Selector, object_name, Scope, Address, Reply, ok}
use line6_coreaudio.Plugin.Property.Value.{string, created}
use line6_coreaudio.Plugin.Property.Query.{
  Qualifier, Answer, Queried, device_query, get_property_data,
}

module _ (ca : CoreAudio) (cf : CoreFoundation) {F A : Type 0} (shm : Shm A) (g : Globals F) where
  -- A query as a function of the name cache: it does not touch the cache, or it is that of the name.
  abbrev pub Shape : (Names cf.Heap → Outcome (Queried ca cf F)) → Type 0
  Shape query =
      ((r : Reply (Answer ca)) × ((m : Names cf.Heap) → query m ≡ returned (r, m, g)))
      ⊎ ((m : Names cf.Heap)
          → query m ≡ (
              device_name_copy cf shm m g >>= λ p.
              returned (ok (ca.string_ref, string (created p.0)), p.1, p.2)))

  if-Shape :
      (b : Bool) (x y : Names cf.Heap → Outcome (Queried ca cf F))
      → Shape x
      → Shape y
      → Shape (λ m. if b then x m else y m)
  if-Shape true x y sx sy = sx
  if-Shape false x y sx sy = sy

  device-Shape :
      (scope : Scope) (in_size : ℕ) (sel : Selector)
      → Shape (λ m. device_query ca cf shm scope in_size sel m g)
  unfolding device_query
  device-Shape scope in_size object_name = inr (λ m. refl)
  device-Shape scope in_size _ = inl (_, λ m. refl)

  pub query-Shape :
      (obj : ℕ) (a : Address) (q : Qualifier) (in_size : ℕ)
      → Shape (λ m. get_property_data ca cf shm obj a q in_size m g)
  unfolding get_property_data
  query-Shape obj a q in_size = if-Shape (not (a.element == 0)) _ _ (inl (_, λ m. refl)) (
      if-Shape (obj == object_plug_in) _ _ (inl (_, λ m. refl)) (
        if-Shape (obj == object_device) _ _ (device-Shape a.scope in_size a.selector)
          (if-Shape (obj == object_stream_input) _ _ (inl (_, λ m. refl)) (inl (_, λ m. refl)))))
