-- ===== src/Harness/Repeat.antt =====
-- plugin/Line6HAL.c, GetPropertyData: the same query made twice, as plugin/haltest.c makes it.
use line6_coreaudio.Prelude.{◌≡◌, inl, inr, ◌∙◌, false}
use line6_coreaudio.Shm.{Shm}
use line6_coreaudio.CoreAudio.{CoreAudio}
use line6_coreaudio.CoreFoundation.{CoreFoundation, IsCounted}
use line6_coreaudio.Plugin.{Globals, Outcome, returned}
use line6_coreaudio.Plugin.Names.{Names, current_name, device_name_copy}
use line6_coreaudio.Plugin.Names.Laws.{
  IsOwned, CanCreate, device_name_copy_lem, device_name_copy_again,
}
use line6_coreaudio.Plugin.Property.{Reply, ok}
use line6_coreaudio.Plugin.Property.Value.{string, created}
use line6_coreaudio.Plugin.Property.Query.{Answer, Queried}
use line6_coreaudio.Plugin.Property.Shape.{Shape}

module _ (ca : CoreAudio) (cf : CoreFoundation) (law : IsCounted cf) {F A : Type 0} (shm : Shm A)
    (g : Globals F) (free : g.locked ≡ false) (can : CanCreate cf law (current_name g shm)) where
  -- Two queries in a row give the same reply.
  pub twice :
      (query : Names cf.Heap → Outcome (Queried ca cf F))
      → Shape ca cf shm g query
      → (n : Names cf.Heap) → IsOwned cf law n
      → (r : Reply (Answer ca)) × (n' : Names cf.Heap) × (n'' : Names cf.Heap) × (query n
          ≡ returned (r, n', g))
        × (query n' ≡ returned (r, n'', g))
        × IsOwned cf law n'
        × IsOwned cf law n''
  unfolding IsOwned
  twice query (inl (r, same)) n owned = (r, n, n, same n, same n, owned, owned)
  twice query (inr named) n owned =
      let (r, n', came, shown, two, kept, text_kept, owned') =
        device_name_copy_lem cf law shm n g free owned can in
      let (r2, n2, came2, shown2, two2, kept2, text_kept2, owned2) =
        device_name_copy_lem cf law shm n' g free owned' can in
      let again : device_name_copy cf shm n' g
          ≡ returned (r, record n' { heap = cf.retain r n'.heap }, g) =
        device_name_copy_again cf law shm n' g r free kept text_kept in
      let same : r2 ≡ r = cc (came2, again) in
      (
        ok (ca.string_ref, string (created r)),
        n',
        n2,
        named n ∙ rw came,
        named n' ∙ rw (came2, same),
        owned',
        owned2,
      )
