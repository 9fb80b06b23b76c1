-- ===== src/Plugin/Lifecycle.antt =====
-- plugin/Line6HAL.c: attaching the segment, the COM reference count, the factory, Initialize, and
-- the handlers that only return a status.
pub mod Laws
use line6_coreaudio.Prelude.{
  ℕ, ◌+◌, ◌-◌, ◌%◌, Bool, true, false, ◌||◌, not, Option, none, some, ltb, ◌==◌, if◌then◌else◌,
  u32_mod,
}
use line6_coreaudio.Shm.{Shm, shm_magic, shm_version}
use line6_coreaudio.Float64.{Float64}
use line6_coreaudio.Plugin.{
  Status, no_err, bad_object, unsupported_operation, Globals, Outcome, returned, ◌>>=◌, lock,
  unlock,
}

-- What shm_open and mmap give: the segment of the call, or a failure.
pub data Mapping : Type 0 where
  open_failed map_failed mapped : Mapping

-- The results of the COM methods, and the interfaces that a host can ask for.
pub data HResult : Type 0 where
  s_ok e_invalid_arg e_no_interface : HResult

pub data InterfaceId : Type 0 where
  i_unknown driver_interface other_interface : InterfaceId

unfoldable pub has_good_header : {A : Type 0} → Shm A → Bool
has_good_header shm = not (not (shm.magic == shm_magic) || not (shm.version == shm_version))

-- CFEqual with IUnknownUUID or with kAudioServerPlugInDriverInterfaceUUID.
pub knows : InterfaceId → Bool
knows i_unknown = true
knows driver_interface = true
knows other_interface = false

module _ {F : Type 0} where
  -- The part of AttachShm after shm_open and mmap; it runs with the mutex held.
  pub map_segment : {A : Type 0} → Mapping → Shm A → Globals F → Globals F
  unfolding has_good_header
  map_segment open_failed shm g = g
  map_segment map_failed shm g = g
  map_segment mapped shm g = if has_good_header shm then record g { attached = true } else g

  -- AttachShm
  pub attach_shm : {A : Type 0} → Mapping → Shm A → Globals F → Outcome (Globals F)
  unfolding map_segment
  attach_shm m shm g =
      if g.attached
      then returned g
      else do g1 ← lock g; returned (unlock (if g1.attached then g1 else map_segment m shm g1))

  -- Line6_QueryInterface; `mine` is `inDriver == gDriverRef`. The option is what goes through
  -- outInterface.
  unfoldable pub query_interface :
      Bool → InterfaceId → Bool → Globals F → Outcome (HResult × Bool × Globals F)
  unfolding knows
  query_interface mine iid out_null g =
      if not mine || out_null
      then returned (e_invalid_arg, false, g)
      else if not (knows iid)
      then returned (e_no_interface, false, g)
      else do
        g1 ← lock g
        returned (s_ok, true, unlock (record g1 { ref_count = (g1.ref_count + 1) % u32_mod }))

  -- Line6_AddRef
  unfoldable pub add_ref : Bool → Globals F → Outcome (ℕ × Globals F)
  add_ref mine g = if not mine then returned (0, g) else do
    g1 ← lock g
    let r = (g1.ref_count + 1) % u32_mod
    returned (r, unlock (record g1 { ref_count = r }))

  -- Line6_Release
  unfoldable pub release : Bool → Globals F → Outcome (ℕ × Globals F)
  release mine g = if not mine then returned (0, g) else do
    g1 ← lock g
    if ltb 0 g1.ref_count
        then returned (g1.ref_count - 1, unlock (record g1 { ref_count = g1.ref_count - 1 }))
        else returned (0, unlock g1)

-- The factory Line6_Create: the driver, if the type asked for is an audio server plugin.
abbrev pub create : Bool → Bool
create is_plug_in_type = is_plug_in_type

module _ (f : Float64) where
  open f use {Carrier, of_u64, times, over}

  -- The mach ticks of one frame, from the timebase numer/denom.
  pub ticks_per_frame : ℕ → ℕ → Carrier
  ticks_per_frame numer denom =
      over (over (times (of_u64 1000000000) (of_u64 denom)) (of_u64 numer)) (of_u64 48000)

  -- Line6_Initialize. `thread_started` is `pthread_create(...) == 0`; the second part of the
  -- result is whether the presence monitor runs.
  unfoldable pub initialize :
      {A : Type 0}
      → Bool
      → Bool
      → ℕ
      → ℕ
      → Mapping
      → Shm A
      → Bool
      → Globals Carrier
      → Outcome (Status × Bool × Globals Carrier)
  unfolding ticks_per_frame attach_shm
  initialize mine host_given numer denom m shm thread_started g =
      if not mine then returned (bad_object, false, g) else do
        let g1 = record g {
          has_host = host_given;
          host_ticks_per_frame = ticks_per_frame numer denom;
        }
        g2 ← attach_shm m shm g1
        returned (no_err, thread_started, record g2 { monitor_run = true })

-- Line6_CreateDevice, Line6_DestroyDevice
abbrev pub create_device : Status
create_device = unsupported_operation

abbrev pub destroy_device : Status
destroy_device = unsupported_operation

-- Line6_AddDeviceClient, Line6_RemoveDeviceClient
abbrev pub add_device_client : Status
add_device_client = no_err

abbrev pub remove_device_client : Status
remove_device_client = no_err

-- Line6_PerformDeviceConfigurationChange, Line6_AbortDeviceConfigurationChange
abbrev pub perform_configuration_change : Status
perform_configuration_change = no_err

abbrev pub abort_configuration_change : Status
abort_configuration_change = no_err
