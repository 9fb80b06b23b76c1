-- ===== src/Daemon/Devices.antt =====
-- daemon/src/devices.rs: the table of supported devices and its search.
pub mod Laws
use Prim.Native.String.{String}
use line6_coreaudio.Prelude.{ℕ, ◌*◌, not, List, [], ◌∷◌, Option, none, some, ◌==◌, if◌then◌else◌}

abbrev pub vid_line6 : ℕ
vid_line6 = 0x0E41

abbrev pub bytes_per_s24 : ℕ
bytes_per_s24 = 3

pub record Device : Type 0 where
  pub name : String
  pub product_id : ℕ
  pub audio_interface : ℕ
  pub alt_setting : ℕ
  pub ep_audio_in : ℕ
  pub ep_audio_out : ℕ
  pub capture_channels : ℕ
  pub playback_channels : ℕ

unfoldable pub capture_frame_bytes : Device → ℕ
capture_frame_bytes d = d.capture_channels * bytes_per_s24

unfoldable pub playback_frame_bytes : Device → ℕ
playback_frame_bytes d = d.playback_channels * bytes_per_s24

abbrev pub pod_x3_live : Device
pod_x3_live = record {
  name = "POD X3 Live";
  product_id = 0x414B;
  audio_interface = 0;
  alt_setting = 1;
  ep_audio_in = 0x86;
  ep_audio_out = 0x02;
  capture_channels = 8;
  playback_channels = 2;
}

abbrev pub pod_x3 : Device
pod_x3 = record {
  name = "POD X3";
  product_id = 0x414A;
  audio_interface = 0;
  alt_setting = 1;
  ep_audio_in = 0x86;
  ep_audio_out = 0x02;
  capture_channels = 8;
  playback_channels = 2;
}

-- DEVICES
abbrev pub devices : List Device
devices = pod_x3_live ∷ pod_x3 ∷ []

-- What the bus scan reads of one device: its descriptor's ids, or nothing if that fails.
pub record Ids : Type 0 where
  pub vendor : ℕ
  pub product : ℕ

-- The inner loop of find_connected: the first row with a product id.
unfoldable pub find_product : ℕ → List Device → Option Device
find_product product [] = none
find_product product (d ∷ ds) = if d.product_id == product then some d else find_product product ds

-- A row that is found ends the scan.
abbrev pub or_else {ℓ} : {A : Type ℓ} → Option A → Option A → Option A
or_else none rest = rest
or_else (some d) rest = some d

-- The labelled scan over the bus; it stops at the first device of the table.
unfoldable pub scan : List (Option Ids) → Option Device
scan [] = none
scan (none ∷ bus) = scan bus
scan (some ids ∷ bus) =
    let rest = scan bus in
    if not (ids.vendor == vid_line6) then rest else or_else (find_product ids.product devices) rest

-- find_connected: `bus` is none if libusb does not start.
unfoldable pub find_connected : Option (List (Option Ids)) → Option Device
find_connected none = none
find_connected (some bus) = scan bus
