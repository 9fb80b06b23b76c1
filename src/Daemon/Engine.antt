-- ===== src/Daemon/Engine.antt =====
-- daemon/src/usb.rs: make_iso, start, handle_events and stop, over what libusb answers.
-- Each function gives the libusb calls that it makes, in order. What libusb answers is an argument:
-- the results of the calls in start, and for each round of the loop in stop the transfers that
-- come back in it and the time that has passed.
pub mod Protocol
pub mod Loops
pub mod Streaming
pub mod Start
pub mod Active
pub mod Callbacks
pub mod Stop
pub mod Quiet
use line6_coreaudio.Prelude.{
  ℕ, zero, suc, ◌+◌, ◌*◌, ◌%◌, ◌^◌, Bool, true, false, not, ◌&&◌, ◌||◌, List, [], ◌∷◌, ◌++◌, Option,
  none, some, u32_mod, ltb, ◌==◌, if◌then◌else◌,
}
use line6_coreaudio.Shm.{Shm}
use line6_coreaudio.Daemon.Devices.{Device, vid_line6, capture_frame_bytes, playback_frame_bytes}
use line6_coreaudio.Daemon.Samples.{Steps}
use line6_coreaudio.Daemon.Writer.{◌>>=◌}
use line6_coreaudio.Daemon.Capture.{
  Double, StreamState, Packet, max_frames_per_in_pkt, on_in, on_out,
}

-- ISO_PACKETS, ISO_BUFFERS, OUT_FRAMES_PER_PKT
abbrev pub iso_packets : ℕ
iso_packets = 8

abbrev pub iso_buffers : ℕ
iso_buffers = 8

abbrev pub out_frames_per_pkt : ℕ
out_frames_per_pkt = 6

-- A call of libusb with its answer, or the callback of a transfer. Transfers are numbered in the
-- order of their allocation.
pub data Call : Type 0 where
  init_library : Bool → Call
  exit_library : Call
  open_device : ℕ → ℕ → Bool → Call
  close_device : Call
  claim_interface : ℕ → Bool → Call
  release_interface : ℕ → Call
  set_alt_setting : ℕ → ℕ → Bool → Call
  alloc_transfer : ℕ → Call
  submit_transfer : ℕ → Bool → Call
  cancel_transfer : ℕ → Call
  free_transfer : ℕ → Call
  handle_events_timeout : Call
  called_back : ℕ → Call

-- A transfer as make_iso fills it, and the length of the buffer that it is given.
pub record Iso : Type 0 where
  pub id : ℕ
  pub endpoint : ℕ
  pub timeout : ℕ
  pub length : ℕ
  pub num_iso_packets : ℕ
  pub packet_length : ℕ
  pub buffer_length : ℕ

unfoldable pub make_iso : ℕ → ℕ → ℕ → ℕ → ℕ → Iso
make_iso id endpoint packets pkt_len buffer_length = record {
  id = id;
  endpoint = endpoint;
  timeout = 1000;
  length = packets * pkt_len;
  num_iso_packets = packets;
  packet_length = pkt_len;
  buffer_length = buffer_length;
}

-- The transfers of one direction from number `id` on, one for each of `left` buffers.
unfoldable pub make_isos : ℕ → ℕ → ℕ → ℕ → List Iso
make_isos endpoint pkt_len id zero = []
make_isos endpoint pkt_len id (suc left) =
    make_iso id endpoint iso_packets pkt_len (iso_packets * pkt_len)
    ∷ make_isos endpoint pkt_len (id + 1) left

-- Capture transfers, then playback transfers.
unfoldable pub transfers_of : Device → List Iso
transfers_of d =
    make_isos d.ep_audio_in (capture_frame_bytes d * max_frames_per_in_pkt) 0 iso_buffers
    ++ make_isos d.ep_audio_out (playback_frame_bytes d * out_frames_per_pkt) iso_buffers
        iso_buffers

-- What the calls of start give: whether each succeeds.
pub record Replies : Type 0 where
  pub inits : Bool
  pub opens : Bool
  pub claims : Bool
  pub sets_alt : Bool
  pub submits : ℕ → Bool

pub record Engine : Type 0 where
  pub interface : ℕ
  pub transfers : List Iso

pub data StartError : Type 0 where
  init_failed not_opened not_claimed alt_not_set no_transfer_started : StartError

pub data Started : Type 0 where
  ok : Engine → Started
  err : StartError → Started

abbrev pub alloc_all : List Iso → List Call
alloc_all [] = []
alloc_all (t ∷ ts) = alloc_transfer t.id ∷ alloc_all ts

abbrev pub cancel_all : List Iso → List Call
cancel_all [] = []
cancel_all (t ∷ ts) = cancel_transfer t.id ∷ cancel_all ts

abbrev pub free_all : List Iso → List Call
free_all [] = []
free_all (t ∷ ts) = free_transfer t.id ∷ free_all ts

-- release_interface, close and exit, in this order.
abbrev pub let_go : ℕ → List Call
let_go interface = release_interface interface ∷ close_device ∷ exit_library ∷ []

module _ {fp : Double} where
  -- The loop that submits the transfers and counts those in flight.
  unfoldable pub submit_all : (ℕ → Bool) → List Iso → StreamState fp → StreamState fp × List Call
  submit_all submits [] st = (st, [])
  submit_all submits (t ∷ ts) st =
      let counted = record st {
        in_flight = if submits t.id then (st.in_flight + 1) % u32_mod else st.in_flight;
      } in
      let rest = submit_all submits ts counted in
      (rest.0, submit_transfer t.id (submits t.id) ∷ rest.1)

  -- start, where libusb_alloc_transfer gives no null pointer.
  unfoldable pub start : Replies → Device → StreamState fp → Started × StreamState fp × List Call
  start r d st =
      let iface = d.audio_interface in
      let opening = open_device vid_line6 d.product_id r.opens in
      let setting = set_alt_setting iface d.alt_setting r.sets_alt in
      let ts = transfers_of d in
      let sent = submit_all r.submits ts st in
      let begun =
        init_library true
        ∷ opening
        ∷ claim_interface iface true
        ∷ setting
        ∷ (alloc_all ts ++ sent.1) in
      if not r.inits
      then (err init_failed, st, init_library false ∷ [])
      else if not r.opens
      then (err not_opened, st, init_library true ∷ opening ∷ exit_library ∷ [])
      else if not r.claims
      then (
        err not_claimed,
        st,
        init_library true
            ∷ opening
            ∷ claim_interface iface false
            ∷ close_device
            ∷ exit_library
            ∷ [],
      )
      else if not r.sets_alt
      then (
        err alt_not_set,
        st,
        init_library true ∷ opening ∷ claim_interface iface true ∷ setting ∷ let_go iface,
      )
      else if sent.0.in_flight == 0
      then (err no_transfer_started, sent.0, begun ++ (free_all ts ++ let_go iface))
      else (ok (record { interface = iface; transfers = ts }), sent.0, begun)

-- A transfer that comes back: its number, whether libusb would take it again, its buffer and its
-- packets.
pub record Completion : Type 0 where
  pub id : ℕ
  pub submits : Bool
  pub buffer : List ℕ
  pub packets : List Packet

-- A round of the loop in stop: the nanoseconds since the cancellation when the loop's condition is
-- read, and what comes back while handle_events runs.
pub record Round : Type 0 where
  pub elapsed : ℕ
  pub completions : List Completion

pub data Drained (A : Type 0) : Type 0 where
  done : A → Drained A
  panicked : Drained A
  waiting : Drained A

-- The condition of the loop in stop: a count in flight that is positive as an i32, and less than two
-- seconds since the cancellation.
abbrev pub still_waits : ℕ → ℕ → Bool
still_waits in_flight elapsed =
    (ltb 0 in_flight && ltb in_flight (2 ^ 31)) && ltb elapsed 2000000000

abbrev pub or_panic {ℓ} : {A : Type ℓ} {B : Type 0} → Option A → (A → Drained B) → Drained B
or_panic none f = panicked
or_panic (some a) f = f a

abbrev pub map_done : {A B : Type 0} → (A → B) → Drained A → Drained B
map_done f (done a) = done (f a)
map_done f panicked = panicked
map_done f waiting = waiting

module _ {fp : Double} where
  -- The callback of a transfer: on_in for the first half, on_out for the others.
  unfoldable pub call_back :
      Completion → StreamState fp → Shm Steps → Option (StreamState fp × Shm Steps)
  call_back c st shm =
      if ltb c.id iso_buffers
      then on_in c.submits c.buffer c.packets st shm
      else some (on_out c.submits st, shm)

  -- The libusb calls of a callback, which submits again while the stream runs.
  abbrev pub calls_of : Completion → StreamState fp → List Call
  calls_of c st =
      called_back c.id ∷ (if st.running then submit_transfer c.id c.submits ∷ [] else [])

  -- The callbacks of one handle_events.
  unfoldable pub call_backs :
      List Completion → StreamState fp → Shm Steps → Option (StreamState fp × Shm Steps × List Call)
  call_backs [] st shm = some (st, shm, [])
  call_backs (c ∷ cs) st shm = call_back c st shm >>= λ p.
      call_backs cs p.0 p.1 >>= λ q. some (q.0, q.1, calls_of c st ++ q.2)

  -- The loop of stop over its rounds: it ends when nothing is in flight (a count that is positive
  -- as an i32) or after two seconds.
  unfoldable pub drain :
      List Round → StreamState fp → Shm Steps → Drained (StreamState fp × Shm Steps × List Call)
  drain [] st shm = waiting
  drain (r ∷ rs) st shm =
      if still_waits st.in_flight r.elapsed
      then or_panic (call_backs r.completions st shm)
          (λ p. map_done (λ q. (q.0, q.1, handle_events_timeout ∷ (p.2 ++ q.2))) (drain rs p.0 p.1))
      else done (st, shm, [])

  -- stop
  unfoldable pub stop :
      List Round
      → Engine
      → StreamState fp
      → Shm Steps
      → Drained (StreamState fp × Shm Steps × List Call)
  stop rs eng st shm =
      map_done
        (λ p. (
          p.0,
          p.1,
          cancel_all eng.transfers ++ (p.2 ++ (free_all eng.transfers ++ let_go eng.interface)),
        ))
        (drain rs (record st { running = false }) shm)
