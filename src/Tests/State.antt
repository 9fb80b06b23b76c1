-- ===== src/Tests/State.antt =====
-- Test data: a segment with 4000 frames of two channels, the plugin's globals, and the ring.
use line6_coreaudio.Prelude.{ℕ, ◌+◌, ◌≤◌, ◌<◌, ◌≢◌, refl, true, false, arith, List, [], ◌∷◌, none}
use line6_coreaudio.Shm.{Shm, shm_magic, shm_version, slot, store}
use line6_coreaudio.Stream.{Holds}
use line6_coreaudio.Stream.Producer.{Produced, begin, put}
use line6_coreaudio.Plugin.{Globals, Cursor}
use line6_coreaudio.Plugin.Io.{no_cycle}
use line6_coreaudio.Plugin.Io.Window.{IsSized}
use line6_coreaudio.Plugin.Io.Delivery.{IsReady, SeesUpTo}
use line6_coreaudio.Plugin.Io.Clients.{IsPaced}
use line6_coreaudio.Plugin.Names.{Names}
use line6_coreaudio.Plugin.Names.Laws.{IsOwned, CanCreate}
use line6_coreaudio.Plugin.Property.{Selector, Scope, Address}
use line6_coreaudio.Plugin.Property.Query.{Qualifier}
use line6_coreaudio.Plugin.Property.Agree.{IsLaidOut}
use line6_coreaudio.Tests.Frameworks.{Entry, fresh_in, log_heap, log_heap-IsCounted, core_audio_64}

-- Each sample of the ring is its own index, and the stream is the one that such a ring shows.
abbrev pub old_ring : ℕ → ℕ
old_ring i = i

abbrev pub stream : ℕ → ℕ → ℕ
stream f c = slot 2 f c

-- The daemon has stored one sample of the next frame.
abbrev pub new_ring : ℕ → ℕ
new_ring = store old_ring (slot 2 4000 0) (stream 4000 0)

abbrev pub seen : ℕ → ℕ → ℕ → ℕ
seen i c = new_ring

abbrev pub pod_bytes : List ℕ
pod_bytes = 80 ∷ 79 ∷ 68 ∷ 0 ∷ []

abbrev pub segment_at : ℕ → Shm ℕ
segment_at w = record {
  magic = shm_magic;
  version = shm_version;
  sample_rate = 48000;
  channels = 2;
  ring_frames = 65536;
  latency_frames = 0;
  name = pod_bytes;
  write_frames = w;
  ring = old_ring;
}

abbrev pub shm4000 : Shm ℕ
shm4000 = segment_at 4000

abbrev pub cursor_at : ℕ → Cursor
cursor_at n = record { read_frame = n; cycle_read_frame = n; last_cycle = no_cycle }

abbrev pub fresh_globals : Globals ℕ
fresh_globals = record {
  locked = false;
  ref_count = 1;
  has_host = true;
  io_running = 0;
  host_ticks_per_frame = 2;
  anchor_host_time = 1000;
  number_time_stamps = 0;
  attached = false;
  cursor = cursor_at 0;
  device_present = false;
  monitor_run = true;
}

abbrev pub running_globals : Globals ℕ
running_globals = record fresh_globals { attached = true; io_running = 1; cursor = cursor_at 1000 }

abbrev pub empty_names : Names (List Entry)
empty_names = record { cached = none; cached_str = []; heap = [] }

pub old_held : (lo hi : ℕ) → Holds 2 stream lo hi old_ring
old_held lo hi f c from before low = refl

pub one_stored : Produced 2 stream old_ring 4000 new_ring 4000 1
one_stored = put begin (omega arith)

pub seen_up_to : (limit : ℕ) → 4000 < limit → SeesUpTo shm4000 stream old_ring 4000 limit seen
seen_up_to limit beyond i c = (4000, 1, one_stored, omega arith, beyond)

pub shm4000-IsSized : IsSized 4000 512 0
shm4000-IsSized = record {
  buffer = omega arith;
  latency = omega arith;
  default_fits = omega arith;
  clock = omega arith;
}

pub running-IsReady : (w : ℕ) → IsReady (segment_at w) running_globals
running-IsReady w = record {
  free = refl;
  attached = refl;
  some_channel = omega arith;
  few_channels = omega arith;
}

pub empty_names-IsOwned : IsOwned log_heap log_heap-IsCounted empty_names
unfolding IsOwned
empty_names-IsOwned r none_there = cc

pub can_create : (buf : List ℕ) → CanCreate log_heap log_heap-IsCounted buf
can_create buf h = (fresh_in h, record { id = fresh_in h; count = 1; bytes = buf } ∷ h, refl)

abbrev pub core_audio_64-IsLaidOut : IsLaidOut core_audio_64
core_audio_64-IsLaidOut = record { some_bytes = omega arith; same_size = refl }

abbrev pub no_qualifier : Qualifier
no_qualifier = record { size = 0; given = false; uid = none }

abbrev pub at_main : Selector → Scope → Address
at_main sel scope = record { selector = sel; scope = scope; element = 0 }

-- A cycle at 4000 frames, far enough behind them.
pub IsPaced-at :
    (at last counter : ℕ)
    → at + 512 ≤ 4000
    → counter ≢ last
    → IsPaced 2 stream old_ring 4000 512 at last
        (record { counter = counter; shm = shm4000; seen = seen })
IsPaced-at at last counter written fresh = record {
  few = omega arith;
  few_channels = omega arith;
  same_device = refl;
  sized = shm4000-IsSized;
  ahead = record { written = written; kept = omega arith };
  fresh = fresh;
  sees = seen_up_to (4000 + 512) (omega arith);
}
