-- ===== src/Tests/Queries.antt =====
-- The theorems on attachment, the timeline, presence and names at concrete inputs.
use Prim.Native.Nat.{min}
use line6_coreaudio.Prelude.{
  ℕ, ◌+◌, ◌≤◌, ◌<◌, ◌≡◌, ◌≢◌, ◌⊎◌, refl, true, false, arith, List, [], ◌∷◌, some, ltb, replicate,
}
use line6_coreaudio.Plugin.{Globals, returned, no_err, object_device}
use line6_coreaudio.Plugin.Lifecycle.{open_failed, mapped}
use line6_coreaudio.Plugin.Timeline.{ticks_per_period, boundary, stamp, get_zero_time_stamp}
use line6_coreaudio.Plugin.Timeline.Laws.{
  IsClocked, get_zero_time_stamp_lem, call_times, call_times_catch_up,
}
use line6_coreaudio.Plugin.Presence.{Monitor, new_monitor, presence_stall_max, Round, monitor}
use line6_coreaudio.Plugin.Presence.Laws.{watch, watch_present_iff, host_view, monitor_reports}
use line6_coreaudio.Plugin.Names.{Names, current_name, device_name_copy}
use line6_coreaudio.Plugin.Names.Laws.{IsOwned, device_name_copy_lem, device_name_copy_swapped}
use line6_coreaudio.Tests.Frameworks.{
  whole_float, whole_float-IsOrdered, Entry, count_in, bytes_in, log_heap, log_heap-IsCounted,
}
use line6_coreaudio.Tests.State.{
  segment_at, shm4000, fresh_globals, running_globals, empty_names, empty_names-IsOwned, can_create,
}

clocked : (m : ℕ) → m < 1000 → IsClocked whole_float whole_float-IsOrdered running_globals m
unfolding ticks_per_period
clocked m few = record { rate = omega arith; far = omega arith; count = omega arith }

get_zero_time_stamp_lem_example :
    (n : ℕ) × (get_zero_time_stamp whole_float true object_device 50000 running_globals
      ≡ returned (
        no_err,
        some (stamp whole_float n running_globals),
        record running_globals { number_time_stamps = n },
      ))
    × (boundary whole_float running_globals n ≤ 50000)
    × ((n ≡ 0) ⊎ (n ≡ 0 + 1))
unfolding boundary ticks_per_period
get_zero_time_stamp_lem_example =
    get_zero_time_stamp_lem whole_float whole_float-IsOrdered 50000 running_globals refl
      (omega arith) (omega arith)

call_times_catch_up_example :
    call_times whole_float whole_float-IsOrdered 5 50000 running_globals
    ≡ returned (record running_globals { number_time_stamps = min (0 + 5) 2 })
unfolding boundary ticks_per_period
call_times_catch_up_example =
    call_times_catch_up whole_float whole_float-IsOrdered 5 50000 2 running_globals refl
      (clocked (2 + 1) (omega arith)) (omega arith) (omega arith) (omega arith)

watch_present_iff_example :
    (watch (4000 ∷ replicate 4 4000) new_monitor false).1 ≡ ltb 4 presence_stall_max
watch_present_iff_example = watch_present_iff 4000 4 new_monitor false (λ e. omega (arith, e))

abbrev some_rounds : List (Round ℕ)
some_rounds =
    record { mapping = open_failed; shm = segment_at 0 }
    ∷ record { mapping = mapped; shm = segment_at 10 }
    ∷ record { mapping = mapped; shm = segment_at 20 }
    ∷ []

monitor_reports_example :
    (s' : Monitor) × (g' : Globals ℕ) × (n : ℕ) × (monitor some_rounds new_monitor fresh_globals
      ≡ returned (s', g', n))
    × (g'.locked ≡ false)
    × (g'.device_present ≡ host_view n false)
monitor_reports_example = monitor_reports some_rounds new_monitor fresh_globals refl refl

-- A new segment's name, and a cache that holds "POD" for it.
abbrev pod_names : Names (List Entry)
pod_names = record {
  cached = some 0;
  cached_str = 80 ∷ 79 ∷ 68 ∷ [];
  heap = record { id = 0; count = 2; bytes = 80 ∷ 79 ∷ 68 ∷ [] } ∷ [];
}

device_name_copy_lem_example :
    (r : ℕ) × (n' : Names (List Entry)) × (device_name_copy log_heap shm4000 empty_names
        running_globals
      ≡ returned (r, n', running_globals))
    × (bytes_in n'.heap r ≡ current_name running_globals shm4000)
    × (2 ≤ count_in n'.heap r)
    × (n'.cached ≡ some r)
    × (n'.cached_str ≡ current_name running_globals shm4000)
    × IsOwned log_heap log_heap-IsCounted n'
device_name_copy_lem_example =
    device_name_copy_lem log_heap log_heap-IsCounted shm4000 empty_names running_globals refl
      empty_names-IsOwned (can_create _)

device_name_copy_swapped_example :
    (r' : ℕ) × (n' : Names (List Entry)) × (device_name_copy log_heap shm4000 pod_names
        fresh_globals
      ≡ returned (r', n', fresh_globals))
    × (0 ≢ r')
    × (count_in n'.heap 0 + 1 ≡ count_in pod_names.heap 0)
    × (bytes_in n'.heap 0 ≡ bytes_in pod_names.heap 0)
    × (count_in n'.heap r' ≡ 2)
    × (bytes_in n'.heap r' ≡ current_name fresh_globals shm4000)
unfolding current_name count_in
device_name_copy_swapped_example =
    device_name_copy_swapped log_heap log_heap-IsCounted shm4000 pod_names fresh_globals 0 refl refl
      (omega arith) refl (can_create _)
