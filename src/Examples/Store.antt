-- ===== src/Examples/Store.antt =====
-- internal/capture/store.go on concrete entries and channels.
use goper.Base.{
  ℕ, ◌-◌, ◌%◌, ◌^◌, min, List, [], ◌∷◌, none, some, ◌≡◌, refl, arith, get_elem?, false,
  if◌then◌else◌,
}
use goper.Base.Int.{pos}
use goper.Base.Text.{Text, codes, text_eq}
use goper.Capture.Entry.{CapturedEntry, Env, zero_time}
use goper.Capture.Filter.{ListOpts, matches, paginate}
use goper.Capture.Ring.{
  RingBuffer, with_capacity, push_locked, finalize_entry, make_room, write_tail, get, list, stats,
  new_ring_buffer,
}
use goper.Capture.Ring.Spec.{Holds, keep_last, find}
use goper.Capture.Ring.Refine.{with_capacity-Holds, get-Holds, list-Holds}
use goper.Capture.Ring.Counters.{total_bytes, stats-push_all}
use goper.Capture.Ring.History.{push_all, push_locked-Holds, push_all-Holds}
use goper.Capture.Subscribers.{
  World, Channel, Heap, push, begin, leave, deliver_next, run, step, contains, deliver, deliver_at,
  begin_push, send_or_skip,
}
use goper.Capture.Subscribers.Bounded.{IsBounded, run-IsBounded}
use goper.Capture.Subscribers.Sends.{after_send}
use goper.Capture.Subscribers.Delivery.{push_delivers}
use goper.Capture.Subscribers.Safety.{IsWired}
use goper.Capture.Subscribers.Interleavings.{step-IsWired, leave_during_push_panics}

abbrev entry_with : Text → CapturedEntry
entry_with id = record {
  id = id;
  timestamp = zero_time;
  duration_ms = pos 3;
  method = codes "GET";
  url = codes "http://a/";
  scheme = codes "http";
  host = codes "a";
  path = codes "/";
  request_headers = [];
  request_body = none;
  status_code = pos 200;
  response_headers = [];
  response_body = some (codes "{}");
  content_type = codes "application/json";
}

abbrev first : CapturedEntry
first = entry_with (codes "1")

abbrev second : CapturedEntry
second = entry_with (codes "2")

abbrev third : CapturedEntry
third = entry_with (codes "3")

abbrev morning : Env
morning = record { now = zero_time; stamp = codes "20260101080000"; counter = 6 }

abbrev two_slots : RingBuffer
two_slots = with_capacity morning 2

two_slots-Holds : Holds two_slots []
two_slots-Holds = with_capacity-Holds morning 2 (omega arith)

push_locked-Holds_example :
    Holds
      (push_locked morning two_slots first).0
      (keep_last 2 ((push_locked morning two_slots first).1 ∷ []))
unfolding find with_capacity
push_locked-Holds_example = (push_locked-Holds morning two_slots [] first two_slots-Holds refl).0

abbrev three : List CapturedEntry
three = first ∷ second ∷ third ∷ []

abbrev full_ring : RingBuffer
full_ring = push_all two_slots three

full_ring-Holds : Holds full_ring (second ∷ third ∷ [])
unfolding find text_eq with_capacity
full_ring-Holds =
    push_all-Holds 2 two_slots [] three refl two_slots-Holds (refl, (refl, (refl, tt)))

get-Holds_example : get full_ring (codes "1") ≡ none
unfolding find text_eq
get-Holds_example = get-Holds full_ring (second ∷ third ∷ []) (codes "1") full_ring-Holds

abbrev pub last_only : ListOpts
last_only = record {
  since = zero_time;
  method = codes "GET";
  status = pos 0;
  url = [];
  limit = pos 5;
  offset = pos 1;
}

list-Holds_example : list full_ring last_only ≡ third ∷ []
unfolding matches paginate text_eq
list-Holds_example = list-Holds full_ring last_only (second ∷ third ∷ []) full_ring-Holds

abbrev open_channel : Channel
open_channel = record { queue = []; closed = false }

abbrev watched : RingBuffer
watched = record two_slots { subscribers = 0 ∷ 1 ∷ [] }

abbrev channels : Heap
channels = open_channel ∷ open_channel ∷ []

push_delivers_example :
    (heap : Heap) × (push morning watched first channels
      ≡ some (write_tail (make_room watched) (finalize_entry morning first).0, heap))
    × ((d : ℕ)
        → get_elem? heap d ≡ (
            if contains d (0 ∷ 1 ∷ [])
            then after_send (finalize_entry morning first).0 (get_elem? channels d)
            else get_elem? channels d))
unfolding with_capacity
push_delivers_example =
    push_delivers morning watched first channels (refl, (refl, tt)) (omega arith)

abbrev watching : World
watching = record { ring = watched; heap = channels; pending = [] }

step-IsWired_example : (w : World) × (step (leave 1) watching ≡ some w) × IsWired w
unfolding with_capacity
step-IsWired_example =
    step-IsWired (leave 1) watching
      (record { all_open = (refl, (refl, tt)); distinct = omega arith; waiting = tt }) tt

abbrev one_sent : World
one_sent = record {
  ring = (push_locked morning watched first).0;
  heap =
      record { queue = (push_locked morning watched first).1 ∷ []; closed = false }
      ∷ open_channel
      ∷ [];
  pending = (1 ∷ [], (push_locked morning watched first).1) ∷ [];
}

run-IsBounded_example : IsBounded one_sent.heap
unfolding with_capacity run step begin_push deliver deliver_at send_or_skip push_locked
run-IsBounded_example =
    run-IsBounded (begin morning first ∷ deliver_next 0 ∷ []) watching one_sent
      (omega arith, (omega arith, tt)) refl

leave_during_push_panics_example :
    run (begin morning first ∷ leave 1 ∷ deliver_next 0 ∷ deliver_next 0 ∷ []) watching ≡ none
unfolding with_capacity contains
leave_during_push_panics_example =
    leave_during_push_panics morning first watched channels 1 (refl, (refl, tt)) refl

stats-push_all_example :
    let s = stats (push_all (new_ring_buffer morning (pos 2)) (first ∷ second ∷ third ∷ [])) in
    (s.capacity ≡ (new_ring_buffer morning (pos 2)).capacity)
    × (s.count ≡ min 3 (new_ring_buffer morning (pos 2)).capacity)
    × (s.evictions ≡ (3 - (new_ring_buffer morning (pos 2)).capacity) % 2 ^ 64)
    × (s.bytes_captured ≡ total_bytes (first ∷ second ∷ third ∷ []) % 2 ^ 64)
stats-push_all_example = stats-push_all morning (pos 2) (first ∷ second ∷ third ∷ [])
