-- ===== src/Capture/Ring.antt =====
-- internal/capture/store.go: the ring buffer. A method returns the new buffer; each runs whole
-- under the buffer's mutex. A slice of pointers has fewer than 2^60 elements, so no sum of two
-- indices wraps an int.
pub mod Spec
pub mod Evict
pub mod Write
pub mod Refine
pub mod History
pub mod Counters
use goper.Base.{
  ℕ, zero, suc, ◌+◌, ◌-◌, ◌%◌, ◌^◌, List, [], ◌∷◌, Option, none, some, ◌==◌, if◌then◌else◌, length,
  get_or, set, replicate,
}
use goper.Base.Int.{ℤ, pos, leb_ℤ, pos_part}
use goper.Base.Text.{Text, text_eq}
use goper.Base.Maps.{Dict, empty_dict, insert, delete}
use goper.Capture.Entry.{Time, is_zero_time, CapturedEntry, Env, new_entry_id}
use goper.Capture.Filter.{ListOpts, matches, paginate}

-- `buffer` holds pointers, nil or to an entry; `evictions` and `bytes_captured` are int64, as
-- their 64 bits; `subscribers` holds the addresses of channels.
pub record RingBuffer : Type 0 where
  pub buffer : List (Option CapturedEntry)
  pub head : ℕ
  pub tail : ℕ
  pub count : ℕ
  pub capacity : ℕ
  pub id_index : Dict ℕ
  pub start_time : Time
  pub evictions : ℕ
  pub bytes_captured : ℕ
  pub subscribers : List ℕ

pub record StoreStats : Type 0 where
  pub count : ℕ
  pub capacity : ℕ
  pub evictions : ℕ
  pub bytes_captured : ℕ
  pub start_time : Time

-- int64 addition, on bit patterns.
abbrev pub add64 : ℕ → ℕ → ℕ
add64 a b = (a + b) % 2 ^ 64

abbrev pub default_capacity : ℕ
default_capacity = 10_000

unfoldable pub with_capacity : Env → ℕ → RingBuffer
with_capacity env n = record {
  buffer = replicate n none;
  head = 0;
  tail = 0;
  count = 0;
  capacity = n;
  id_index = empty_dict;
  start_time = env.now;
  evictions = 0;
  bytes_captured = 0;
  subscribers = [];
}

unfoldable pub new_ring_buffer : Env → ℤ → RingBuffer
new_ring_buffer env capacity =
    with_capacity env (if leb_ℤ capacity (pos 0) then default_capacity else pos_part capacity)

-- `buffer[i]`: every index is below the capacity, so the default is never read.
abbrev pub slot : List (Option CapturedEntry) → ℕ → Option CapturedEntry
slot buffer i = get_or buffer i none

abbrev body_bytes : Option Text → ℕ
body_bytes none = 0
body_bytes (some body) = length body

unfoldable pub entry_bytes : CapturedEntry → ℕ
entry_bytes e = add64 (body_bytes e.request_body) (body_bytes e.response_body)

unfoldable pub assign_id : Env → CapturedEntry → CapturedEntry × Env
assign_id env entry =
    if text_eq entry.id []
    then (let (id, env') = new_entry_id env in (record entry { id = id }, env'))
    else (entry, env)

unfoldable pub finalize_entry : Env → CapturedEntry → CapturedEntry × Env
unfolding assign_id
finalize_entry env entry =
    let (named, env') = assign_id env entry in
    (if is_zero_time named.timestamp then record named { timestamp = env.now } else named, env')

-- The id of the entry in a slot. `evictOldest` runs on a full ring, whose slots are all in use.
abbrev forget : Option CapturedEntry → Dict ℕ → Dict ℕ
forget none index = index
forget (some e) index = delete e.id index

unfoldable pub evict_oldest : RingBuffer → RingBuffer
evict_oldest rb = record rb {
  id_index = forget (slot rb.buffer rb.head) rb.id_index;
  buffer = set rb.buffer rb.head none;
  head = (rb.head + 1) % rb.capacity;
  count = rb.count - 1;
  evictions = add64 rb.evictions 1;
}

unfoldable pub write_tail : RingBuffer → CapturedEntry → RingBuffer
write_tail rb entry = record rb {
  bytes_captured = add64 rb.bytes_captured (entry_bytes entry);
  buffer = set rb.buffer rb.tail (some entry);
  id_index = insert entry.id rb.tail rb.id_index;
  tail = (rb.tail + 1) % rb.capacity;
  count = rb.count + 1;
}

-- The room for one more entry.
unfoldable pub make_room : RingBuffer → RingBuffer
make_room rb = if rb.count == rb.capacity then evict_oldest rb else rb

-- `Push` up to the release of the lock: the new buffer, the entry as stored, the snapshot of the
-- subscribers, and what is left of the clock and counter.
unfoldable pub push_locked :
    Env → RingBuffer → CapturedEntry → RingBuffer × CapturedEntry × List ℕ × Env
push_locked env rb entry =
    let (stored, env') = finalize_entry env entry in
    (write_tail (make_room rb) stored, stored, rb.subscribers, env')

look_up : List (Option CapturedEntry) → Option ℕ → Option CapturedEntry
look_up buffer none = none
look_up buffer (some idx) = slot buffer idx

unfoldable pub get : RingBuffer → Text → Option CapturedEntry
unfolding look_up
get rb id = look_up rb.buffer (rb.id_index id)

-- `keep` and the append of `scan` for one slot.
keep_slot : ListOpts → Option CapturedEntry → List CapturedEntry → List CapturedEntry
keep_slot opts none rest = rest
keep_slot opts (some e) rest = if matches opts e then e ∷ rest else rest

-- The loop of `scan` from round `i`, with the rounds that are left.
scan_from : RingBuffer → ListOpts → ℕ → ℕ → List CapturedEntry
scan_from rb opts zero i = []
scan_from rb opts (suc rounds) i =
    keep_slot opts (slot rb.buffer ((rb.head + i) % rb.capacity)) (scan_from rb opts rounds (i + 1))

unfoldable pub scan : RingBuffer → ListOpts → List CapturedEntry
unfolding scan_from keep_slot
scan rb opts = scan_from rb opts rb.capacity 0

unfoldable pub list : RingBuffer → ListOpts → List CapturedEntry
list rb opts = if rb.count == 0 then [] else paginate (scan rb opts) opts

unfoldable pub clear : RingBuffer → RingBuffer
clear rb = record rb {
  buffer = replicate rb.capacity none;
  head = 0;
  tail = 0;
  count = 0;
  id_index = empty_dict;
}

unfoldable pub len : RingBuffer → ℕ
len rb = rb.count

unfoldable pub stats : RingBuffer → StoreStats
stats rb = record {
  count = rb.count;
  capacity = rb.capacity;
  evictions = rb.evictions;
  bytes_captured = rb.bytes_captured;
  start_time = rb.start_time;
}
