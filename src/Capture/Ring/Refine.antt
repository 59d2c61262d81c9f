-- ===== src/Capture/Ring/Refine.antt =====
-- internal/capture/store.go: the ring buffer against the list of its entries.
use goper.Base.{
  ℕ, zero, suc, ◌+◌, ◌-◌, ◌%◌, ◌<◌, ◌≤◌, true, false, List, [], ◌∷◌, ◌++◌, Option, none, some, ◌≡◌,
  inl, inr, refl, sym, ◌∙◌, arith, if◌then◌else◌, ◌==◌, length, get_elem?, select, length-append,
  length-replicate, get_or-replicate, mod_small, Option-cases, Bool-cases,
}
use goper.Base.Text.{Text}
use goper.Capture.Entry.{CapturedEntry, Env}
use goper.Capture.Filter.{ListOpts, matches, paginate}
use goper.Capture.Ring.{
  RingBuffer, slot, with_capacity, make_room, evict_oldest, write_tail, get, scan, scan_from,
  keep_slot, list, clear,
}
use goper.Capture.Ring.Spec.{
  Holds, keep_last, keep_last_all, find, position, find-position, find-none, position-lt,
}
use goper.Capture.Ring.Evict.{evict_oldest-Holds}
use goper.Capture.Ring.Write.{write_tail-Holds}

pub with_capacity-Holds : (env : Env) (n : ℕ) → 0 < n → Holds (with_capacity env n) []
unfolding with_capacity position
with_capacity-Holds env n p = record {
  sized = length-replicate n none;
  head_in = p;
  tail_at = sym (mod_small 0 n p);
  counted = refl;
  fits = omega arith;
  slots = λ i k. get_or-replicate n none ((0 + i) % n);
  indexed = λ id. refl;
  distinct = tt;
}

-- The room for one more entry is made at the cost of the oldest one.
trimmed : ℕ → List CapturedEntry → List CapturedEntry
trimmed n [] = []
trimmed n (x ∷ q) = if length (x ∷ q) == n then q else x ∷ q

make_room-Holds :
    (rb : RingBuffer) (q : List CapturedEntry)
    → Holds rb q
    → Holds (make_room rb) (trimmed rb.capacity q)
      × ((make_room rb).count < (make_room rb).capacity)
unfolding make_room trimmed evict_oldest
make_room-Holds rb [] h =
    let e : (rb.count == rb.capacity) ≡ false = ground (arith, h.counted, h.head_in) in
    rw e (h, omega (arith, h.counted, h.head_in))
make_room-Holds rb (x ∷ q) h = elim (Bool-cases (rb.count == rb.capacity)) [
  | inl full ↦
      let e : (length (x ∷ q) == rb.capacity) ≡ true = rw (← h.counted) full in
      rw (e, full) (evict_oldest-Holds rb x q h, ground (arith, h.counted, h.fits))
  | inr more ↦
      let e : (length (x ∷ q) == rb.capacity) ≡ false = rw (← h.counted) more in
      rw (e, more) (h, ground (arith, h.fits))
]

find-trimmed :
    (id : Text) (n : ℕ) (q : List CapturedEntry) → find id q ≡ none → find id (trimmed n q) ≡ none
unfolding find trimmed
find-trimmed id n [] h = refl
find-trimmed id n (x ∷ q) h = ground arith

trimmed-append :
    (n : ℕ) (q : List CapturedEntry) (e : CapturedEntry)
    → 0 < n
    → length q ≤ n
    → trimmed n q ++ e ∷ [] ≡ keep_last n (q ++ e ∷ [])
unfolding trimmed
trimmed-append n [] e p h = sym (keep_last_all n (e ∷ []) p)
trimmed-append n (x ∷ q) e p h = elim (Bool-cases (length (x ∷ q) == n)) [
  | inl full ↦
      let one : length ((x ∷ q) ++ e ∷ []) - n ≡ 1 =
        ground (arith, full, length-append (x ∷ q) (e ∷ [])) in
      rw (full, one)
  | inr more ↦ rw more (
      sym (
        keep_last_all n ((x ∷ q) ++ e ∷ []) (ground (arith, more, length-append (x ∷ q) (e ∷ [])))))
]

make_room-capacity : (rb : RingBuffer) → (make_room rb).capacity ≡ rb.capacity
unfolding make_room evict_oldest
make_room-capacity rb = ground arith

-- A stored entry whose id is new is appended, and only the newest `capacity` entries stay.
pub write-Holds :
    (rb : RingBuffer) (q : List CapturedEntry) (e : CapturedEntry)
    → Holds rb q
    → find e.id q ≡ none
    → Holds (write_tail (make_room rb) e) (keep_last rb.capacity (q ++ e ∷ []))
write-Holds rb q e h fresh =
    rw
      (← trimmed-append rb.capacity q e (omega (arith, h.head_in))
        (omega (arith, h.counted, h.fits)))
      (write_tail-Holds (make_room rb) e (trimmed rb.capacity q) (make_room-Holds rb q h).0
        (make_room-Holds rb q h).1 (find-trimmed e.id rb.capacity q fresh))

pub clear-Holds : (rb : RingBuffer) → 0 < rb.capacity → Holds (clear rb) []
unfolding clear position
clear-Holds rb p = record {
  sized = length-replicate rb.capacity none;
  head_in = p;
  tail_at = sym (mod_small 0 rb.capacity p);
  counted = refl;
  fits = omega arith;
  slots = λ i k. get_or-replicate rb.capacity none ((0 + i) % rb.capacity);
  indexed = λ id. refl;
  distinct = tt;
}

-- On a ring that holds a list of entries, Get returns the first entry of the list with the id, or nil
-- when there is none.
pub get-Holds :
    (rb : RingBuffer) (q : List CapturedEntry) (id : Text) → Holds rb q → get rb id ≡ find id q
unfolding get
get-Holds rb q id h =
    rw (h.indexed id, get)
      (elim (Option-cases (position id q)) [
        | inl e ↦ rw e (sym (find-none id q e))
        | inr (i, e) ↦ rw e (
            h.slots i (omega (arith, position-lt id q i e, h.counted, h.fits))
            ∙ find-position id q i e)
      ])

-- A slot by the number of a round, however the sum is written.
slot_at :
    (rb : RingBuffer) (i j : ℕ) (v : Option CapturedEntry)
    → i ≡ j
    → slot rb.buffer ((rb.head + i) % rb.capacity) ≡ v
    → slot rb.buffer ((rb.head + j) % rb.capacity) ≡ v
slot_at rb i j v e h = rw (← e) h

scan_from-select :
    (rb : RingBuffer) (opts : ListOpts) (rounds i : ℕ) (rest : List CapturedEntry)
    → length rest ≤ rounds
    → ((j : ℕ) → j < rounds → slot rb.buffer ((rb.head + (i + j)) % rb.capacity) ≡ get_elem? rest j)
    → scan_from rb opts rounds i ≡ select (matches opts) rest
unfolding scan_from keep_slot
scan_from-select rb opts zero i [] p s = refl
scan_from-select rb opts zero i (x ∷ rest) p s = absurd (omega arith)
scan_from-select rb opts (suc n) i [] p s =
    let nil = slot_at rb (i + 0) i none (omega arith) (s 0 (omega arith)) in
    rw (nil, keep_slot)
      (scan_from-select rb opts n (i + 1) [] (omega arith)
        (λ j k. slot_at rb (i + suc j) (i + 1 + j) _ (omega arith) (s (suc j) (omega arith))))
scan_from-select rb opts (suc n) i (x ∷ rest) p s =
    let here = slot_at rb (i + 0) i (some x) (omega arith) (s 0 (omega arith)) in
    let later =
      scan_from-select rb opts n (i + 1) rest (omega arith)
        (λ j k. slot_at rb (i + suc j) (i + 1 + j) _ (omega arith) (s (suc j) (omega arith))) in
    rw (here, keep_slot, later)

scan-Holds :
    (rb : RingBuffer) (opts : ListOpts) (q : List CapturedEntry)
    → Holds rb q
    → scan rb opts ≡ select (matches opts) q
unfolding scan
scan-Holds rb opts q h =
    scan_from-select rb opts rb.capacity 0 q (omega (arith, h.counted, h.fits))
      (λ j k. slot_at rb j (0 + j) _ (omega arith) (h.slots j k))

pub paginate-nil : (opts : ListOpts) → paginate [] opts ≡ []
unfolding paginate
paginate-nil opts = ground arith

-- `List` pages through the matching entries, oldest first.
pub list-Holds :
    (rb : RingBuffer) (opts : ListOpts) (q : List CapturedEntry)
    → Holds rb q
    → list rb opts ≡ paginate (select (matches opts) q) opts
unfolding list
list-Holds rb opts [] h =
    let e : (rb.count == 0) ≡ true = ground (arith, h.counted) in rw (e, paginate-nil opts)
list-Holds rb opts (x ∷ q) h =
    let e : (rb.count == 0) ≡ false = ground (arith, h.counted) in
    rw (e, scan-Holds rb opts (x ∷ q) h)
