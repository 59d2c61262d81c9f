-- ===== src/Capture/Ring/Counters.antt =====
-- internal/capture/store.go: the counters that Stats reports after many pushes.
use goper.Base.{
  ℕ, suc, ◌+◌, ◌-◌, ◌%◌, ◌^◌, ◌<◌, ◌≤◌, List, [], ◌∷◌, length, min, ◌≡◌, refl, ap, ◌∙◌, arith,
}
use goper.Base.Int.{ℤ}
use goper.Capture.Entry.{Env, CapturedEntry}
use goper.Capture.Ring.{
  RingBuffer, entry_bytes, body_bytes, with_capacity, new_ring_buffer, evict_oldest, make_room,
  write_tail, stats,
}
use goper.Capture.Ring.History.{push_all}

-- The bytes of all bodies, counted without wrap-around.
abbrev pub total_bytes : List CapturedEntry → ℕ
total_bytes [] = 0
total_bytes (e ∷ es) = body_bytes e.request_body + body_bytes e.response_body + total_bytes es

mod_add_left : (a k : ℕ) → (a % 2 ^ 64 + k) % 2 ^ 64 ≡ (a + k) % 2 ^ 64
mod_add_left a k = omega arith

-- One push, on a buffer that is not over its capacity.
record Pushed (rb : RingBuffer) (e : CapturedEntry) (r : RingBuffer) : Type 0 where
  capacity : r.capacity ≡ rb.capacity
  count : r.count ≡ min (rb.count + 1) rb.capacity
  evictions : r.evictions ≡ (rb.evictions + (rb.count + 1 - rb.capacity)) % 2 ^ 64
  bytes : r.bytes_captured ≡ (rb.bytes_captured + entry_bytes e) % 2 ^ 64

push-Pushed :
    (rb : RingBuffer) (e : CapturedEntry)
    → 0 < rb.capacity
    → rb.count ≤ rb.capacity
    → rb.evictions < 2 ^ 64
    → Pushed rb e (write_tail (make_room rb) e)
unfolding write_tail make_room evict_oldest
push-Pushed rb e p h v = record {
  capacity = ground arith;
  count = ground (arith, p, h);
  evictions = ground (arith, p, h, v);
  bytes = ground arith;
}

-- The counters after pushes, from those before.
record Counted (rb : RingBuffer) (es : List CapturedEntry) (r : RingBuffer) : Type 0 where
  capacity : r.capacity ≡ rb.capacity
  count : r.count ≡ min (rb.count + length es) rb.capacity
  evictions : r.evictions ≡ (rb.evictions + (rb.count + length es - rb.capacity)) % 2 ^ 64
  bytes : r.bytes_captured ≡ (rb.bytes_captured + total_bytes es) % 2 ^ 64

entry_bytes-mod :
    (e : CapturedEntry)
    → entry_bytes e ≡ (body_bytes e.request_body + body_bytes e.response_body) % 2 ^ 64
unfolding entry_bytes
entry_bytes-mod e = refl

-- What one push and then the others add to the counters.
evictions_on :
    (v c n m v' c' n' : ℕ)
    → c ≤ n
    → v' ≡ (v + (c + 1 - n)) % 2 ^ 64
    → c' ≡ min (c + 1) n
    → n' ≡ n
    → (v' + (c' + m - n')) % 2 ^ 64 ≡ (v + (c + suc m - n)) % 2 ^ 64
evictions_on v c n m v' c' n' h ev ct cp =
    let more : v + (c + 1 - n) + (min (c + 1) n + m - n) ≡ v + (c + suc m - n) = omega (arith, h) in
    rw (ev, ct, cp)
      (mod_add_left (v + (c + 1 - n)) (min (c + 1) n + m - n) ∙ ap (λ k. k % 2 ^ 64) more)

bytes_on :
    (b x t b' y : ℕ)
    → b' ≡ (b + y) % 2 ^ 64
    → y ≡ x % 2 ^ 64
    → (b' + t) % 2 ^ 64 ≡ (b + (x + t)) % 2 ^ 64
bytes_on b x t b' y e f = omega (arith, e, f)

push_all-Counted :
    (rb : RingBuffer) (es : List CapturedEntry)
    → 0 < rb.capacity
    → rb.count ≤ rb.capacity
    → rb.evictions < 2 ^ 64
    → rb.bytes_captured < 2 ^ 64
    → Counted rb es (push_all rb es)
unfolding push_all
push_all-Counted rb [] p h v w = record {
  capacity = refl;
  count = omega (arith, h);
  evictions = omega (arith, h, v);
  bytes = omega (arith, w);
}
push_all-Counted rb (e ∷ es) p h v w =
    let r = write_tail (make_room rb) e in
    let one = push-Pushed rb e p h v in
    let then' =
      push_all-Counted r es (omega (arith, p, one.capacity))
        (omega (arith, one.count, one.capacity)) (omega (arith, one.evictions))
        (omega (arith, one.bytes)) in
    record {
      capacity = then'.capacity ∙ one.capacity;
      count = then'.count ∙ omega (arith, one.count, one.capacity, h);
      evictions =
          then'.evictions
          ∙ evictions_on rb.evictions rb.count rb.capacity (length es) r.evictions r.count
              r.capacity h one.evictions one.count one.capacity;
      bytes =
          then'.bytes
          ∙ bytes_on rb.bytes_captured (body_bytes e.request_body + body_bytes e.response_body)
              (total_bytes es) r.bytes_captured (entry_bytes e) one.bytes (entry_bytes-mod e);
    }

new_counters :
    (env : Env) (size : ℤ)
    → let rb = new_ring_buffer env size in
      (0 < rb.capacity) × (rb.count ≡ 0) × (rb.evictions ≡ 0) × (rb.bytes_captured ≡ 0)
unfolding new_ring_buffer with_capacity
new_counters env size = (ground arith, refl, refl, refl)

-- After pushes into a new buffer, Stats reports the entries that it holds, as many as were pushed but
-- at most its capacity, the number of the others as evictions, and the bytes of all their bodies; the
-- last two modulo 2 ^ 64.
pub stats-push_all :
    (env : Env) (size : ℤ) (es : List CapturedEntry)
    → let rb = new_ring_buffer env size in
      let s = stats (push_all rb es) in
      (s.capacity ≡ rb.capacity)
      × (s.count ≡ min (length es) rb.capacity)
      × (s.evictions ≡ (length es - rb.capacity) % 2 ^ 64)
      × (s.bytes_captured ≡ total_bytes es % 2 ^ 64)
unfolding stats
stats-push_all env size es =
    let rb = new_ring_buffer env size in
    let (positive, empty, never, nothing) = new_counters env size in
    let c =
      push_all-Counted rb es positive (omega (arith, empty)) (omega (arith, never))
        (omega (arith, nothing)) in
    (
      c.capacity,
      c.count ∙ omega (arith, empty),
      c.evictions ∙ omega (arith, empty, never),
      c.bytes ∙ omega (arith, nothing),
    )
