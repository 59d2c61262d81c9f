-- ===== src/Proxy/Concurrent/Recorded.antt =====
-- internal/proxy/proxy_body.go with internal/capture/store.go: what concurrent responses leave in the
-- store.
use goper.Base.{ℕ, ◌+◌, ◌^◌, ◌<◌, List, [], length, ◌≡◌, sym, subst, arith, All, select}
use goper.Base.Int.{ℤ}
use goper.Base.Text.{Text}
use goper.Capture.Entry.{Env}
use goper.Capture.Ring.{new_ring_buffer, list, get}
use goper.Capture.Filter.{ListOpts, matches, paginate}
use goper.Proxy.Start.Session.{kept_of, new_ring_buffer-capacity}
use goper.Capture.Ring.Spec.{Holds, keep_last, keep_last_all, find}
use goper.Capture.Ring.Refine.{list-Holds, get-Holds}
use goper.Capture.Ring.History.{new_ring_buffer-Holds}
use goper.Capture.Apart.{Apart}
use goper.Proxy.Concurrent.Sound.{IsSound, run-IsSound, IsPlain}
use goper.Proxy.Concurrent.{begin, Event, run}

begin-IsSound :
    (env : Env) (size : ℤ) (counter : ℕ)
    → IsSound (kept_of size) (begin (new_ring_buffer env size) counter)
begin-IsSound env size counter =
    let held = new_ring_buffer-Holds env size in
    let full = new_ring_buffer-capacity env size in
    record {
      same = full;
      positive = omega (arith, held.head_in, full);
      holds =
          subst (Holds (new_ring_buffer env size))
            (sym (keep_last_all (kept_of size) [] (omega arith))) held;
      issued = tt;
      issued_pending = tt;
      apart = tt;
      apart_pending = tt;
      fresh = tt;
    }

-- However the goroutines of any number of responses and the clears of the API interleave, beginning
-- with an empty buffer of any configured size: no two of the entries stored since the last clear have
-- the same id, List pages through the newest of them, up to the capacity, in the order in which they
-- were pushed, and Get finds these.
pub run_recorded :
    (env : Env) (size : ℤ) (counter : ℕ) (evs : List Event) (opts : ListOpts) (id : Text)
    → All IsPlain evs
    → counter + length evs < 2 ^ 63
    → let st = run (begin (new_ring_buffer env size) counter) evs in
      let q = keep_last (kept_of size) st.history in
      Apart st.history
      × (list st.store opts ≡ paginate (select (matches opts) q) opts)
      × (get st.store id ≡ find id q)
run_recorded env size counter evs opts id plain room =
    let s =
      run-IsSound (kept_of size) (begin (new_ring_buffer env size) counter) evs
        (begin-IsSound env size counter) plain room in
    (s.apart, list-Holds _ opts _ s.holds, get-Holds _ _ id s.holds)
