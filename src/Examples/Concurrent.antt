-- ===== src/Examples/Concurrent.antt =====
-- internal/proxy/proxy_body.go with internal/capture/store.go: two responses at once, and a clear.
use goper.Base.{List, [], ◌∷◌, some, ◌≡◌, arith, select}
use goper.Base.Int.{pos}
use goper.Base.Text.{codes}
use goper.Capture.Recorder.{CaptureResult}
use goper.Capture.Filter.{matches, paginate}
use goper.Capture.Ring.{new_ring_buffer, list, get}
use goper.Capture.Ring.Spec.{keep_last, find}
use goper.Proxy.Concurrent.{Event, combines, pushes, clears, begin, run}
use goper.Capture.Apart.{Apart}
use goper.Proxy.Concurrent.Recorded.{run_recorded}
use goper.Examples.Handlers.{noon}
use goper.Examples.Output.{answered}
use goper.Examples.Store.{last_only}

abbrev ok_result : CaptureResult
ok_result = record {
  status_code = pos 200;
  response_headers = [];
  response_body = some (codes "{}");
  content_type = codes "application/json";
  duration_ms = pos 1;
}

-- The second response overtakes the first, which is pushed after a clear.
abbrev overtaking : List Event
overtaking =
    combines 5 (codes "20260101") (answered (codes "a") (codes "1")) ok_result
    ∷ combines 6 (codes "20260101") (answered (codes "b") (codes "2")) ok_result
    ∷ pushes 6 (codes "20260101") 0
    ∷ clears
    ∷ pushes 7 (codes "20260101") 0
    ∷ []

run_recorded_example :
    let st = run (begin (new_ring_buffer noon (pos 2)) 40) overtaking in
    let q = keep_last 2 st.history in
    Apart st.history
    × (list st.store last_only ≡ paginate (select (matches last_only) q) last_only)
    × (get st.store (codes "20260101-41") ≡ find (codes "20260101-41") q)
run_recorded_example =
    run_recorded noon (pos 2) 40 overtaking last_only (codes "20260101-41") (omega arith)
      (omega arith)
