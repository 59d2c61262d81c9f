-- ===== src/Proxy/Concurrent.antt =====
-- internal/proxy/proxy_body.go with internal/capture/store.go: responses that are recorded by several
-- goroutines at once. One that has combined its entry, with a new id from the atomic counter, pushes
-- it under the lock of the store at any later time, and the API may clear the store in between.
pub mod Taken
pub mod Sound
pub mod Recorded
pub mod Alone
use goper.Base.{ℕ, zero, suc, List, [], ◌∷◌, ◌++◌, Option, none, some}
use goper.Base.Text.{Text}
use goper.Capture.Entry.{Time, Env, CapturedEntry}
use goper.Capture.Ring.{RingBuffer, push_locked, clear}
use goper.Capture.Recorder.{CaptureResult, combine_entry}

-- The store and the counter of ids, the entries that are combined and not yet pushed, and those that
-- were stored since the last clear, in the order of the lock.
pub record Recording : Type 0 where
  pub store : RingBuffer
  pub counter : ℕ
  pub pending : List CapturedEntry
  pub history : List CapturedEntry

-- A step of a goroutine, with what it reads from the clock. A push is that of one of the pending
-- entries.
pub data Event : Type 0 where
  combines : Time → Text → CapturedEntry → CaptureResult → Event
  pushes : Time → Text → ℕ → Event
  clears : Event

abbrev pub env_of : Recording → Time → Text → Env
env_of st now stamp = record { now = now; stamp = stamp; counter = st.counter }

-- One of the entries, and the others.
abbrev pub and_one :
    CapturedEntry
    → Option (CapturedEntry × List CapturedEntry)
    → Option (CapturedEntry × List CapturedEntry)
and_one x none = none
and_one x (some (e, rest)) = some (e, x ∷ rest)

unfoldable pub take_at : ℕ → List CapturedEntry → Option (CapturedEntry × List CapturedEntry)
take_at n [] = none
take_at zero (x ∷ xs) = some (x, xs)
take_at (suc n) (x ∷ xs) = and_one x (take_at n xs)

unfoldable pub push_one : Recording → Env → Option (CapturedEntry × List CapturedEntry) → Recording
push_one st env none = st
push_one st env (some (e, rest)) =
    let (rb, stored, subs, env') = push_locked env st.store e in
    record {
      store = rb;
      counter = env'.counter;
      pending = rest;
      history = st.history ++ stored ∷ [];
    }

unfoldable pub step : Recording → Event → Recording
unfolding push_one
step st (combines now stamp entry result) =
    let (e, env') = combine_entry (env_of st now stamp) entry result in
    record st { counter = env'.counter; pending = e ∷ st.pending }
step st (pushes now stamp n) = push_one st (env_of st now stamp) (take_at n st.pending)
step st clears = record st { store = clear st.store; history = [] }

unfoldable pub run : Recording → List Event → Recording
run st [] = st
run st (e ∷ es) = run (step st e) es

-- Before the first response.
abbrev pub begin : RingBuffer → ℕ → Recording
begin store counter = record { store = store; counter = counter; pending = []; history = [] }
