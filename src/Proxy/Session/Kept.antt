-- ===== src/Proxy/Session/Kept.antt =====
-- internal/proxy/proxy.go: what a session leaves in the store.
use goper.Base.{
  ◌+◌, ◌-◌, ◌^◌, ◌<◌, ◌≤◌, List, [], ◌∷◌, ◌++◌, length, Option, none, some, ◌≡◌, inl, inr, refl,
  sym, ap, subst, ◌∙◌, arith, All, Bool-cases,
}
use mathlib.Core.List.{append_assoc, append-nil}
use goper.Base.Text.{Text}
use goper.Capture.Entry.{Env, CapturedEntry, new_entry_id}
use goper.Capture.Ids.{IsNotDash}
use goper.Capture.Ring.Spec.{keep_last, keep_last_all, keep_last-append}
use goper.Capture.Ring.History.{write_tail-capacity}
use goper.Capture.Recorder.{combine_entry}
use goper.Proxy.Body.{Response, BodyRead, read_body_bounded, fix_content_length}
use goper.Proxy.Body.Streaming.{read_body_bounded-response}
use goper.Proxy.Handlers.{
  Server, CaptureCtx, full_entry, after_read, record_response, handle_response,
}
use goper.Proxy.Handlers.Issued.{IsRecorded, IsReady}
use goper.Proxy.Handlers.Recording.{
  capture_streaming_lem, capture_response_into_lem, kept_after, record_response_lem,
}
use goper.Proxy.Session.{
  Exchange, at_response, user_data, exchange, session, entry_read, entry_of, recorded,
}

-- A step keeps the capacity of the ring, and counts at most one id.
abbrev IsTidy : Server → Env → Server × Env → Type 0
IsTidy s env x = (x.0.store.capacity ≡ s.store.capacity) × (x.1.counter ≤ env.counter + 1)

full_entry-counter :
    (s : Server) (env : Env) (ctx : CaptureCtx) (resp : Response) (body : Text)
    → (full_entry s env ctx resp body).1.counter ≡ env.counter + 1
unfolding full_entry combine_entry new_entry_id
full_entry-counter s env ctx resp body = refl

after_read-IsTidy :
    (s : Server) (env : Env) (ctx : CaptureCtx) (b : BodyRead) (resp : Response)
    → let x = after_read s env ctx b resp in IsTidy s env (x.0, x.1)
unfolding after_read
after_read-IsTidy s env ctx b resp = elim (Bool-cases b.failed) [
  | inl f ↦ rw f (refl, omega arith)
  | inr f ↦ rw f (elim (Bool-cases b.skipped) [
    | inl k ↦
        rw (k, capture_streaming_lem s env ctx resp)
          (write_tail-capacity s.store _, omega (arith, full_entry-counter s env ctx resp []))
    | inr k ↦
        rw
          (
            k,
            capture_response_into_lem s env ctx (fix_content_length resp b.body b.truncated) b.body,
          )
          (
            write_tail-capacity s.store _,
            omega (
              arith,
              full_entry-counter s env ctx (fix_content_length resp b.body b.truncated) b.body,
            ),
          )
  ])
]

record_response-IsTidy :
    (s : Server) (env : Env) (ctx : CaptureCtx) (resp : Response)
    → let x = record_response s env ctx resp in IsTidy s env (x.0, x.1)
unfolding record_response
record_response-IsTidy s env ctx resp =
    rw (read_body_bounded-response resp s.response_body_limit)
      (after_read-IsTidy s env ctx (read_body_bounded resp s.response_body_limit).0 resp)

kept_all :
    (s : Server) (env : Env) (q : List CapturedEntry)
    → IsRecorded s.store env q
    → keep_last s.store.capacity (q ++ []) ≡ q
kept_all s env q r =
    ap (keep_last s.store.capacity) (append-nil q)
    ∙ keep_last_all s.store.capacity q (omega (arith, r.holds.counted, r.holds.fits))

kept_after-entry :
    (s : Server) (env : Env) (b : BodyRead) (q : List CapturedEntry) (e : CapturedEntry)
    → IsRecorded s.store env q
    → kept_after b s.store.capacity q e ≡ keep_last s.store.capacity (q ++ entry_read e b)
unfolding kept_after
kept_after-entry s env b q e r = elim (Bool-cases b.failed) [
  | inl f ↦ rw f (sym (kept_all s env q r))
  | inr f ↦ rw f refl
]

-- What handling a response leaves.
abbrev IsKept : Server → Env → List CapturedEntry → List CapturedEntry → Server × Env → Type 0
IsKept s env q es x =
    IsRecorded x.0.store x.1 (keep_last s.store.capacity (q ++ es)) × IsTidy s env x

handle_response-IsKept :
    (s : Server) (env : Env) (ctx : Option CaptureCtx) (resp : Option Response)
    (q : List CapturedEntry)
    → IsRecorded s.store env q
    → IsReady env
    → let x = handle_response s env ctx resp in IsKept s env q (entry_of s env ctx resp) (x.0, x.1)
unfolding handle_response
handle_response-IsKept s env none resp q r ready =
    (subst (IsRecorded s.store env) (sym (kept_all s env q r)) r, (refl, omega arith))
handle_response-IsKept s env (some ctx) none q r ready =
    (subst (IsRecorded s.store env) (sym (kept_all s env q r)) r, (refl, omega arith))
handle_response-IsKept s env (some ctx) (some resp) q r ready =
    let b = (read_body_bounded resp s.response_body_limit).0 in
    let e = (full_entry s env ctx resp b.body).0 in
    let x = record_response s env ctx resp in
    (
      subst (IsRecorded x.0.store x.1) (kept_after-entry s env b q e r)
          (record_response_lem s env ctx resp q r ready).0,
      record_response-IsTidy s env ctx resp,
    )

exchange-IsKept :
    (s : Server) (env : Env) (x : Exchange) (q : List CapturedEntry)
    → IsRecorded s.store env q
    → All IsNotDash x.stamp
    → env.counter < 2 ^ 63 - 1
    → IsKept s env q
        (entry_of s (at_response env x) (user_data s env x) x.response)
        (exchange s env x)
unfolding exchange
exchange-IsKept s env x q r plain room =
    handle_response-IsKept s (at_response env x) (user_data s env x) x.response q
      (record { holds = r.holds; issued = r.issued }) (record { plain = plain; room = room })

-- A server whose store holds entries with ids that were handed out before lets exchanges pass. Its
-- store then holds those entries and behind them, in order, an entry for each exchange whose URL
-- passes the filters and whose response could be read, cut to the newest ones up to the capacity.
pub session-IsRecorded :
    (s : Server) (env : Env) (xs : List Exchange) (q : List CapturedEntry)
    → IsRecorded s.store env q
    → All (λ (x : Exchange). All IsNotDash x.stamp) xs
    → env.counter + length xs < 2 ^ 63
    → let (s', env') = session s env xs in
      IsRecorded s'.store env' (keep_last s.store.capacity (q ++ recorded s env xs))
unfolding session recorded
session-IsRecorded s env [] q r plain room =
    subst (IsRecorded s.store env) (sym (kept_all s env q r)) r
session-IsRecorded s env (x ∷ xs) q r plain room =
    let first = entry_of s (at_response env x) (user_data s env x) x.response in
    let s' = (exchange s env x).0 in
    let env' = (exchange s env x).1 in
    let later = recorded s' env' xs in
    let c = s.store.capacity in
    let (kept, (same, counted)) = exchange-IsKept s env x q r plain.0 (omega arith) in
    let regrouped : keep_last s'.store.capacity (keep_last c (q ++ first) ++ later)
        ≡ keep_last c (q ++ (first ++ later)) =
      ap (λ n. keep_last n (keep_last c (q ++ first) ++ later)) same
      ∙ keep_last-append c (q ++ first) later
      ∙ ap (keep_last c) (append_assoc q first later) in
    subst (IsRecorded (session s' env' xs).0.store (session s' env' xs).1) regrouped (
      session-IsRecorded s' env' xs (keep_last c (q ++ first)) kept plain.1
        (omega (arith, counted)))
