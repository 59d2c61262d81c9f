-- ===== src/Proxy/Session/Numbered.antt =====
-- internal/proxy/proxy.go with internal/capture/entry.go: the ids of the entries that a session writes.
use goper.Base.{
  ℕ, ◌+◌, ◌^◌, ◌<◌, ◌≤◌, List, [], ◌∷◌, ◌++◌, length, Option, none, some, ◌≡◌, ◌≢◌, inl, inr, refl,
  sym, ◌∙◌, arith, All, All-append, All-map, Bool-cases,
}
use goper.Base.Text.{Text}
use goper.Capture.Entry.{Env, CapturedEntry, itoa, new_entry_id}
use goper.Capture.Ids.{IsNotDash, entry_id_unique}
use goper.Capture.Recorder.{combine_entry}
use goper.Proxy.Body.{Response, BodyRead, read_body_bounded, fix_content_length}
use goper.Proxy.Body.Streaming.{read_body_bounded-response}
use goper.Capture.Apart.{Apart, Avoids}
use goper.Proxy.Handlers.{
  Server, CaptureCtx, full_entry, after_read, record_response, handle_response,
}
use goper.Proxy.Handlers.Recording.{
  full_entry_fixed, capture_streaming_lem, capture_response_into_lem,
}
use goper.Proxy.Session.{Exchange, at_response, user_data, exchange}
use goper.Proxy.Session.Captured.{entry_written, captured_of, captured}

-- An id that was handed out at a value of the counter above `low` and up to `high`.
record IsBetween (low high : ℕ) (id : Text) : Type 0 where
  stamp : Text
  at_count : ℕ
  plain : All IsNotDash stamp
  above : low < at_count
  up_to : at_count ≤ high
  spelled : id ≡ stamp ++ b'-' ∷ itoa at_count

abbrev AllBetween : ℕ → ℕ → List CapturedEntry → Type 0
AllBetween low high es = All (λ (e : CapturedEntry). IsBetween low high e.id) es

-- A step counts at most one id, that of its entry.
record IsNumbered (env env' : Env) (es : List CapturedEntry) : Type 0 where
  grows : env.counter ≤ env'.counter
  by_one : env'.counter ≤ env.counter + 1
  numbered : AllBetween env.counter env'.counter es
  apart : Apart es

same_clock : (env : Env) → IsNumbered env env []
same_clock env = record { grows = omega arith; by_one = omega arith; numbered = tt; apart = tt }

one_entry :
    (s : Server) (env : Env) (ctx : CaptureCtx) (resp : Response) (body : Text)
    → All IsNotDash env.stamp
    → let (e, env') = full_entry s env ctx resp body in IsNumbered env env' (e ∷ [])
unfolding full_entry combine_entry new_entry_id
one_entry s env ctx resp body plain = record {
  grows = omega arith;
  by_one = omega arith;
  numbered = (
    record {
      stamp = env.stamp;
      at_count = env.counter + 1;
      plain = plain;
      above = omega arith;
      up_to = omega arith;
      spelled = refl;
    },
    tt,
  );
  apart = (tt, tt);
}

without_entry :
    (env env' : Env) (es : List CapturedEntry) → IsNumbered env env' es → IsNumbered env env' []
without_entry env env' es i = record {
  grows = i.grows;
  by_one = i.by_one;
  numbered = tt;
  apart = tt;
}

after_read-IsNumbered :
    (s : Server) (env : Env) (ctx : CaptureCtx) (b : BodyRead) (resp : Response)
    → All IsNotDash env.stamp
    → IsNumbered env
        (after_read s env ctx b resp).1
        (entry_written (full_entry s env ctx resp b.body).0 b)
unfolding after_read
after_read-IsNumbered s env ctx b resp plain = elim (Bool-cases b.failed) [
  | inl f ↦ rw f (same_clock env)
  | inr f ↦ rw f (elim (Bool-cases b.skipped) [
    | inl k ↦
        rw (k, capture_streaming_lem s env ctx resp)
          (without_entry env (full_entry s env ctx resp []).1 _ (one_entry s env ctx resp [] plain))
    | inr k ↦
        rw
          (
            k,
            capture_response_into_lem s env ctx (fix_content_length resp b.body b.truncated) b.body,
            full_entry_fixed s env ctx resp b.body b.truncated,
          )
          (one_entry s env ctx resp b.body plain)
  ])
]

handle_response-IsNumbered :
    (s : Server) (env : Env) (ctx : Option CaptureCtx) (resp : Option Response)
    → All IsNotDash env.stamp
    → IsNumbered env (handle_response s env ctx resp).1 (captured_of s env ctx resp)
unfolding handle_response record_response
handle_response-IsNumbered s env none resp plain = same_clock env
handle_response-IsNumbered s env (some ctx) none plain = same_clock env
handle_response-IsNumbered s env (some ctx) (some resp) plain =
    rw (read_body_bounded-response resp s.response_body_limit)
      (after_read-IsNumbered s env ctx (read_body_bounded resp s.response_body_limit).0 resp plain)

wider :
    (low low' high high' : ℕ) (es : List CapturedEntry)
    → low' ≤ low
    → high ≤ high'
    → AllBetween low high es
    → AllBetween low' high' es
wider low low' high high' es p q a =
    All-map _ _
      (λ (e : CapturedEntry) (i : IsBetween low high e.id). record {
        stamp = i.stamp;
        at_count = i.at_count;
        plain = i.plain;
        above = omega (arith, i.above);
        up_to = omega (arith, i.up_to);
        spelled = i.spelled;
      })
      es a

-- An id of one stretch of the counter is none of those of a later one.
between_ne :
    (low middle high : ℕ) (id id' : Text)
    → high < 2 ^ 63
    → IsBetween low middle id
    → IsBetween middle high id'
    → id' ≢ id
between_ne low middle high id id' room i j same = omega (
  arith,
  i.up_to,
  j.above,
  entry_id_unique j.stamp i.stamp j.at_count i.at_count j.plain i.plain (omega (arith, j.up_to))
      (omega (arith, i.up_to, j.above, j.up_to)) (sym j.spelled ∙ same ∙ i.spelled),
)

Avoids-later :
    (low middle high : ℕ) (id : Text) (es : List CapturedEntry)
    → high < 2 ^ 63
    → IsBetween low middle id
    → AllBetween middle high es
    → Avoids id es
Avoids-later low middle high id [] room i a = tt
Avoids-later low middle high id (e ∷ es) room i a =
    (between_ne low middle high id e.id room i a.0, Avoids-later low middle high id es room i a.1)

Apart-join :
    (low middle high : ℕ) (es fs : List CapturedEntry)
    → high < 2 ^ 63
    → AllBetween low middle es
    → AllBetween middle high fs
    → Apart es
    → Apart fs
    → Apart (es ++ fs)
Apart-join low middle high [] fs room a b p q = q
Apart-join low middle high (e ∷ es) fs room a b p q = (
  All-append _ es fs p.0 (Avoids-later low middle high e.id fs room a.0 b),
  Apart-join low middle high es fs room a.1 b p.1 q,
)

session-IsBetween :
    (s : Server) (env : Env) (xs : List Exchange)
    → All (λ (x : Exchange). All IsNotDash x.stamp) xs
    → env.counter + length xs < 2 ^ 63
    → AllBetween env.counter (env.counter + length xs) (captured s env xs)
      × Apart (captured s env xs)
unfolding captured exchange
session-IsBetween s env [] plain room = (tt, tt)
session-IsBetween s env (x ∷ xs) plain room =
    let env0 = at_response env x in
    let ctx = user_data s env x in
    let i = handle_response-IsNumbered s env0 ctx x.response plain.0 in
    let s' = (exchange s env x).0 in
    let env' = (exchange s env x).1 in
    let (rest, apart) = session-IsBetween s' env' xs plain.1 (omega (arith, i.by_one)) in
    let top = env.counter + length (x ∷ xs) in
    let first = captured_of s env0 ctx x.response in
    (
      All-append _ first (captured s' env' xs)
          (wider env.counter env.counter env'.counter top first (omega arith)
            (omega (arith, i.by_one)) i.numbered)
          (wider env'.counter env.counter (env'.counter + length xs) top (captured s' env' xs)
            (omega (arith, i.grows)) (omega (arith, i.by_one)) rest),
      Apart-join env.counter env'.counter (env'.counter + length xs) first (captured s' env' xs)
          (omega (arith, i.by_one)) i.numbered rest i.apart apart,
    )

-- No two of the entries that a session writes have the same id.
pub captured-Apart :
    (s : Server) (env : Env) (xs : List Exchange)
    → All (λ (x : Exchange). All IsNotDash x.stamp) xs
    → env.counter + length xs < 2 ^ 63
    → Apart (captured s env xs)
captured-Apart s env xs plain room = (session-IsBetween s env xs plain room).1
