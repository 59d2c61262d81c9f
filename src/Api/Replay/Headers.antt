-- ===== src/Api/Replay/Headers.antt =====
-- internal/api/handlers_replay.go: which headers a replayed request has, and how much of the
-- response is returned.
use goper.Base.{
  Bool, true, List, [], ◌∷◌, Option, none, some, ◌≡◌, refl, sym, ap, ◌∙◌, inl, inr, arith,
  if◌then◌else◌, length, take, All, Bool-cases, fun_ext, take_all,
}
use native.Mathlib.Decide.{dec_lt}
use goper.Base.Text.{Text, text_eq, text_eq_iff}
use goper.Base.Maps.{Dict, empty_dict, insert}
use goper.Capture.Entry.{CapturedEntry, HeaderMap}
use goper.Capture.Ring.{RingBuffer, get}
use goper.Capture.Ring.Spec.{Holds, find}
use goper.Capture.Ring.Refine.{get-Holds}
use goper.Capture.Streams.{eof, read_enough, read_short, is_fault}
use goper.Api.Replay.{
  method_or_get, ReplayRequest, Reply, replayed, replay_max_body, is_hop_by_hop,
  copy_replay_headers, build_replay_request, read_reply, perform_replay, replay_entry,
}

-- The value of a name in a map that is listed in the order of one iteration.
unfoldable pub value_of : Text → HeaderMap → Option Text → Option Text
value_of name [] default = default
value_of name ((k, v) ∷ h) default = value_of name h (if text_eq k name then some v else default)

abbrev pub HasCanonicalNames : (Text → Text) → HeaderMap → Type 0
HasCanonicalNames canonical = All (λ (x : Text × Text). canonical x.0 ≡ x.0)

copy_replay_headers-value_of :
    (canonical : Text → Text) (header : Dict Text) (h : HeaderMap) (name : Text)
    → HasCanonicalNames canonical h
    → copy_replay_headers canonical header h name
      ≡ (if is_hop_by_hop name then header name else value_of name h (header name))
unfolding copy_replay_headers value_of
copy_replay_headers-value_of canonical header [] name c = elim (Bool-cases (is_hop_by_hop name)) [
  | inl e ↦ rw e refl
  | inr e ↦ rw e refl
]
copy_replay_headers-value_of canonical header ((k, v) ∷ h) name c =
    elim (Bool-cases (text_eq k name)) [
      | inl same ↦
          let e = (text_eq_iff k name).0 same in
          let alike : is_hop_by_hop name ≡ is_hop_by_hop k = ap is_hop_by_hop (sym e) in
          elim (Bool-cases (is_hop_by_hop k)) [
            | inl hop ↦
                rw (hop, copy_replay_headers-value_of canonical header h name c.1, alike ∙ hop) refl
            | inr hop ↦
                rw
                  (
                    hop,
                    copy_replay_headers-value_of canonical (insert (canonical k) v header) h name
                        c.1,
                    alike ∙ hop,
                    c.0,
                    same,
                  )
                  refl
          ]
      | inr other ↦ elim (Bool-cases (is_hop_by_hop k)) [
        | inl hop ↦ rw (hop, other) (copy_replay_headers-value_of canonical header h name c.1)
        | inr hop ↦
            rw (hop, other)
              (copy_replay_headers-value_of canonical (insert (canonical k) v header) h name c.1
                ∙ rw (c.0, other) refl)
      ]
    ]

-- The request that a replay of an entry has to send; an empty method is GET.
abbrev pub expected_request : CapturedEntry → ReplayRequest
expected_request e = record {
  method = method_or_get e.method;
  url = e.url;
  header = λ name. if is_hop_by_hop name then none else value_of name e.request_headers none;
  body = e.request_body;
}

build_replay_request_lem :
    (canonical : Text → Text) (accepts : Text → Text → Bool) (send : ReplayRequest → Option Reply)
    (e : CapturedEntry)
    → HasCanonicalNames canonical e.request_headers
    → accepts e.method e.url ≡ true
    → build_replay_request canonical accepts send e ≡ some (expected_request e)
unfolding build_replay_request
build_replay_request_lem canonical accepts send e c a = rw a (
    ap (λ d. some (record (expected_request e) { header = d }))
      (fun_ext
        (λ name. copy_replay_headers-value_of canonical empty_dict e.request_headers name c)))

read_reply_lem :
    (resp : Reply)
    → resp.body.ending ≡ eof
    → read_reply (some resp)
      ≡ replayed resp.status_code resp.header (take replay_max_body resp.body.bytes)
unfolding read_reply
read_reply_lem resp e = elim (dec_lt (length resp.body.bytes) replay_max_body) [
  | yes short ↦
      let (got, fine) = read_short resp.body replay_max_body short in
      rw (fine ∙ ap is_fault e, got)
        (ap (replayed resp.status_code resp.header)
          (sym (take_all replay_max_body resp.body.bytes (omega arith))))
  | no long ↦
      let (got, fine) = read_enough resp.body replay_max_body (omega arith) in rw (fine, got) refl
]

-- When an entry that the store holds is replayed, its header names are canonical, its method and
-- URL are accepted, and the target answers with a body that ends with EOF: the request that was
-- sent has the entry's method, or GET where that is empty, and its URL, body and headers but for the hop-by-hop ones, and the reply
-- has the status and the headers of the answer and at most the first MiB of its body.
pub replay_entry_lem :
    (canonical : Text → Text) (accepts : Text → Text → Bool) (send : ReplayRequest → Option Reply)
    (rb : RingBuffer) (q : List CapturedEntry) (id : Text) (e : CapturedEntry) (resp : Reply)
    → Holds rb q
    → find id q ≡ some e
    → HasCanonicalNames canonical e.request_headers
    → accepts e.method e.url ≡ true
    → send (expected_request e) ≡ some resp
    → resp.body.ending ≡ eof
    → replay_entry canonical accepts send (get rb id)
      ≡ replayed resp.status_code resp.header (take replay_max_body resp.body.bytes)
unfolding replay_entry perform_replay
replay_entry_lem canonical accepts send rb q id e resp h found c a s end =
    rw (get-Holds rb q id h, found, build_replay_request_lem canonical accepts send e c a, s)
      (read_reply_lem resp end)
