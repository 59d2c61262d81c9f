-- ===== src/Capture/Recorder/Bodies.antt =====
-- internal/capture/capture.go: which request bodies are recorded, and what is proxied on.
use goper.Base.{
  zero, suc, ◌+◌, ◌<◌, ◌≡◌, refl, sym, ap, ◌∙◌, inl, inr, arith, true, false, ◌&&◌, [], Option,
  none, some, ◌==◌, ltb, if◌then◌else◌, length, length-take, Bool-cases,
}
use native.Mathlib.Decide.{dec_lt}
use goper.Base.Int.{ℤ, pos, negsuc, leb_ℤ}
use goper.Base.Text.{Text}
use goper.Capture.Streams.{
  Reader, eof, fault, is_fault, read_all, multi_reader, max_int64, succ_int64,
  read_limited-multi_reader, read_enough, read_short, read_all-multi_reader,
}
use goper.Capture.Recorder.{
  Request, request_entry, take_body, read_bounded, capture_body_of, capture_request, over_limit,
  drop_over, DefaultRecorder, recorder_capture_request,
}

read_bounded-multi_reader :
    (body : Reader) (limit : ℤ)
    → multi_reader (read_bounded body limit).got (read_bounded body limit).left ≡ body
unfolding read_bounded
read_bounded-multi_reader body limit = elim (Bool-cases (leb_ℤ limit (pos 0))) [
  | inl e ↦ rw e (read_all-multi_reader body)
  | inr e ↦ rw e (read_limited-multi_reader body (succ_int64 limit))
]

-- The body that a limit lets through: 0 and less mean no limit.
abbrev pub kept_body : ℤ → Text → Option Text
kept_body (pos n) bytes = if ltb 0 n && ltb n (length bytes) then none else some bytes
kept_body (negsuc n) bytes = some bytes

abbrev pub InRange : ℤ → Type 0
InRange (pos n) = n < max_int64
InRange (negsuc n) = Unit

read_bounded-kept :
    (body : Reader) (limit : ℤ)
    → InRange limit
    → body.ending ≡ eof
    → ((read_bounded body limit).failed ≡ false)
      × (drop_over limit (some (read_bounded body limit).got) ≡ kept_body limit body.bytes)
unfolding read_bounded drop_over over_limit read_all
read_bounded-kept body (negsuc n) r e =
    let low : leb_ℤ (negsuc n) (pos 0) ≡ true = ground arith in rw low (ap is_fault e, ground arith)
read_bounded-kept body (pos zero) r e = (ap is_fault e, refl)
read_bounded-kept body (pos (suc n)) r e =
    let high : leb_ℤ (pos (suc n)) (pos 0) ≡ false = ground arith in
    let m : (suc n == max_int64) ≡ false = ground arith in
    rw (high, m)
      (elim (dec_lt (suc n) (length body.bytes)) [
        | yes large ↦
            let (got, fine) = read_enough body (suc n + 1) (omega arith) in
            (fine, rw got (ground (arith, length-take (suc n + 1) body.bytes)))
        | no small ↦
            let (got, fine) = read_short body (suc n + 1) (omega arith) in
            (fine ∙ ap is_fault e, rw got (ground arith))
      ])

capture_body_of-some :
    (req : Request) (limit : ℤ) (o : Option Reader) (body : Reader)
    → o ≡ some body
    → capture_body_of req limit o ≡ take_body req (read_bounded body limit)
unfolding capture_body_of
capture_body_of-some req limit none body e = cc
capture_body_of-some req limit (some r) body e = cc

-- Where reading succeeds the request is restored.
captured :
    (req : Request) (limit : ℤ) (body : Reader)
    → req.body ≡ some body
    → (read_bounded body limit).failed ≡ false
    → capture_request req limit ≡ (request_entry req (some (read_bounded body limit).got), req)
unfolding capture_request
captured req limit body present fine =
    capture_body_of-some req limit req.body body present
    ∙ rw fine (
        ap (λ b. (request_entry req (some (read_bounded body limit).got), record req { body = b }))
          (ap some (read_bounded-multi_reader body limit) ∙ sym present))

-- With EOF at the end of the body, whatever the limit below the largest int64: the request that is
-- proxied on is the request as it came, and its body is recorded unless it exceeds a positive
-- limit.
pub recorder_capture_request_lem :
    (r : DefaultRecorder) (req : Request) (body : Reader)
    → req.body ≡ some body
    → InRange r.request_body_limit
    → body.ending ≡ eof
    → recorder_capture_request r req
      ≡ (request_entry req (kept_body r.request_body_limit body.bytes), req)
unfolding recorder_capture_request
recorder_capture_request_lem r req body present h e =
    let (fine, kept) = read_bounded-kept body r.request_body_limit h e in
    rw (captured req r.request_body_limit body present fine)
      (ap (λ b. (request_entry req b, req)) kept)

-- The gap: when reading the body ends in an error, the bytes that were read are gone from the
-- request that is proxied on.
pub capture_request_loses :
    (req : Request) (body : Reader) (limit : ℤ)
    → req.body ≡ some body
    → leb_ℤ limit (pos 0) ≡ true
    → body.ending ≡ fault
    → capture_request req limit
      ≡ (request_entry req none, record req { body = some (record { bytes = []; ending = fault }) })
unfolding capture_request read_bounded read_all
capture_request_loses req body limit present low e =
    capture_body_of-some req limit req.body body present ∙ rw (low, e)
