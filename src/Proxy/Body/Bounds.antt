-- ===== src/Proxy/Body/Bounds.antt =====
-- internal/proxy/proxy_body.go: how much of a body is read, when it counts as truncated, and which
-- length the client is told.
use goper.Base.{
  ℕ, ◌+◌, ◌<◌, ◌≡◌, ap, ◌∙◌, inl, inr, arith, Bool, true, false, [], Option, none, some, ◌==◌, ltb,
  if◌then◌else◌, length, take, length-take, Bool-cases,
}
use goper.Base.Int.{ℤ, pos, ltb_ℤ}
use goper.Base.Text.{Text}
use goper.Capture.Streams.{
  Reader, ReadResult, Ending, eof, fault, is_fault, read_limited, read_enough, read_short,
  max_int64,
}
use goper.Proxy.Body.{
  Response, BodyRead, is_streaming_response, read_for_capture, capture_exceeded_limit, rewire,
  read_present, read_body_of, read_body_bounded,
}

pub rewire_read :
    (resp : Response) (r : ReadResult) (limit : ℤ) (bytes : Text) (cut : Bool)
    → r.failed ≡ false
    → r.got ≡ bytes
    → capture_exceeded_limit resp bytes limit ≡ cut
    → (rewire resp r limit).0
      ≡ record { body = bytes; truncated = cut; skipped = false; failed = false }
unfolding rewire
rewire_read resp r limit bytes cut f g h = rw (f, g, h)

pub rewire_failed :
    (resp : Response) (r : ReadResult) (limit : ℤ)
    → r.failed ≡ true
    → (rewire resp r limit).0
      ≡ record { body = []; truncated = false; skipped = false; failed = true }
unfolding rewire
rewire_failed resp r limit f = rw f

-- Reading does not depend on how the response names its body.
pub read_rewired :
    (resp : Response) (o : Option Reader) (body : Reader) (limit : ℤ)
    → o ≡ some body
    → is_streaming_response resp ≡ false
    → read_body_of resp o limit
      ≡ rewire resp (read_for_capture body resp.content_length limit) limit
unfolding read_body_of read_present
read_rewired resp none body limit e plain = cc
read_rewired resp (some r) body limit e plain = rw plain (cc)

pub exceeded_limited :
    (resp : Response) (bytes : Text) (n : ℕ)
    → 0 < n
    → n < max_int64
    → capture_exceeded_limit resp bytes (pos n) ≡ (length bytes == n + 1)
unfolding capture_exceeded_limit
exceeded_limited resp bytes n p q =
    let e : ltb_ℤ (pos 0) (pos n) ≡ true = ground arith in
    let f : (n == max_int64) ≡ false = ground arith in rw (e, f)

pub limited :
    (body : Reader) (content_length : ℤ) (n : ℕ)
    → 0 < n
    → n < max_int64
    → read_for_capture body content_length (pos n) ≡ read_limited body (pos (n + 1))
unfolding read_for_capture
limited body content_length n p q =
    let e : ltb_ℤ (pos 0) (pos n) ≡ true = ground arith in
    let f : (n == max_int64) ≡ false = ground arith in rw (e, f)

-- The four results that a limit allows.
abbrev pub cut_after : ℕ → Text → BodyRead
cut_after n bytes = record {
  body = take n bytes;
  truncated = true;
  skipped = false;
  failed = false;
}

abbrev pub whole : Text → BodyRead
whole bytes = record { body = bytes; truncated = false; skipped = false; failed = false }

abbrev pub unreadable : BodyRead
unreadable = record { body = []; truncated = false; skipped = false; failed = true }

abbrev pub at_end : Ending → Text → BodyRead
at_end eof bytes = whole bytes
at_end fault bytes = unreadable

abbrev pub limited_read : ℕ → Reader → BodyRead
limited_read n body =
    if ltb n (length body.bytes)
    then cut_after (n + 1) body.bytes
    else at_end body.ending body.bytes

module _ (resp : Response) (body : Reader) (n : ℕ) (present : resp.body ≡ some body)
    (plain : is_streaming_response resp ≡ false) (positive : 0 < n) (small : n < max_int64) where
  read_result :
      (read_body_bounded resp (pos n)).0 ≡ (rewire resp (read_limited body (pos (n + 1))) (pos n)).0
  unfolding read_body_bounded
  read_result =
      ap (λ (p : BodyRead × Response). p.0) (read_rewired resp resp.body body (pos n) present plain)
      ∙ ap (λ r. (rewire resp r (pos n)).0) (limited body resp.content_length n positive small)

  -- With a limit of n bytes, a body of more than n is cut after n + 1 bytes and marked as
  -- truncated; one of at most n is read whole if it ends with EOF, and is an error if it does not.
  pub read_body_bounded-limited : (read_body_bounded resp (pos n)).0 ≡ limited_read n body
  read_body_bounded-limited = elim (Bool-cases (ltb n (length body.bytes))) [
    | inl e ↦
        let (got, ok) = read_enough body (n + 1) (ground (arith, e)) in
        read_result
        ∙ rewire_read resp _ (pos n) _ true ok got (
            exceeded_limited resp (take (n + 1) body.bytes) n positive small
            ∙ ground (arith, e, length-take (n + 1) body.bytes))
        ∙ rw e
    | inr e ↦
        let (got, ending) = read_short body (n + 1) (ground (arith, e)) in
        let fits = exceeded_limited resp body.bytes n positive small ∙ ground (arith, e) in
        read_result ∙ at_ending (read_limited body (pos (n + 1))) body.ending got ending fits ∙ rw e
  ]
    where
      at_ending :
          (r : ReadResult) (ending : Ending)
          → r.got ≡ body.bytes
          → r.failed ≡ is_fault ending
          → capture_exceeded_limit resp body.bytes (pos n) ≡ false
          → (rewire resp r (pos n)).0 ≡ at_end ending body.bytes
      at_ending r eof got ok fits = rewire_read resp r (pos n) _ false ok got fits
      at_ending r fault got bad fits = rewire_failed resp r (pos n) bad
