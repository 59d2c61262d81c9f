-- ===== src/Proxy/Body/Streaming.antt =====
-- internal/proxy/proxy_body.go: capture never changes the bytes that the client receives.
use goper.Base.{◌≡◌, refl, sym, ap, ◌∙◌, inl, inr, Option, none, some, Bool-cases}
use goper.Base.Int.{ℤ, pos, leb_ℤ, ltb_ℤ}
use goper.Capture.Streams.{
  Reader, multi_reader, succ_int64, read_limited-multi_reader, read_all-multi_reader,
}
use goper.Proxy.Body.{
  Response, unlimited_read_safety_cap, is_streaming_response, read_for_capture, rewire,
  read_present, read_body_of, read_body_bounded,
}

read_for_capture-multi_reader :
    (body : Reader) (content_length limit : ℤ)
    → let r = read_for_capture body content_length limit in multi_reader r.got r.left ≡ body
unfolding read_for_capture
read_for_capture-multi_reader body content_length limit = elim (Bool-cases (ltb_ℤ (pos 0) limit)) [
  | inl e ↦ rw e (read_limited-multi_reader body (succ_int64 limit))
  | inr e ↦ rw e (elim (Bool-cases (leb_ℤ (pos 0) content_length)) [
    | inl f ↦ rw f (read_all-multi_reader body)
    | inr f ↦ rw f (read_limited-multi_reader body (pos unlimited_read_safety_cap))
  ])
]

read_body_of-response :
    (resp : Response) (o : Option Reader) (limit : ℤ)
    → resp.body ≡ o
    → (read_body_of resp o limit).1 ≡ resp
unfolding read_body_of read_present rewire
read_body_of-response resp none limit e = refl
read_body_of-response resp (some body) limit e = elim (Bool-cases (is_streaming_response resp)) [
  | inl s ↦ rw s
  | inr s ↦ rw s (
      ap (λ b. record resp { body = b })
        (ap some (read_for_capture-multi_reader body resp.content_length limit) ∙ sym e))
]

-- On every branch, errors included, the response that goes on to the client is the response as
-- it came: the same status, headers and length, and a body with the same bytes and the same end.
pub read_body_bounded-response :
    (resp : Response) (limit : ℤ) → (read_body_bounded resp limit).1 ≡ resp
unfolding read_body_bounded
read_body_bounded-response resp limit = read_body_of-response resp resp.body limit refl
