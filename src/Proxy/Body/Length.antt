-- ===== src/Proxy/Body/Length.antt =====
-- internal/proxy/proxy.go and proxy_body.go: the Content-Length that the client is told.
use goper.Base.{
  ℕ, zero, suc, ◌+◌, ◌<◌, ◌≡◌, refl, ap, ◌∙◌, inl, inr, arith, true, false, [], some, ◌==◌,
  if◌then◌else◌, length, length-take, Bool-cases,
}
use native.Mathlib.Decide.{dec_lt}
use goper.Base.Int.{ℤ, pos, negsuc, leb_ℤ, ltb_ℤ}
use goper.Base.Text.{Text}
use goper.Capture.Streams.{
  read_enough, read_short, Reader, ReadResult, read_all, read_limited, max_int64,
}
use goper.Proxy.Body.{
  Response, BodyRead, unlimited_read_safety_cap, is_streaming_response, read_for_capture,
  capture_exceeded_limit, rewire, read_body_bounded, fix_content_length,
}
use goper.Proxy.Body.Bounds.{rewire_read, read_rewired, exceeded_limited, limited, cut_after}

-- The results that leave the client with a correct length: an error, a cut, or the whole body.
abbrev IsHonest : Text → BodyRead → Type 0
IsHonest bytes b = b.failed ≡ false → b.truncated ≡ false → b.body ≡ bytes

IsHonest-read :
    (resp : Response) (r : ReadResult) (limit : ℤ) (bytes : Text)
    → r.got ≡ bytes
    → IsHonest bytes (rewire resp r limit).0
unfolding rewire
IsHonest-read resp r limit bytes e = elim (Bool-cases r.failed) [
  | inl bad ↦ rw bad (λ f t. cc)
  | inr good ↦ rw good (λ f t. e)
]

-- A result that is marked as truncated promises nothing.
IsHonest-cut :
    (b : BodyRead) (bytes bytes' : Text) (n : ℕ) → b ≡ cut_after n bytes' → IsHonest bytes b
IsHonest-cut b bytes bytes' n e f t = absurd (ground (arith, ap (λ (c : BodyRead). c.truncated) e))

exceeded_unlimited :
    (resp : Response) (bytes : Text) (limit : ℤ)
    → ltb_ℤ (pos 0) limit ≡ false
    → leb_ℤ (pos 0) resp.content_length ≡ false
    → length bytes ≡ unlimited_read_safety_cap
    → capture_exceeded_limit resp bytes limit ≡ true
unfolding capture_exceeded_limit
exceeded_unlimited resp bytes limit low unknown full =
    let e : ltb_ℤ resp.content_length (pos 0) ≡ true = ground arith in
    let f : (length bytes == unlimited_read_safety_cap) ≡ true = ground arith in rw (low, e, f)

IsHonest-unlimited :
    (resp : Response) (body : Reader) (limit : ℤ)
    → ltb_ℤ (pos 0) limit ≡ false
    → IsHonest body.bytes (rewire resp (read_for_capture body resp.content_length limit) limit).0
unfolding read_for_capture
IsHonest-unlimited resp body limit low =
    rw low (elim (Bool-cases (leb_ℤ (pos 0) resp.content_length)) [
      | inl known ↦
          rw known (IsHonest-read resp (read_all body) limit body.bytes (unfold read_all in refl))
      | inr unknown ↦ rw unknown (elim (dec_lt (length body.bytes) unlimited_read_safety_cap) [
        | yes short ↦
            IsHonest-read resp _ limit body.bytes
              (read_short body unlimited_read_safety_cap short).0
        | no long ↦
            let (got, ok) = read_enough body unlimited_read_safety_cap (omega arith) in
            IsHonest-cut _ body.bytes body.bytes unlimited_read_safety_cap (
              rewire_read resp _ limit _ true ok got (
                exceeded_unlimited resp _ limit low unknown
                  (length-take unlimited_read_safety_cap body.bytes ∙ omega arith)))
      ])
    ])

IsHonest-limited :
    (resp : Response) (body : Reader) (n : ℕ)
    → 0 < n
    → n < max_int64
    → IsHonest body.bytes
        (rewire resp (read_for_capture body resp.content_length (pos n)) (pos n)).0
IsHonest-limited resp body n p q =
    rw (limited body resp.content_length n p q) (elim (dec_lt (length body.bytes) (n + 1)) [
      | yes short ↦ IsHonest-read resp _ (pos n) body.bytes (read_short body (n + 1) short).0
      | no long ↦
          let (got, ok) = read_enough body (n + 1) (omega arith) in
          IsHonest-cut _ body.bytes body.bytes (n + 1) (
            rewire_read resp _ (pos n) _ true ok got
              (exceeded_limited resp _ n p q ∙ ground (arith, length-take (n + 1) body.bytes)))
    ])

abbrev InRange : ℤ → Type 0
InRange (pos n) = n < max_int64
InRange (negsuc n) = Unit

IsHonest-any :
    (resp : Response) (body : Reader) (limit : ℤ)
    → InRange limit
    → IsHonest body.bytes (rewire resp (read_for_capture body resp.content_length limit) limit).0
IsHonest-any resp body (pos zero) h = IsHonest-unlimited resp body (pos 0) refl
IsHonest-any resp body (pos (suc n)) h = IsHonest-limited resp body (suc n) (omega arith) h
IsHonest-any resp body (negsuc n) h = IsHonest-unlimited resp body (negsuc n) (ground arith)

module _ (resp : Response) (body : Reader) (present : resp.body ≡ some body)
    (plain : is_streaming_response resp ≡ false) where
  -- Under any limit but the largest int64, a body that was read is announced with unknown length
  -- if it was truncated, and else with exactly the number of its bytes.
  pub content_length_exact :
      (limit : ℤ)
      → InRange limit
      → (read_body_bounded resp limit).0.failed ≡ false
      → let b = (read_body_bounded resp limit).0 in
        (fix_content_length resp b.body b.truncated).content_length
        ≡ (if b.truncated then negsuc 0 else pos (length body.bytes))
  unfolding read_body_bounded fix_content_length
  content_length_exact limit h = rw (read_rewired resp resp.body body limit present plain) (λ f.
      length_of (rewire resp (read_for_capture body resp.content_length limit) limit).0
        (IsHonest-any resp body limit h f))
    where
      length_of :
          (b : BodyRead)
          → (b.truncated ≡ false → b.body ≡ body.bytes)
          → (fix_content_length resp b.body b.truncated).content_length
            ≡ (if b.truncated then negsuc 0 else pos (length body.bytes))
      length_of b k = elim (Bool-cases b.truncated) [
        | inl t ↦ rw t
        | inr t ↦ rw t (ap (λ s. pos (length s)) (k t))
      ]

  -- The bug: with the largest int64 as the limit, limit + 1 wraps, nothing is read, and every
  -- body is announced as empty.
  pub largest_limit_announces_zero :
      let b = (read_body_bounded resp (pos max_int64)).0 in
      (b.failed ≡ false)
      × (b.body ≡ [])
      × ((fix_content_length resp b.body b.truncated).content_length ≡ pos 0)
  unfolding read_body_bounded read_for_capture fix_content_length read_limited rewire
      capture_exceeded_limit
  largest_limit_announces_zero =
      rw (read_rewired resp resp.body body (pos max_int64) present plain) (refl, refl, refl)
