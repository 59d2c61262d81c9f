-- ===== src/Examples/Proxy.antt =====
-- internal/proxy on concrete bodies and ClientHellos.
use goper.Base.{[], ◌∷◌, some, ◌≡◌, refl, ap, arith, false, if◌then◌else◌}
use goper.Base.Int.{pos, negsuc}
use goper.Base.Text.{codes, text_eq}
use goper.Capture.Streams.{Reader, eof, max_int64}
use goper.Capture.Media.{normalize_media_type}
use goper.Capture.Recorder.{header_get}
use goper.Proxy.Body.{
  Response, BodyRead, is_streaming_response, is_streaming_content_type, read_body_bounded,
  fix_content_length,
}
use goper.Proxy.Body.Bounds.{read_body_bounded-limited}
use goper.Proxy.Body.Length.{content_length_exact, largest_limit_announces_zero}
use goper.Proxy.Sni.{parse_client_hello}
use goper.Proxy.Sni.Parse.{parse_client_hello-Parses, Parses}

abbrev hello_body : Reader
hello_body = record { bytes = codes "hello"; ending = eof }

abbrev chunked : Response
chunked = record {
  status_code = pos 200;
  header = (codes "Content-Type", codes "text/plain" ∷ []) ∷ [];
  content_length = negsuc 0;
  body = some hello_body;
}

chunked_plain : is_streaming_response chunked ≡ false
unfolding is_streaming_response is_streaming_content_type normalize_media_type header_get text_eq
chunked_plain = refl

content_length_exact_example :
    (fix_content_length chunked
      (read_body_bounded chunked (pos 9)).0.body
      (read_body_bounded chunked (pos 9)).0.truncated).content_length
    ≡ (if (read_body_bounded chunked (pos 9)).0.truncated then negsuc 0 else pos 5)
content_length_exact_example =
    content_length_exact chunked hello_body refl chunked_plain (pos 9) (omega arith) (
      ap (λ (b : BodyRead). b.failed)
        (read_body_bounded-limited chunked hello_body 9 refl chunked_plain (omega arith)
          (omega arith)))

largest_limit_announces_zero_example :
    ((read_body_bounded chunked (pos max_int64)).0.failed ≡ false)
    × ((read_body_bounded chunked (pos max_int64)).0.body ≡ [])
    × ((fix_content_length chunked
          (read_body_bounded chunked (pos max_int64)).0.body
          (read_body_bounded chunked (pos max_int64)).0.truncated).content_length
        ≡ pos 0)
largest_limit_announces_zero_example =
    largest_limit_announces_zero chunked hello_body refl chunked_plain

parse_client_hello-Parses_example : Parses (1 ∷ 0 ∷ 0 ∷ []) (parse_client_hello (1 ∷ 0 ∷ 0 ∷ []))
parse_client_hello-Parses_example = parse_client_hello-Parses (1 ∷ 0 ∷ 0 ∷ [])
