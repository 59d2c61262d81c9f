-- ===== src/Examples/Capture.antt =====
-- internal/capture/capture.go on concrete bodies and headers.
use goper.Base.{◌↔◌, true, All, [], ◌∷◌, ◌≡◌, inl, inr, refl, arith, none, some}
use goper.Base.Int.{pos}
use goper.Base.Text.{Text, codes}
use goper.Capture.Streams.{Reader, eof, fault}
use goper.Capture.Recorder.{
  Header, Request, DefaultRecorder, headers_to_map, request_entry, recorder_capture_request,
}
use goper.Capture.Recorder.Redaction.{headers_to_map_blind}
use goper.Capture.Recorder.Bodies.{recorder_capture_request_lem}
use goper.Capture.Media.{to_lower, normalize_media_type}
use goper.Capture.Media.{is_printable}
use goper.Capture.Media.Printable.{IsPlain, is_printable_lem}

abbrev cut_euro : Text
cut_euro = 0xE2 ∷ 0x82 ∷ b'x' ∷ 7 ∷ []

is_printable_lem_example : (is_printable cut_euro ≡ true) ↔ All IsPlain cut_euro
is_printable_lem_example = is_printable_lem cut_euro

abbrev with_cookie : Text → Header
with_cookie value = (codes "Accept", codes "a/b" ∷ []) ∷ (codes "Cookie", value ∷ []) ∷ []

headers_to_map_blind_example :
    headers_to_map (with_cookie (codes "x=1")) ≡ headers_to_map (with_cookie (codes "y=2"))
unfolding to_lower
headers_to_map_blind_example =
    headers_to_map_blind (with_cookie (codes "x=1")) (with_cookie (codes "y=2"))
      ((refl, inl refl, (refl, inr (inr (inl refl)), tt)))

abbrev posted : Reader → Request
posted body = record {
  method = codes "POST";
  url = codes "http://a/";
  scheme = codes "http";
  host = codes "a";
  path = codes "/";
  header = [];
  body = some body;
}

abbrev ten : Reader
ten = record { bytes = codes "0123456789"; ending = eof }

abbrev up_to_4 : DefaultRecorder
up_to_4 = record { request_body_limit = pos 4; response_body_limit = pos 4 }

recorder_capture_request_lem_example :
    recorder_capture_request up_to_4 (posted ten) ≡ (request_entry (posted ten) none, posted ten)
recorder_capture_request_lem_example =
    recorder_capture_request_lem up_to_4 (posted ten) ten refl (omega arith) refl

abbrev broken : Reader
broken = record { bytes = codes "0123"; ending = fault }

-- "COOKIE" with the Kelvin sign, and "İ".
kelvin :
    to_lower (b'C' ∷ b'O' ∷ b'O' ∷ 0xE2 ∷ 0x84 ∷ 0xAA ∷ b'I' ∷ b'E' ∷ 0xC4 ∷ 0xB0 ∷ [])
    ≡ codes "cookiei"
unfolding to_lower
kelvin = refl

-- White space of any width on both sides.
trimmed :
    normalize_media_type
      (0xC2 ∷ 0xA0 ∷ 32 ∷ b'A' ∷ b'/' ∷ b'B' ∷ 0xE3 ∷ 0x80 ∷ 0x80 ∷ 9 ∷ b';' ∷ b'x' ∷ [])
    ≡ codes "a/b"
unfolding normalize_media_type
trimmed = refl
