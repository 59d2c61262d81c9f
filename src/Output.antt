-- ===== src/Output.antt =====
-- internal/output/file_writer.go: the writers of JSON bodies, over a file system. `indent` and
-- `compact` stand for json.Indent and json.Compact, `none` for their errors.
pub mod Domain
pub mod Writers
pub mod Files
pub mod Calls
pub mod Bodies
use goper.Base.{
  ℕ, zero, suc, ◌+◌, ◌-◌, Bool, true, false, not, ◌&&◌, ◌||◌, List, [], ◌∷◌, ◌++◌, map, Option,
  none, some, ◌==◌, leb, ltb, if◌then◌else◌, length, take, drop,
}
use goper.Base.Text.{Text, codes, text_eq}
use goper.Base.Utf8.{runes}
use goper.Capture.Entry.{CapturedEntry}

abbrev one_on : Option ℕ → Option ℕ
one_on none = none
one_on (some i) = some (suc i)

-- `strings.IndexByte`
unfoldable pub index_byte : ℕ → Text → Option ℕ
index_byte b [] = none
index_byte b (c ∷ cs) = if c == b then some 0 else one_on (index_byte b cs)

abbrev has_byte : ℕ → Text → Bool
has_byte b s = elim (index_byte b s) [ none ↦ false | some i ↦ true ]

abbrev last_on : ℕ → ℕ → Option ℕ → Option ℕ
last_on b c none = if c == b then some 0 else none
last_on b c (some i) = some (suc i)

-- The last place of a byte.
unfoldable pub last_index : ℕ → Text → Option ℕ
last_index b [] = none
last_index b (c ∷ cs) = last_on b c (last_index b cs)

-- `net.SplitHostPort`, its host, with the last colon at `i`: a host without brackets has no other
-- colon, and no bracket stands in the text.
unfoldable pub plain_host : Text → ℕ → Option Text
plain_host hostport i =
    if has_byte b':' (take i hostport)
    then none
    else if has_byte b'[' hostport || has_byte b']' hostport
    then none
    else some (take i hostport)

-- A host in brackets ends right before the last colon, and has no other bracket around it.
unfoldable pub bracketed_host : Text → ℕ → Option ℕ → Option Text
bracketed_host hostport i none = none
bracketed_host hostport i (some end) =
    if not (end + 1 == i)
    then none
    else if has_byte b'[' (drop 1 hostport) || has_byte b']' (drop (end + 1) hostport)
    then none
    else some (take (end - 1) (drop 1 hostport))

unfoldable pub host_before : Text → Option ℕ → Option Text
host_before hostport none = none
host_before [] (some i) = none
host_before (c ∷ cs) (some i) =
    if c == b'['
    then bracketed_host (c ∷ cs) i (index_byte b']' (c ∷ cs))
    else plain_host (c ∷ cs) i

abbrev pub split_host_port : Text → Option Text
split_host_port hostport = host_before hostport (last_index b':' hostport)

abbrev or_unchanged : Text → Option Text → Text
or_unchanged host none = host
or_unchanged host (some hostname) = hostname

unfoldable pub split_hostname : Text → Text
split_hostname host = or_unchanged host (split_host_port host)

unfoldable pub is_lower : ℕ → Bool
is_lower r = leb b'a' r && leb r b'z'

unfoldable pub is_digit : ℕ → Bool
is_digit r = leb b'0' r && leb r b'9'

unfoldable pub is_alnum : ℕ → Bool
is_alnum r = is_lower r || is_digit r

unfoldable pub is_safe_rune : ℕ → Bool
is_safe_rune r = is_alnum r || (r == b'.') || (r == b'-')

-- `unicode.ToLower`: its tables beyond ASCII are the parameter `unicode_lower`.
unfoldable pub lower_rune : (ℕ → ℕ) → ℕ → ℕ
lower_rune unicode_lower r =
    if ltb r 128 then (if leb b'A' r && leb r b'Z' then r + 32 else r) else unicode_lower r

-- A safe rune is one byte.
unfoldable pub safe_byte : ℕ → ℕ
safe_byte r = if is_safe_rune r then r else b'_'

unfoldable pub sanitize_host : (ℕ → ℕ) → Text → Text
sanitize_host unicode_lower h = map (λ r. safe_byte (lower_rune unicode_lower r)) (runes h)

unfoldable pub valid_segment_name : Text → Bool
valid_segment_name name =
    not (text_eq name []) && not (text_eq name (codes ".")) && not (text_eq name (codes ".."))

unfoldable pub safe_domain : (ℕ → ℕ) → Text → Text
safe_domain unicode_lower host =
    let name = sanitize_host unicode_lower (split_hostname host) in
    if not (valid_segment_name name) then codes "unknown" else name
