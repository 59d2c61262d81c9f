-- ===== src/Api/Queries.antt =====
-- internal/api/handlers.go and handlers_sse.go: what a query string asks for. `time.Parse` of an
-- RFC 3339 time is the parameter `parse_time`.
pub mod Numbers
use goper.Base.{
  ℕ, zero, suc, ◌+◌, ◌-◌, ◌*◌, ◌^◌, Bool, true, false, ◌&&◌, List, [], ◌∷◌, Option, none, some,
  ◌==◌, ltb, leb, if◌then◌else◌,
}
use goper.Base.Int.{ℤ, pos, negsuc, leb_ℤ}
use goper.Base.Text.{Text, codes, text_eq}
use goper.Capture.Entry.{Time, zero_time}
use goper.Capture.Filter.{ListOpts}

-- `url.Values`: names with their values, in the order of one iteration.
abbrev pub Values : Type 0
Values = List (Text × List Text)

abbrev first_of : List Text → Text
first_of [] = []
first_of (v ∷ vs) = v

unfoldable pub query_get : Values → Text → Text
query_get [] key = []
query_get ((k, vs) ∷ q) key = if text_eq k key then first_of vs else query_get q key

-- `strconv.Atoi`, an error as `none`: a sign or none, decimal digits, and the range of an int.
unfoldable pub digits_value : ℕ → Text → Option ℕ
digits_value acc [] = some acc
digits_value acc (c ∷ cs) =
    let rest = digits_value (acc * 10 + (c - 48)) cs in if leb 48 c && leb c 57 then rest else none

unfoldable pub parse_digits : Text → Option ℕ
parse_digits [] = none
parse_digits (c ∷ cs) = digits_value 0 (c ∷ cs)

unfoldable pub positive : Option ℕ → Option ℤ
positive none = none
positive (some n) = if ltb n (2 ^ 63) then some (pos n) else none

unfoldable pub negative : Option ℕ → Option ℤ
negative none = none
negative (some zero) = some (pos 0)
negative (some (suc n)) = if ltb n (2 ^ 63) then some (negsuc n) else none

unfoldable pub atoi : Text → Option ℤ
atoi [] = none
atoi (c ∷ cs) =
    if c == b'-'
    then negative (parse_digits cs)
    else if c == b'+'
    then positive (parse_digits cs)
    else positive (parse_digits (c ∷ cs))

unfoldable pub parse_time_query : (Text → Option Time) → Values → Text → Time
parse_time_query parse_time q key =
    if text_eq (query_get q key) []
    then zero_time
    else (elim (parse_time (query_get q key)) [ some t ↦ t | none ↦ zero_time ])

unfoldable pub int_or_zero : Option ℤ → ℤ
int_or_zero none = pos 0
int_or_zero (some n) = n

unfoldable pub positive_or_zero : Option ℤ → ℤ
positive_or_zero none = pos 0
positive_or_zero (some n) = if leb_ℤ n (pos 0) then pos 0 else n

unfoldable pub parse_int_query : Values → Text → ℤ
unfolding int_or_zero
parse_int_query q key = int_or_zero (atoi (query_get q key))

unfoldable pub parse_positive_int_query : Values → Text → ℤ
unfolding positive_or_zero
parse_positive_int_query q key = positive_or_zero (atoi (query_get q key))

unfoldable pub list_opts_from_query : (Text → Option Time) → Values → ListOpts
list_opts_from_query parse_time q = record {
  since = parse_time_query parse_time q (codes "since");
  method = query_get q (codes "method");
  status = parse_int_query q (codes "status");
  url = query_get q (codes "url");
  limit = parse_positive_int_query q (codes "limit");
  offset = parse_positive_int_query q (codes "offset");
}

abbrev pub default_backfill : ℤ
default_backfill = pos 50

unfoldable pub at_least_zero : Option ℤ → ℤ → ℤ
at_least_zero none def = def
at_least_zero (some n) def = if leb_ℤ (pos 0) n then n else def

unfoldable pub parse_backfill : Text → ℤ → ℤ
unfolding at_least_zero
parse_backfill v def = at_least_zero (atoi v) def

unfoldable pub backfill_count : Values → ℤ
backfill_count q =
    if text_eq (query_get q (codes "backfill")) []
    then default_backfill
    else parse_backfill (query_get q (codes "backfill")) default_backfill
