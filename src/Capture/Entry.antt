-- ===== src/Capture/Entry.antt =====
-- internal/capture/entry.go: captured entries and their identifiers, with the instants and the
-- clock that the package reads.
use goper.Base.{
  ℕ, zero, suc, ◌+◌, ◌*◌, ◌/◌, ◌%◌, ◌^◌, Bool, List, [], ◌∷◌, ◌++◌, Option, ◌==◌, ltb,
  if◌then◌else◌,
}
use goper.Base.Int.{ℤ, pos, negsuc}
use goper.Base.Text.{Text}

-- `time.Time` as nanoseconds since 400 years before the zero time, so that every instant that
-- RFC 3339 can write is a number.
abbrev pub Time : Type 0
Time = ℕ

abbrev pub zero_time : Time
zero_time = 146_097 * 86_400 * 10 ^ 9

abbrev pub is_zero_time : Time → Bool
is_zero_time t = t == zero_time

abbrev pub before : Time → Time → Bool
before t u = ltb t u

-- `map[string]string` of header names and values, in the order of one iteration.
abbrev pub HeaderMap : Type 0
HeaderMap = List (Text × Text)

pub record CapturedEntry : Type 0 where
  pub id : Text
  pub timestamp : Time
  pub duration_ms : ℤ
  pub method : Text
  pub url : Text
  pub scheme : Text
  pub host : Text
  pub path : Text
  pub request_headers : HeaderMap
  pub request_body : Option Text
  pub status_code : ℤ
  pub response_headers : HeaderMap
  pub response_body : Option Text
  pub content_type : Text

-- What an operation reads from the clock, and the process-wide `idCounter`. `stamp` is
-- `time.Now().Format("20060102150405")`.
pub record Env : Type 0 where
  pub now : Time
  pub stamp : Text
  pub counter : ℕ

-- `strconv.Itoa` on a number that is not negative: decimal digits on fuel.
unfoldable pub digits_on : ℕ → ℕ → Text → Text
digits_on zero n acc = acc
digits_on (suc f) n acc =
    let more = digits_on f (n / 10) ((48 + n % 10) ∷ acc) in
    if ltb n 10 then (48 + n) ∷ acc else more

-- A number has at most as many digits as its value plus one; 20 digits hold every int64.
unfoldable pub itoa : ℕ → Text
unfolding digits_on
itoa n = digits_on 20 n []

-- `strconv.Itoa` and `%d`.
unfoldable pub decimal : ℤ → Text
decimal (pos n) = itoa n
decimal (negsuc n) = b'-' ∷ itoa (n + 1)

unfoldable pub new_entry_id : Env → Text × Env
new_entry_id env =
    (env.stamp ++ b'-' ∷ itoa (env.counter + 1), record env { counter = env.counter + 1 })
