-- ===== src/Capture/Filter.antt =====
-- internal/capture/store.go, the filters and the pagination of `List`.
use goper.Base.{
  ℕ, List, [], ◌∷◌, Bool, true, not, ◌&&◌, ◌||◌, if◌then◌else◌, length, drop, take, select,
  take_all, ◌<◌, ◌≡◌, refl, inl, inr, arith, Bool-cases,
}
use goper.Base.Int.{ℤ, pos, ltb_ℤ, leb_ℤ, eqb_ℤ, pos_part}
use goper.Base.Text.{Text, text_eq}
use goper.Capture.Entry.{Time, zero_time, is_zero_time, before, CapturedEntry}

pub record ListOpts : Type 0 where
  pub since : Time
  pub method : Text
  pub status : ℤ
  pub url : Text
  pub limit : ℤ
  pub offset : ℤ

pub since_excludes : ListOpts → CapturedEntry → Bool
since_excludes opts entry = not (is_zero_time opts.since) && before entry.timestamp opts.since

pub method_excludes : ListOpts → CapturedEntry → Bool
method_excludes opts entry = not (text_eq opts.method []) && not (text_eq entry.method opts.method)

pub status_excludes : ListOpts → CapturedEntry → Bool
status_excludes opts entry = ltb_ℤ (pos 0) opts.status && not (eqb_ℤ entry.status_code opts.status)

pub url_excludes : ListOpts → CapturedEntry → Bool
url_excludes opts entry = not (text_eq opts.url []) && not (text_eq entry.url opts.url)

pub since_or_method_excludes : ListOpts → CapturedEntry → Bool
since_or_method_excludes opts entry = since_excludes opts entry || method_excludes opts entry

pub status_or_url_excludes : ListOpts → CapturedEntry → Bool
status_or_url_excludes opts entry = status_excludes opts entry || url_excludes opts entry

unfoldable pub matches : ListOpts → CapturedEntry → Bool
unfolding since_or_method_excludes status_or_url_excludes since_excludes method_excludes
    status_excludes url_excludes
matches opts entry =
    not (since_or_method_excludes opts entry) && not (status_or_url_excludes opts entry)

-- A nil slice and an empty one are the same list: they have the same length and the callers encode
-- both as an empty array.
unfoldable pub cap_result : List CapturedEntry → ℤ → List CapturedEntry
cap_result result limit =
    if ltb_ℤ (pos 0) limit && ltb_ℤ limit (pos (length result))
    then take (pos_part limit) result
    else result

unfoldable pub paginate : List CapturedEntry → ListOpts → List CapturedEntry
unfolding cap_result
paginate result opts =
    if ltb_ℤ (pos 0) opts.offset
    then if leb_ℤ (pos (length result)) opts.offset
      then []
      else cap_result (drop (pos_part opts.offset) result) opts.limit
    else cap_result result opts.limit

-- `ListOpts{Limit: limit}`
abbrev pub limit_only : ℤ → ListOpts
limit_only limit = record {
  since = zero_time;
  method = [];
  status = pos 0;
  url = [];
  limit = limit;
  offset = pos 0;
}

matches-limit_only : (limit : ℤ) (e : CapturedEntry) → matches (limit_only limit) e ≡ true
unfolding matches since_or_method_excludes status_or_url_excludes since_excludes method_excludes
    status_excludes url_excludes text_eq
matches-limit_only limit e = refl

select_every : (limit : ℤ) (q : List CapturedEntry) → select (matches (limit_only limit)) q ≡ q
select_every limit [] = refl
select_every limit (e ∷ q) = rw (matches-limit_only limit e, select_every limit q) refl

-- The page that a positive limit alone asks for: the first entries.
pub first_page :
    (q : List CapturedEntry) (n : ℕ)
    → 0 < n
    → paginate (select (matches (limit_only (pos n))) q) (limit_only (pos n)) ≡ take n q
unfolding paginate cap_result
first_page q n p = rw (select_every (pos n) q) (elim (Bool-cases (ltb_ℤ (pos n) (pos (length q)))) [
  | inl e ↦ ground (arith, e)
  | inr e ↦ let all : take n q ≡ q = take_all n q (ground (arith, e)) in ground (arith, e, all)
])
