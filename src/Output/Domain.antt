-- ===== src/Output/Domain.antt =====
-- internal/output/file_writer.go: the directory name of a host, which the client chooses.
use goper.Base.{ℕ, ◌≤◌, true, List, [], ◌∷◌, map, ◌≡◌, ◌≢◌, ◌⊎◌, inl, inr, arith, All, Bool-cases}
use goper.Base.Text.{Text, codes, text_eq_iff}
use goper.Base.Utf8.{runes}
use goper.Output.{
  is_lower, is_digit, is_alnum, is_safe_rune, lower_rune, safe_byte, sanitize_host, split_hostname,
  valid_segment_name, safe_domain,
}

-- A small letter, a digit, a dot, a dash or an underscore; none of them separates path segments.
abbrev pub IsNameByte : ℕ → Type 0
IsNameByte c =
    ((b'a' ≤ c) × (c ≤ b'z')) ⊎ ((b'0' ≤ c) × (c ≤ b'9')) ⊎ (c ≡ b'.') ⊎ (c ≡ b'-') ⊎ (c ≡ b'_')

-- One segment of a path that names an entry of its directory.
pub record IsSegment (name : Text) : Type 0 where
  pub bytes : All IsNameByte name
  pub some_name : name ≢ []
  pub not_here : name ≢ codes "."
  pub not_parent : name ≢ codes ".."

safe_byte-IsNameByte : (r : ℕ) → IsNameByte (safe_byte r)
unfolding safe_byte is_safe_rune is_alnum is_lower is_digit
safe_byte-IsNameByte r = ground arith

map-IsNameByte : (f : ℕ → ℕ) (rs : List ℕ) → All IsNameByte (map (λ r. safe_byte (f r)) rs)
map-IsNameByte f [] = tt
map-IsNameByte f (r ∷ rs) = (safe_byte-IsNameByte (f r), map-IsNameByte f rs)

valid-differs :
    (name : Text)
    → valid_segment_name name ≡ true
    → (name ≢ []) × (name ≢ codes ".") × (name ≢ codes "..")
unfolding valid_segment_name
valid-differs name h = (
  (λ e. ground (arith, h, text_eq_iff name [], e)),
  (λ e. ground (arith, h, text_eq_iff name (codes "."), e)),
  (λ e. ground (arith, h, text_eq_iff name (codes ".."), e)),
)

-- Whatever host a request names, the directory of its files is one segment of a path, made of
-- small letters, digits, dots, dashes and underscores, and it is not empty, "." or "..".
pub safe_domain_lem :
    (unicode_lower : ℕ → ℕ) (host : Text) → IsSegment (safe_domain unicode_lower host)
unfolding safe_domain sanitize_host
safe_domain_lem unicode_lower host =
    let name = sanitize_host unicode_lower (split_hostname host) in
    elim (Bool-cases (valid_segment_name name)) [
      | inl v ↦ rw v (record {
        bytes = map-IsNameByte (lower_rune unicode_lower) (runes (split_hostname host));
        some_name = (valid-differs name v).0;
        not_here = (valid-differs name v).1;
        not_parent = (valid-differs name v).2;
      })
      | inr v ↦ rw v unknown
    ]
  where
    unknown : IsSegment (codes "unknown")
    unknown = record {
      bytes = ground arith;
      some_name = ground arith;
      not_here = ground arith;
      not_parent = ground arith;
    }
