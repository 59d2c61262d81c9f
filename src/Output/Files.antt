-- ===== src/Output/Files.antt =====
-- internal/output/file_writer.go: what the writers leave in the files.
use goper.Base.{
  ℕ, Bool, true, List, [], ◌∷◌, ◌++◌, Option, none, some, ◌≡◌, ◌≢◌, refl, sym, ap, subst, ◌∙◌,
  arith, if◌then◌else◌, Bool-cases, inl, inr,
}
use mathlib.Core.List.{append_assoc, append-nil}
use goper.Base.Text.{Text, codes, text_eq, text_eq_iff}
use goper.Capture.Entry.{CapturedEntry}
use goper.Output.{safe_domain}
use goper.Output.Writers.{
  FilePath, FileSystem, compact_json, indent_json, domain_dir, ensure_output_dir, append_line,
  write_line, ndjson_write_entry, write_pretty, json_write_entry,
}

-- A file system on which no operation fails: `content` is what a file holds, nothing where it is
-- missing, and only a write changes it, in its own file.
pub record IsWorking {S : Type 0} (fs : FileSystem S) (content : S → FilePath → Text) : Type 0 where
  pub mkdir_fine : (s : S) (p : FilePath) → (fs.mkdir_all s p).0 ≡ true
  pub mkdir_same : (s : S) (p f : FilePath) → content (fs.mkdir_all s p).1 f ≡ content s f
  pub chmod_fine : (s : S) (p : FilePath) → (fs.chmod s p).0 ≡ true
  pub chmod_same : (s : S) (p f : FilePath) → content (fs.chmod s p).1 f ≡ content s f
  pub open_fine : (s : S) (p : FilePath) → (fs.open_file s p).0 ≡ true
  pub open_same : (s : S) (p f : FilePath) → content (fs.open_file s p).1 f ≡ content s f
  pub write_fine : (s : S) (p : FilePath) (t : Text) → (fs.write s p t).0 ≡ true
  pub write_here :
      (s : S) (p : FilePath) (t : Text) → content (fs.write s p t).1 p ≡ content s p ++ t
  pub write_there :
      (s : S) (p f : FilePath) (t : Text) → f ≢ p → content (fs.write s p t).1 f ≡ content s f
  pub write_file_fine : (s : S) (p : FilePath) (t : Text) → (fs.write_file s p t).0 ≡ true
  pub write_file_here : (s : S) (p : FilePath) (t : Text) → content (fs.write_file s p t).1 p ≡ t
  pub write_file_there :
      (s : S) (p f : FilePath) (t : Text) → f ≢ p → content (fs.write_file s p t).1 f ≡ content s f

-- The file of a domain.
abbrev pub lines_of : Text → Text → FilePath
lines_of dir domain = record { dir = dir; below = domain ∷ codes "responses.jsonl" ∷ [] }

-- The file of an entry's body.
abbrev pub file_of : Text → (ℕ → ℕ) → CapturedEntry → FilePath
file_of dir unicode_lower e = record {
  dir = dir;
  below = safe_domain unicode_lower e.host ∷ (e.id ++ codes ".json") ∷ [];
}

abbrev text_of : Option Text → Text
text_of none = []
text_of (some t) = t

-- The lines of the entries whose host has this domain, in order.
unfoldable pub domain_lines : (ℕ → ℕ) → (Text → Option Text) → Text → List CapturedEntry → Text
domain_lines unicode_lower compact domain [] = []
domain_lines unicode_lower compact domain (e ∷ es) =
    let rest = domain_lines unicode_lower compact domain es in
    if text_eq (safe_domain unicode_lower e.host) domain
    then text_of (compact_json compact e) ++ rest
    else rest

module _ {S : Type 0} (fs : FileSystem S) (content : S → FilePath → Text)
    (works : IsWorking fs content) (unicode_lower : ℕ → ℕ) (compact : Text → Option Text)
    (dir : Text) where
  -- The writer on one entry after another.
  unfoldable pub write_each : S → List CapturedEntry → S
  write_each s [] = s
  write_each s (e ∷ es) = write_each (ndjson_write_entry fs unicode_lower compact s dir e).1 es

  append_here :
      (s : S) (p : FilePath) (line : Text)
      → content (append_line fs unicode_lower s p line).1 p ≡ content s p ++ line
  unfolding append_line
  append_here s p line =
      rw (works.open_fine s p)
        (works.write_here (fs.open_file s p).1 p line ∙ ap (λ t. t ++ line) (works.open_same s p p))

  append_there :
      (s : S) (p f : FilePath) (line : Text)
      → f ≢ p
      → content (append_line fs unicode_lower s p line).1 f ≡ content s f
  unfolding append_line
  append_there s p f line n =
      rw (works.open_fine s p)
        (works.write_there (fs.open_file s p).1 p f line n ∙ works.open_same s p f)

  pub ensured :
      (s : S) (host : Text) (f : FilePath)
      → ((ensure_output_dir fs unicode_lower s dir host).0 ≡ true)
        × (content (ensure_output_dir fs unicode_lower s dir host).1 f ≡ content s f)
  unfolding ensure_output_dir
  ensured s host f =
      let d = domain_dir fs unicode_lower dir host in
      rw (works.mkdir_fine s d) (
        works.chmod_fine (fs.mkdir_all s d).1 d,
        works.chmod_same (fs.mkdir_all s d).1 d f ∙ works.mkdir_same s d f,
      )

  abbrev after_line : S → Text → Option Text → S
  after_line s host o = (write_line fs unicode_lower s dir host o).1

  line_on :
      (s : S) (host line : Text)
      → write_line fs unicode_lower s dir host (some line)
        ≡ append_line fs unicode_lower
            (ensure_output_dir fs unicode_lower s dir host).1
            (lines_of dir (safe_domain unicode_lower host))
            line
  unfolding write_line
  line_on s host line =
      let fine = (ensured s host (lines_of dir [])).0 in rw (fine, write_line) refl

  line_here :
      (s : S) (host domain : Text) (o : Option Text)
      → safe_domain unicode_lower host ≡ domain
      → content (after_line s host o) (lines_of dir domain)
        ≡ content s (lines_of dir domain) ++ text_of o
  unfolding write_line
  line_here s host domain none e = sym (append-nil (content s (lines_of dir domain)))
  line_here s host domain (some line) e =
      let here = lines_of dir (safe_domain unicode_lower host) in
      let (fine, same) = ensured s host here in
      subst
        (λ d.
          content (after_line s host (some line)) (lines_of dir d)
          ≡ content s (lines_of dir d) ++ line)
        e
        (ap (λ (x : Bool × S). content x.1 here) (line_on s host line)
          ∙ append_here _ here line
          ∙ ap (λ t. t ++ line) same)

  line_there :
      (s : S) (host domain : Text) (o : Option Text)
      → safe_domain unicode_lower host ≢ domain
      → content (after_line s host o) (lines_of dir domain) ≡ content s (lines_of dir domain)
  unfolding write_line
  line_there s host domain none n = refl
  line_there s host domain (some line) n =
      let (fine, same) = ensured s host (lines_of dir domain) in
      ap (λ (x : Bool × S). content x.1 (lines_of dir domain)) (line_on s host line)
      ∙ append_there _ _ (lines_of dir domain) line other
      ∙ same
    where
      first_of : Text → List Text → Text
      first_of default [] = default
      first_of default (name ∷ names) = name

      other : lines_of dir domain ≢ lines_of dir (safe_domain unicode_lower host)
      other e = n (sym (ap (λ (p : FilePath). first_of [] p.below) e))

  -- On a file system that works, when entries are written one after another, the file of a domain
  -- holds what it held and behind it, in order, the compact JSON lines of exactly those entries
  -- whose host has this domain and whose response body is JSON.
  pub write_each_lem :
      (s : S) (domain : Text) (es : List CapturedEntry)
      → content (write_each s es) (lines_of dir domain)
        ≡ content s (lines_of dir domain) ++ domain_lines unicode_lower compact domain es
  unfolding write_each domain_lines ndjson_write_entry
  write_each_lem s domain [] = sym (append-nil (content s (lines_of dir domain)))
  write_each_lem s domain (e ∷ es) =
      let o = compact_json compact e in
      let rest = write_each_lem (ndjson_write_entry fs unicode_lower compact s dir e).1 domain es in
      let more = domain_lines unicode_lower compact domain es in
      elim (Bool-cases (text_eq (safe_domain unicode_lower e.host) domain)) [
        | inl y ↦ rw y (
            rest
            ∙ ap (λ t. t ++ more)
                (line_here s e.host domain o
                  ((text_eq_iff (safe_domain unicode_lower e.host) domain).0 y))
            ∙ append_assoc (content s (lines_of dir domain)) (text_of o) more)
        | inr n ↦ rw n (
            rest
            ∙ ap (λ t. t ++ more)
                (line_there s e.host domain o (λ same.
                  ground (arith, n, text_eq_iff (safe_domain unicode_lower e.host) domain, same))))
      ]

  -- What is written of an entry.
  abbrev pub Written : S → S → CapturedEntry → Option Text → Type 0
  Written s s' e none = s' ≡ s
  Written s s' e (some pretty) = content s' (file_of dir unicode_lower e) ≡ pretty

  pub pretty_on :
      (s : S) (e : CapturedEntry) (pretty : Text)
      → write_pretty fs unicode_lower s dir e (some pretty)
        ≡ fs.write_file
            (ensure_output_dir fs unicode_lower s dir e.host).1
            (file_of dir unicode_lower e)
            pretty
  unfolding write_pretty
  pretty_on s e pretty =
      let fine = (ensured s e.host (lines_of dir [])).0 in rw (fine, write_pretty) refl

  pretty_lem :
      (s : S) (e : CapturedEntry) (o : Option Text)
      → let (fine, s') = write_pretty fs unicode_lower s dir e o in (fine ≡ true) × Written s s' e o
  pretty_lem s e none = unfold write_pretty in (refl, refl)
  pretty_lem s e (some pretty) =
      rw (pretty_on s e pretty) (works.write_file_fine _ _ pretty, works.write_file_here _ _ pretty)

  -- On a file system that works, an entry whose response body is JSON is written without an error,
  -- indented, to the file of its id below the directory of its domain; an entry whose response
  -- body is missing or not JSON leaves the file system as it is.
  pub json_write_entry_lem :
      (s : S) (e : CapturedEntry) (indent : Text → Option Text)
      → let (fine, s') = json_write_entry fs unicode_lower indent s dir e in
        (fine ≡ true) × Written s s' e (indent_json indent e)
  unfolding json_write_entry
  json_write_entry_lem s e indent = pretty_lem s e (indent_json indent e)
