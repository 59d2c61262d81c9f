-- ===== src/Output/Writers.antt =====
-- internal/output/file_writer.go: the two writers. An operation of a file system returns whether it
-- succeeded and the state after it.
use goper.Base.{ℕ, Bool, true, false, List, [], ◌∷◌, ◌++◌, Option, none, some, if◌then◌else◌}
use goper.Base.Text.{Text, codes}
use goper.Capture.Entry.{CapturedEntry}
use goper.Output.{safe_domain}

-- The names below the directory of a writer that lead to a file.
pub record FilePath : Type 0 where
  pub dir : Text
  pub below : List Text

abbrev pub join : FilePath → Text → FilePath
join p name = record p { below = p.below ++ name ∷ [] }

-- The writers by their directories. Both are made with `OSFileSystem`, whose operations are those of
-- the package os.
pub data Writer : Type 0 where
  json_body_writer ndjson_body_writer : Text → Writer

abbrev pub new_json_body_writer : Text → Writer
new_json_body_writer dir = json_body_writer dir

abbrev pub new_ndjson_body_writer : Text → Writer
new_ndjson_body_writer dir = ndjson_body_writer dir

-- `WriteEntry` of the `JSONWriter` of output.go, over the `Write` of an io.Writer and `json.Marshal`.
unfoldable pub json_writer_write_entry :
    {S : Type 0}
    → (S → Text → Bool × S)
    → (CapturedEntry → Option Text)
    → S
    → CapturedEntry
    → Bool × S
json_writer_write_entry write marshal s entry = elim (marshal entry) [
  | none ↦ (false, s)
  | some data' ↦ write s (data' ++ 10 ∷ [])
]

-- `open_file` is `OpenFile` for appending, with the file created if it is missing, and `write` is
-- `Write` on the file that it returns.
pub record FileSystem (S : Type 0) : Type 0 where
  pub mkdir_all : S → FilePath → Bool × S
  pub chmod : S → FilePath → Bool × S
  pub write_file : S → FilePath → Text → Bool × S
  pub open_file : S → FilePath → Bool × S
  pub write : S → FilePath → Text → Bool × S

-- `jsonBody` with one of the two functions of encoding/json, and a newline.
unfoldable pub format_json : (Text → Option Text) → Option Text → Option Text
format_json format none = none
format_json format (some body) = elim (format body) [ none ↦ none | some t ↦ some (t ++ 10 ∷ []) ]

abbrev pub indent_json : (Text → Option Text) → CapturedEntry → Option Text
indent_json indent entry = format_json indent entry.response_body

abbrev pub compact_json : (Text → Option Text) → CapturedEntry → Option Text
compact_json compact entry = format_json compact entry.response_body

module _ {S : Type 0} (fs : FileSystem S) (unicode_lower : ℕ → ℕ) where
  abbrev pub domain_dir : Text → Text → FilePath
  domain_dir dir host = record { dir = dir; below = safe_domain unicode_lower host ∷ [] }

  -- An operation that runs if the one before it succeeded.
  abbrev and_then : Bool × S → (S → Bool × S) → Bool × S
  and_then (fine, s) next = if fine then next s else (false, s)

  unfoldable pub ensure_output_dir : S → Text → Text → Bool × S
  ensure_output_dir s dir host =
      and_then (fs.mkdir_all s (domain_dir dir host)) (λ s'. fs.chmod s' (domain_dir dir host))

  unfoldable pub append_line : S → FilePath → Text → Bool × S
  append_line s path line = and_then (fs.open_file s path) (λ s'. fs.write s' path line)

  unfoldable pub write_line : S → Text → Text → Option Text → Bool × S
  write_line s dir host none = (true, s)
  write_line s dir host (some line) =
      and_then (ensure_output_dir s dir host)
        (λ s'. append_line s' (join (domain_dir dir host) (codes "responses.jsonl")) line)

  -- `WriteEntry` of the NDJSON writer.
  unfoldable pub ndjson_write_entry : (Text → Option Text) → S → Text → CapturedEntry → Bool × S
  unfolding write_line
  ndjson_write_entry compact s dir entry = write_line s dir entry.host (compact_json compact entry)

  unfoldable pub write_pretty : S → Text → CapturedEntry → Option Text → Bool × S
  write_pretty s dir entry none = (true, s)
  write_pretty s dir entry (some pretty) =
      and_then (ensure_output_dir s dir entry.host) (λ s'.
        fs.write_file s' (join (domain_dir dir entry.host) (entry.id ++ codes ".json")) pretty)

  -- `WriteEntry` of the JSON writer.
  unfoldable pub json_write_entry : (Text → Option Text) → S → Text → CapturedEntry → Bool × S
  unfolding write_pretty
  json_write_entry indent s dir entry = write_pretty s dir entry (indent_json indent entry)

  -- `WriteEntry` of the interface `Writer`, with `json.Indent` and `json.Compact`.
  unfoldable pub write_entry :
      (indent compact : Text → Option Text) → S → Writer → CapturedEntry → Bool × S
  write_entry indent compact s (json_body_writer dir) entry = json_write_entry indent s dir entry
  write_entry indent compact s (ndjson_body_writer dir) entry =
      ndjson_write_entry compact s dir entry
