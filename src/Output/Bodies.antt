-- ===== src/Output/Bodies.antt =====
-- internal/output/file_writer.go: the JSON writer on one entry after another.
use goper.Base.{ℕ, List, [], ◌∷◌, Option, none, some, ◌≡◌, ◌≢◌, refl, sym, ap, ◌∙◌, All, All-map}
use mathlib.Core.List.{append_cancel_right}
use goper.Base.Text.{Text, codes}
use goper.Capture.Apart.{Apart}
use goper.Capture.Entry.{CapturedEntry}
use goper.Output.Calls.{calls, run_calls}
use goper.Output.Writers.{
  FilePath, FileSystem, json_body_writer, indent_json, write_pretty, json_write_entry, write_entry,
}
use goper.Output.Files.{IsWorking, file_of, ensured, pretty_on, json_write_entry_lem, Written}

module _ {S : Type 0} (fs : FileSystem S) (content : S → FilePath → Text)
    (works : IsWorking fs content) (unicode_lower : ℕ → ℕ) (indent compact : Text → Option Text)
    (dir : Text) where
  pretty_there :
      (s : S) (e : CapturedEntry) (o : Option Text) (f : FilePath)
      → f ≢ file_of dir unicode_lower e
      → content (write_pretty fs unicode_lower s dir e o).1 f ≡ content s f
  unfolding write_pretty
  pretty_there s e none f n = refl
  pretty_there s e (some pretty) f n =
      let d = ensured fs content works unicode_lower compact dir s e.host f in
      ap (λ x. content x.1 f) (pretty_on fs content works unicode_lower compact dir s e pretty)
      ∙ works.write_file_there _ _ f pretty n
      ∙ d.1

  -- The writer on one entry after another.
  abbrev json_each : S → List CapturedEntry → S
  json_each s [] = s
  json_each s (e ∷ es) = json_each (json_write_entry fs unicode_lower indent s dir e).1 es

  json_each-there :
      (s : S) (es : List CapturedEntry) (f : FilePath)
      → All (λ e. f ≢ file_of dir unicode_lower e) es
      → content (json_each s es) f ≡ content s f
  unfolding json_write_entry
  json_each-there s [] f n = refl
  json_each-there s (e ∷ es) f n =
      json_each-there (json_write_entry fs unicode_lower indent s dir e).1 es f n.1
      ∙ pretty_there s e (indent_json indent e) f n.0

  second_of : List Text → Text
  second_of [] = []
  second_of (name ∷ []) = []
  second_of (name ∷ next ∷ names) = next

  file_of_ne :
      (e x : CapturedEntry)
      → x.id ≢ e.id
      → file_of dir unicode_lower e ≢ file_of dir unicode_lower x
  unfolding second_of
  file_of_ne e x n h = n (
      sym (
        append_cancel_right e.id x.id (codes ".json") (ap (λ (p : FilePath). second_of p.below) h)))

  -- The file of an entry whose body is JSON holds that body, indented.
  abbrev pub Stored : S → CapturedEntry → Option Text → Type 0
  Stored s e none = Unit
  Stored s e (some pretty) = content s (file_of dir unicode_lower e) ≡ pretty

  Stored-later :
      (s s1 s2 : S) (e : CapturedEntry) (o : Option Text)
      → Written fs content works unicode_lower compact dir s s1 e o
      → content s2 (file_of dir unicode_lower e) ≡ content s1 (file_of dir unicode_lower e)
      → Stored s2 e o
  Stored-later s s1 s2 e none w same = tt
  Stored-later s s1 s2 e (some pretty) w same = same ∙ w

  -- Entries with ids of their own do not overwrite each other's files.
  pub json_each-Stored :
      (s : S) (es : List CapturedEntry)
      → Apart es
      → All (λ (e : CapturedEntry). Stored (json_each s es) e (indent_json indent e)) es
  json_each-Stored s [] a = tt
  json_each-Stored s (e ∷ es) a =
      let s1 = (json_write_entry fs unicode_lower indent s dir e).1 in
      (
        Stored-later s s1 (json_each s1 es) e (indent_json indent e)
            (json_write_entry_lem fs content works unicode_lower compact dir s e indent).1
            (json_each-there s1 es (file_of dir unicode_lower e)
              (All-map _ _ (λ x n. file_of_ne e x n) es a.0)),
        json_each-Stored s1 es a.1,
      )

  -- On the JSON writer of a directory alone.
  pub run_calls-json :
      (s : S) (es : List CapturedEntry)
      → run_calls fs unicode_lower indent compact s (calls (json_body_writer dir ∷ []) es)
        ≡ json_each s es
  unfolding run_calls calls write_entry
  run_calls-json s [] = refl
  run_calls-json s (e ∷ es) = run_calls-json (json_write_entry fs unicode_lower indent s dir e).1 es
