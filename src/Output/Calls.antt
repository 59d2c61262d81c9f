-- ===== src/Output/Calls.antt =====
-- internal/output/file_writer.go: calls of WriteEntry on several writers, one after another. Their
-- errors are only logged.
use goper.Base.{ℕ, List, [], ◌∷◌, ◌++◌, map, Option, ◌≡◌, refl, sym, ap, ◌∙◌}
use mathlib.Core.List.{append_assoc}
use goper.Base.Text.{Text}
use goper.Capture.Entry.{CapturedEntry}
use goper.Output.Writers.{
  FileSystem, FilePath, Writer, ndjson_body_writer, ndjson_write_entry, write_entry,
}
use goper.Output.Files.{IsWorking, write_each}

-- Each entry in turn, to each output.
unfoldable pub calls : List Writer → List CapturedEntry → List (Writer × CapturedEntry)
calls ws [] = []
calls ws (e ∷ es) = map (λ w. (w, e)) ws ++ calls ws es

pub calls-append :
    (ws : List Writer) (es fs : List CapturedEntry)
    → calls ws (es ++ fs) ≡ calls ws es ++ calls ws fs
unfolding calls
calls-append ws [] fs = refl
calls-append ws (e ∷ es) fs =
    ap (λ l. map (λ w. (w, e)) ws ++ l) (calls-append ws es fs)
    ∙ sym (append_assoc (map (λ w. (w, e)) ws) (calls ws es) (calls ws fs))

module _ {S : Type 0} (fs : FileSystem S) (unicode_lower : ℕ → ℕ)
    (indent compact : Text → Option Text) where
  unfoldable pub run_calls : S → List (Writer × CapturedEntry) → S
  run_calls s [] = s
  run_calls s ((w, e) ∷ cs) = run_calls (write_entry fs unicode_lower indent compact s w e).1 cs

  -- On the NDJSON writer of a directory alone.
  pub run_calls-ndjson :
      (content : S → FilePath → Text) (works : IsWorking fs content) (dir : Text) (s : S)
      (es : List CapturedEntry)
      → run_calls s (calls (ndjson_body_writer dir ∷ []) es)
        ≡ write_each fs content works unicode_lower compact dir s es
  unfolding run_calls calls write_each write_entry
  run_calls-ndjson content works dir s [] = refl
  run_calls-ndjson content works dir s (e ∷ es) =
      run_calls-ndjson content works dir (ndjson_write_entry fs unicode_lower compact s dir e).1 es
