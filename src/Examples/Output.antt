-- ===== src/Examples/Output.antt =====
-- internal/output/file_writer.go over files in memory.
use goper.Base.{
  ℕ, true, List, [], ◌∷◌, ◌++◌, none, some, ◌≡◌, refl, ap, ap₂, if◌then◌else◌, Bool-cases, inl, inr,
}
use goper.Base.Int.{pos}
use goper.Base.Text.{Text, codes}
use goper.Capture.Entry.{CapturedEntry, zero_time}
use goper.Iptables.Table.{words_eq, words_eq_iff}
use goper.Output.{safe_domain}
use goper.Output.Domain.{safe_domain_lem, IsSegment}
use goper.Output.Writers.{FilePath, FileSystem}
use goper.Output.Files.{IsWorking}

abbrev pub Files : Type 0
Files = FilePath → Text

abbrev words : FilePath → List Text
words p = p.dir ∷ p.below

abbrev head_or : Text → List Text → Text
head_or default [] = default
head_or default (w ∷ ws) = w

abbrev rest_of : List Text → List Text
rest_of [] = []
rest_of (w ∷ ws) = ws

abbrev put : Files → FilePath → Text → Files
put files p t f = if words_eq (words f) (words p) then t else files f

abbrev pub in_memory_files : FileSystem Files
in_memory_files = record {
  mkdir_all = λ s p. (true, s);
  chmod = λ s p. (true, s);
  write_file = λ s p t. (true, put s p t);
  open_file = λ s p. (true, s);
  write = λ s p t. (true, put s p (s p ++ t));
}

abbrev pub reading : Files → FilePath → Text
reading files p = files p

same_words : (f p : FilePath) → words f ≡ words p → f ≡ p
same_words f p e =
    ap₂ (λ (d : Text) (b : List Text). record { dir = d; below = b }) (ap (head_or []) e)
      (ap rest_of e)

pub in_memory_files-IsWorking : IsWorking in_memory_files reading
in_memory_files-IsWorking = record {
  mkdir_fine = λ s p. refl;
  mkdir_same = λ s p f. refl;
  chmod_fine = λ s p. refl;
  chmod_same = λ s p f. refl;
  open_fine = λ s p. refl;
  open_same = λ s p f. refl;
  write_fine = λ s p t. refl;
  write_here = λ s p t. rw ((words_eq_iff (words p) (words p)).1 refl) refl;
  write_file_fine = λ s p t. refl;
  write_file_here = λ s p t. rw ((words_eq_iff (words p) (words p)).1 refl) refl;
  write_there = λ s p f t n. elim (Bool-cases (words_eq (words f) (words p))) [
    | inl e ↦ absurd (n (same_words f p ((words_eq_iff (words f) (words p)).0 e)))
    | inr e ↦ rw e refl
  ];
  write_file_there = λ s p f t n. elim (Bool-cases (words_eq (words f) (words p))) [
    | inl e ↦ absurd (n (same_words f p ((words_eq_iff (words f) (words p)).0 e)))
    | inr e ↦ rw e refl
  ];
}

abbrev pub answered : Text → Text → CapturedEntry
answered host body = record {
  id = codes "1";
  timestamp = zero_time;
  duration_ms = pos 3;
  method = codes "GET";
  url = codes "http://a/";
  scheme = codes "http";
  host = host;
  path = codes "/";
  request_headers = [];
  request_body = none;
  status_code = pos 200;
  response_headers = [];
  response_body = some body;
  content_type = codes "application/json";
}

abbrev pub unchanged : ℕ → ℕ
unchanged r = r

abbrev pub empty_files : Files
empty_files p = []

abbrev entries : List CapturedEntry
entries = answered (codes "A.example:80") (codes "{}") ∷ answered (codes "b") (codes "[]") ∷ []

safe_domain_lem_example : IsSegment (safe_domain unchanged (codes "..:80"))
safe_domain_lem_example = safe_domain_lem unchanged (codes "..:80")
