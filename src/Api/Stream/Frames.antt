-- ===== src/Api/Stream/Frames.antt =====
-- internal/api/handlers_sse.go: what a client of the stream receives.
use goper.Base.{
  ℕ, zero, suc, ◌-◌, ◌<◌, Bool, true, false, List, [], ◌∷◌, ◌++◌, Option, none, some, ◌≡◌, refl,
  sym, ap, ap₂, ◌∙◌, inl, inr, arith, leb, if◌then◌else◌, length, take, length-append, Bool-cases,
}
use mathlib.Core.List.{append_assoc, append-nil}
use goper.Base.Int.{pos, leb_ℤ}
use goper.Base.Text.{Text}
use goper.Capture.Entry.{CapturedEntry}
use goper.Capture.Filter.{limit_only, first_page}
use goper.Capture.Ring.{RingBuffer}
use goper.Capture.Ring.Spec.{Holds}
use goper.Capture.Ring.Refine.{list-Holds}
use goper.Api.Stream.{
  Client, write, write_after, ping_text, event_text, write_sse_ping, write_marshalled, write_sse,
  write_entries, backfill_sse, StreamEvent, cancelled, ticked, closed, arrived, stream_select,
  stream_loop, stream_requests,
}

take-append {ℓ} :
    {A : Type ℓ} (n : ℕ) (xs ys : List A) → take n (xs ++ ys) ≡ take n xs ++ take (n - length xs) ys
take-append zero [] ys = refl
take-append zero (x ∷ xs) ys = let e : 0 - length (x ∷ xs) ≡ 0 = omega arith in rw e refl
take-append (suc n) [] ys = let e : suc n - 0 ≡ suc n = omega arith in rw e refl
take-append (suc n) (x ∷ xs) ys =
    let e : suc n - length (x ∷ xs) ≡ n - length xs = omega arith in
    rw (e, take-append n xs ys) refl

take_nothing {ℓ} : {A : Type ℓ} (r : ℕ) → take {A = A} r [] ≡ []
take_nothing zero = refl
take_nothing (suc r) = refl

abbrev client : List Text → ℕ → Client
client s r = record { sent = s; room = r }

-- A client after the texts that were meant for it, in order, until its connection is lost.
abbrev pub given : List Text → ℕ → List Text → Client
given s r texts = client (s ++ take r texts) (r - length texts)

given-append :
    (s : List Text) (r : ℕ) (xs ys : List Text)
    → given (s ++ take r xs) (r - length xs) ys ≡ given s r (xs ++ ys)
given-append s r xs ys =
    ap₂ client
      (append_assoc s (take r xs) (take (r - length xs) ys)
        ∙ ap (λ l. s ++ l) (sym (take-append r xs ys)))
      (omega (arith, length-append xs ys))

given_nothing : (s : List Text) (r : ℕ) → given s r [] ≡ client s r
given_nothing s r = ap₂ client (ap (λ l. s ++ l) (take_nothing r) ∙ append-nil s) (omega arith)

-- The text of an entry, if it can be marshalled.
abbrev pub frame : Option Text → List Text
frame none = []
frame (some data') = event_text data' ∷ []

write_lem :
    (s : List Text) (r : ℕ) (t : Text) → write (client s r) t ≡ (leb 1 r, given s r (t ∷ []))
unfolding write write_after
write_lem s zero t = ap (λ l. (false, client l 0)) (sym (append-nil s))
write_lem s (suc n) t =
    let here : leb 1 (suc n) ≡ true = ground arith in
    let left : n ≡ suc n - 1 = omega arith in
    ap₂ (λ b c. (b, c)) (sym here) (ap₂ client (ap (λ l. s ++ t ∷ l) (sym (take_nothing n))) left)

write_marshalled_lem :
    (s : List Text) (r : ℕ) (o : Option Text)
    → write_marshalled (client s r) o ≡ (leb (length (frame o)) r, given s r (frame o))
unfolding write_marshalled
write_marshalled_lem s r none = ap₂ (λ b c. (b, c)) (ground arith) (sym (given_nothing s r))
write_marshalled_lem s r (some d) = write_lem s r (event_text d)

given_lost :
    (s : List Text) (r : ℕ) (xs ys : List Text)
    → leb (length xs) r ≡ false
    → given s r xs ≡ given s r (xs ++ ys)
given_lost s r xs ys e =
    let z : r - length xs ≡ 0 = ground (arith, e) in
    ap₂ client (sym (ap (λ k. (s ++ take r xs) ++ take k ys) z ∙ append-nil (s ++ take r xs)))
      (omega (arith, z))
    ∙ given-append s r xs ys

-- A write that may be the last one, and what follows it if it is not.
given_on :
    (s : List Text) (r : ℕ) (xs ys : List Text)
    → (if leb (length xs) r then given (s ++ take r xs) (r - length xs) ys else given s r xs)
      ≡ given s r (xs ++ ys)
given_on s r xs ys = elim (Bool-cases (leb (length xs) r)) [
  | inl e ↦ rw e (given-append s r xs ys)
  | inr e ↦ rw e (given_lost s r xs ys e)
]

given_both :
    (s : List Text) (r : ℕ) (xs ys : List Text)
    → ◌≡◌ {A = Bool × Client}
        (if leb (length xs) r
          then (leb (length ys) (r - length xs), given (s ++ take r xs) (r - length xs) ys)
          else (false, given s r xs))
        (leb (length (xs ++ ys)) r, given s r (xs ++ ys))
given_both s r xs ys = elim (Bool-cases (leb (length xs) r)) [
  | inl e ↦
      rw e (ap₂ (λ b c. (b, c)) (ground (arith, e, length-append xs ys)) (given-append s r xs ys))
  | inr e ↦
      rw e (ap₂ (λ b c. (b, c)) (ground (arith, e, length-append xs ys)) (given_lost s r xs ys e))
]

unfoldable pub frames : (CapturedEntry → Option Text) → List CapturedEntry → List Text
frames marshal [] = []
frames marshal (e ∷ es) = frame (marshal e) ++ frames marshal es

-- The texts of a stream's live events, up to the one that ends it.
unfoldable pub live_frames : (CapturedEntry → Option Text) → List StreamEvent → List Text
live_frames marshal [] = []
live_frames marshal (cancelled ∷ es) = []
live_frames marshal (ticked ∷ es) = ping_text ∷ live_frames marshal es
live_frames marshal (closed ∷ es) = []
live_frames marshal (arrived e ∷ es) = frame (marshal e) ++ live_frames marshal es

module _ (marshal : CapturedEntry → Option Text) where
  write_entries_lem :
      (s : List Text) (r : ℕ) (es : List CapturedEntry)
      → write_entries marshal (client s r) es
        ≡ (leb (length (frames marshal es)) r, given s r (frames marshal es))
  unfolding write_entries frames write_sse
  write_entries_lem s r [] = ap₂ (λ b c. (b, c)) (ground arith) (sym (given_nothing s r))
  write_entries_lem s r (e ∷ es) =
      let xs = frame (marshal e) in
      rw
        (
          write_marshalled_lem s r (marshal e),
          write_entries_lem (s ++ take r xs) (r - length xs) es,
        )
        (given_both s r xs (frames marshal es))

  stream_loop_lem :
      (s : List Text) (r : ℕ) (es : List StreamEvent)
      → stream_loop marshal (client s r) es ≡ given s r (live_frames marshal es)
  unfolding stream_loop live_frames stream_select write_sse write_sse_ping
  stream_loop_lem s r [] = sym (given_nothing s r)
  stream_loop_lem s r (cancelled ∷ es) = sym (given_nothing s r)
  stream_loop_lem s r (closed ∷ es) = sym (given_nothing s r)
  stream_loop_lem s r (ticked ∷ es) =
      let xs = ping_text ∷ [] in
      rw (write_lem s r ping_text, stream_loop_lem (s ++ take r xs) (r - length xs) es)
        (given_on s r xs (live_frames marshal es))
  stream_loop_lem s r (arrived e ∷ es) =
      let xs = frame (marshal e) in
      rw (write_marshalled_lem s r (marshal e), stream_loop_lem (s ++ take r xs) (r - length xs) es)
        (given_on s r xs (live_frames marshal es))

  -- A client whose connection can take `c.room` more texts receives, until then and in this
  -- order, the first `n` entries of the store, the oldest ones, and then the live events up to
  -- the one that ends the stream. Entries that cannot be marshalled are passed over.
  pub stream_requests_lem :
      (rb : RingBuffer) (q : List CapturedEntry) (c : Client) (n : ℕ) (events : List StreamEvent)
      → Holds rb q
      → 0 < n
      → stream_requests marshal rb c (pos n) events
        ≡ given c.sent c.room (frames marshal (take n q) ++ live_frames marshal events)
  unfolding stream_requests backfill_sse
  stream_requests_lem rb q c n events h p =
      let up : leb_ℤ (pos n) (pos 0) ≡ false = ground arith in
      let xs = frames marshal (take n q) in
      rw
        (
          up,
          list-Holds rb (limit_only (pos n)) q h,
          first_page q n p,
          write_entries_lem c.sent c.room (take n q),
          stream_loop_lem (c.sent ++ take c.room xs) (c.room - length xs) events,
        )
        (given_on c.sent c.room xs (live_frames marshal events))
