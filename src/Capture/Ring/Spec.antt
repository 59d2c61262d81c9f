-- ===== src/Capture/Ring/Spec.antt =====
-- What a ring buffer of internal/capture/store.go stands for: the list of its entries, oldest
-- first, each id at most once.
use goper.Base.{
  ℕ, zero, suc, ◌+◌, ◌-◌, ◌%◌, ◌<◌, ◌≤◌, List, [], ◌∷◌, ◌++◌, Option, none, some, ◌≡◌, refl, ap,
  arith, if◌then◌else◌, length, get_elem?, drop, length-append, length-drop, drop-append_later, ◌∙◌,
}
use goper.Base.Text.{Text, text_eq, text_eq_iff}
use goper.Capture.Entry.{CapturedEntry}
use goper.Capture.Ring.{RingBuffer, slot}

-- The newest `n` items of a history.
abbrev pub keep_last {ℓ} : {A : Type ℓ} → ℕ → List A → List A
keep_last n xs = drop (length xs - n) xs

abbrev pub next_position : Option ℕ → Option ℕ
next_position none = none
next_position (some i) = some (suc i)

-- Where the first entry with an id stands.
unfoldable pub position : Text → List CapturedEntry → Option ℕ
position id [] = none
position id (x ∷ xs) = if text_eq x.id id then some 0 else next_position (position id xs)

-- The first entry with an id.
unfoldable pub find : Text → List CapturedEntry → Option CapturedEntry
find id [] = none
find id (x ∷ xs) = if text_eq x.id id then some x else find id xs

abbrev pub HasDistinctIds : List CapturedEntry → Type 0
HasDistinctIds [] = Unit
HasDistinctIds (x ∷ xs) = (find x.id xs ≡ none) × HasDistinctIds xs

-- The slot of the entry at a position.
abbrev pub at_slot : ℕ → ℕ → Option ℕ → Option ℕ
at_slot head capacity none = none
at_slot head capacity (some i) = some ((head + i) % capacity)

-- The buffer holds exactly the entries `q`, in order from the head, its other slots are nil, and
-- the index finds each entry's slot and nothing else.
pub record Holds (rb : RingBuffer) (q : List CapturedEntry) : Type 0 where
  pub sized : length rb.buffer ≡ rb.capacity
  pub head_in : rb.head < rb.capacity
  pub tail_at : rb.tail ≡ (rb.head + rb.count) % rb.capacity
  pub counted : rb.count ≡ length q
  pub fits : rb.count ≤ rb.capacity
  pub slots :
      (i : ℕ) → i < rb.capacity → slot rb.buffer ((rb.head + i) % rb.capacity) ≡ get_elem? q i
  pub indexed : (id : Text) → rb.id_index id ≡ at_slot rb.head rb.capacity (position id q)
  pub distinct : HasDistinctIds q

pub position-none : (id : Text) (q : List CapturedEntry) → find id q ≡ none → position id q ≡ none
unfolding find position
position-none id [] h = refl
position-none id (x ∷ xs) h = ground (arith, position-none id xs)

pub find-position :
    (id : Text) (q : List CapturedEntry) (i : ℕ)
    → position id q ≡ some i
    → get_elem? q i ≡ find id q
unfolding find position
find-position id [] i h = ground arith
find-position id (x ∷ xs) zero h = ground arith
find-position id (x ∷ xs) (suc i) h = ground (arith, find-position id xs i)

pub position-lt :
    (id : Text) (q : List CapturedEntry) (i : ℕ) → position id q ≡ some i → i < length q
unfolding position
position-lt id [] i h = ground arith
position-lt id (x ∷ xs) zero h = ground arith
position-lt id (x ∷ xs) (suc i) h = ground (arith, position-lt id xs i)

-- An entry with an id is found as soon as its id has a position.
pub find-none : (id : Text) (q : List CapturedEntry) → position id q ≡ none → find id q ≡ none
unfolding find position
find-none id [] h = refl
find-none id (x ∷ xs) h = ground (arith, find-none id xs)

pub position-append :
    (e : CapturedEntry) (q : List CapturedEntry) (id : Text)
    → find e.id q ≡ none
    → position id (q ++ e ∷ []) ≡ (if text_eq e.id id then some (length q) else position id q)
unfolding find position
position-append e [] id h = refl
position-append e (x ∷ xs) id h = ground (
  arith,
  position-append e xs id,
  text_eq_iff e.id id,
  text_eq_iff x.id id,
  text_eq_iff x.id e.id,
)

pub find-append :
    (e : CapturedEntry) (q : List CapturedEntry) (id : Text)
    → find id q ≡ none
    → find id (q ++ e ∷ []) ≡ (if text_eq e.id id then some e else none)
unfolding find
find-append e [] id h = refl
find-append e (x ∷ xs) id h = ground (arith, find-append e xs id)

pub append-HasDistinctIds :
    (q : List CapturedEntry) (e : CapturedEntry)
    → HasDistinctIds q
    → find e.id q ≡ none
    → HasDistinctIds (q ++ e ∷ [])
unfolding find
append-HasDistinctIds [] e d h = (refl, tt)
append-HasDistinctIds (x ∷ xs) e d h = (
  ground (arith, find-append e xs x.id, text_eq_iff e.id x.id, text_eq_iff x.id e.id),
  append-HasDistinctIds xs e d.1 (ground arith),
)

pub keep_last_all {ℓ} : {A : Type ℓ} (n : ℕ) (xs : List A) → length xs ≤ n → keep_last n xs ≡ xs
keep_last_all n xs h = let e : length xs - n ≡ 0 = omega arith in ap (λ k. drop k xs) e

pub keep_last-append {ℓ} :
    {A : Type ℓ} (n : ℕ) (xs ys : List A)
    → keep_last n (keep_last n xs ++ ys) ≡ keep_last n (xs ++ ys)
keep_last-append n xs ys =
    let k = length xs - n in
    let e : length (drop k xs ++ ys) - n ≡ length (xs ++ ys) - n - k =
      omega (arith, length-append (drop k xs) ys, length-append xs ys, length-drop k xs) in
    ap (λ j. drop j (drop k xs ++ ys)) e
    ∙ drop-append_later k (length (xs ++ ys) - n) xs ys (omega arith)
        (omega (arith, length-append xs ys))
