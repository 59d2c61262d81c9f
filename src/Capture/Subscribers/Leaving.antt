-- ===== src/Capture/Subscribers/Leaving.antt =====
-- internal/capture/store.go: a subscriber that joins and leaves again.
use goper.Base.{
  ℕ, ◌==◌, true, false, List, [], ◌∷◌, ◌++◌, some, ◌≡◌, ◌≢◌, refl, ap, inl, inr, arith, length, All,
  All-map, Bool-cases,
}
use goper.Capture.Subscribers.{
  World, ◌>>=◌, contains, remove_first, subscribe, unsubscribe_found, unsubscribe,
}
use goper.Capture.Subscribers.Sends.{close_open}
use goper.Capture.Subscribers.Safety.{IsWired, open-lt, join-IsWired, contained-IsOpen}

contains-append_end : (ch : ℕ) (subs : List ℕ) → contains ch (subs ++ ch ∷ []) ≡ true
unfolding contains
contains-append_end ch [] = ground arith
contains-append_end ch (d ∷ subs) = elim (Bool-cases (d == ch)) [
  | inl e ↦ rw e refl
  | inr e ↦ rw e (contains-append_end ch subs)
]

remove_first-append_end :
    (ch : ℕ) (subs : List ℕ) → All (λ d. d ≢ ch) subs → remove_first ch (subs ++ ch ∷ []) ≡ subs
unfolding remove_first
remove_first-append_end ch [] n = ground arith
remove_first-append_end ch (d ∷ subs) n =
    let other : (d == ch) ≡ false = ground (arith, n.0) in
    rw other (ap (◌∷◌ d) (remove_first-append_end ch subs n.1))

-- Joining and leaving again gives back the list of subscribers, and nothing panics.
pub joined-leaves :
    (w : World)
    → IsWired w
    → (w' : World) × (unsubscribe (subscribe w).0 (subscribe w).1 ≡ some w') × (w'.ring ≡ w.ring)
unfolding subscribe unsubscribe unsubscribe_found
joined-leaves w h =
    let ch = length w.heap in
    let present = contains-append_end ch w.ring.subscribers in
    let joined = join-IsWired w h in
    let (heap', done, shut, same) = close_open (subscribe w).0.heap ch (
      contained-IsOpen (subscribe w).0.heap ch (w.ring.subscribers ++ ch ∷ []) joined.all_open
        present) in
    let rb = w.ring in
    (
      record w {
        ring = record rb { subscribers = remove_first ch (w.ring.subscribers ++ ch ∷ []) };
        heap = heap';
      },
      rw (present, done, ◌>>=◌) refl,
      ap (λ (subs : List ℕ). record rb { subscribers = subs })
          (remove_first-append_end ch w.ring.subscribers (
            All-map _ _ (λ d o e. absurd (omega (arith, open-lt w.heap d o, e))) w.ring.subscribers
              h.all_open)),
    )
