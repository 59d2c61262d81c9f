-- ===== src/Capture/Subscribers/Bounded.antt =====
-- internal/capture/store.go: how many entries wait in the channels of the subscribers.
use goper.Base.{
  ℕ, zero, suc, ◌≤◌, true, List, [], ◌∷◌, ◌++◌, Option, none, some, ◌≡◌, refl, sym, ap, subst, inl,
  inr, arith, length, get_elem?, set, All, All-append, Bool-cases, ltb, ltb→lt, length-append,
  if_true, if_false, ◌∙◌,
}
use goper.Base.Chain.{or_else}
use goper.Capture.Entry.{CapturedEntry}
use goper.Capture.Subscribers.{
  Channel, Heap, World, Event, begin, deliver_next, join, leave, take_one, wipe, ◌>>=◌,
  channel_room, tail_of, send_on, send_or_skip, close_on, close_channel, subscribe,
  unsubscribe_found, unsubscribe, begin_push, deliver_at, deliver, take_from, receive, step, run,
  contains,
}

abbrev HasRoom : Channel → Type 0
HasRoom c = length c.queue ≤ channel_room

-- No channel holds more entries than its buffer has room for.
abbrev pub IsBounded : Heap → Type 0
IsBounded heap = All HasRoom heap

set-IsBounded :
    (heap : Heap) (i : ℕ) (c : Channel) → IsBounded heap → HasRoom c → IsBounded (set heap i c)
set-IsBounded [] i c h r = tt
set-IsBounded (d ∷ heap) zero c h r = (r, h.1)
set-IsBounded (d ∷ heap) (suc i) c h r = (h.0, set-IsBounded heap i c h.1 r)

-- A channel of a bounded heap.
found-HasRoom :
    (heap : Heap) (i : ℕ) (c : Channel) → IsBounded heap → get_elem? heap i ≡ some c → HasRoom c
found-HasRoom [] i c h e = absurd (ground (arith, e))
found-HasRoom (d ∷ heap) zero c h e = subst HasRoom (ap (or_else d) e) h.0
found-HasRoom (d ∷ heap) (suc i) c h e = found-HasRoom heap i c h.1 e

-- A chain that returns a value has passed its first step.
first_step :
    {A B : Type 0} (m : Option A) (f : A → Option B) (b : B)
    → (m >>= f) ≡ some b
    → (a : A) × (m ≡ some a) × (f a ≡ some b)
first_step none f b h = absurd (ground (arith, h))
first_step (some a) f b h = (a, refl, h)

send_on-IsBounded :
    (o : Option Channel) (heap heap' : Heap) (ch : ℕ) (entry : CapturedEntry)
    → IsBounded heap
    → send_on o heap ch entry ≡ some heap'
    → IsBounded heap'
unfolding send_on
send_on-IsBounded none heap heap' ch entry h e = absurd (ground (arith, e))
send_on-IsBounded (some c) heap heap' ch entry h e = elim (Bool-cases c.closed) [
  | inl closed ↦ absurd (ground (arith, e, closed))
  | inr open' ↦ elim (Bool-cases (ltb (length c.queue) channel_room)) [
    | inl room ↦
        let longer = record c { queue = c.queue ++ entry ∷ [] } in
        let sent : send_on (some c) heap ch entry ≡ some (set heap ch longer) =
          rw (open', room) refl in
        subst IsBounded (ap (or_else heap) (sym sent ∙ e)) (
          set-IsBounded heap ch longer h (
            omega (
              arith,
              length-append c.queue (entry ∷ []),
              ltb→lt (length c.queue) channel_room room,
            )))
    | inr full ↦
        let skipped : send_on (some c) heap ch entry ≡ some heap = rw (open', full) refl in
        subst IsBounded (ap (or_else heap) (sym skipped ∙ e)) h
  ]
]

close_on-IsBounded :
    (o : Option Channel) (heap heap' : Heap) (ch : ℕ)
    → IsBounded heap
    → get_elem? heap ch ≡ o
    → close_on o heap ch ≡ some heap'
    → IsBounded heap'
unfolding close_on
close_on-IsBounded none heap heap' ch h f e = absurd (ground (arith, e))
close_on-IsBounded (some c) heap heap' ch h f e = elim (Bool-cases c.closed) [
  | inl closed ↦ absurd (ground (arith, e, closed))
  | inr open' ↦
      let shut = record c { closed = true } in
      let done : close_on (some c) heap ch ≡ some (set heap ch shut) = rw open' refl in
      subst IsBounded (ap (or_else heap) (sym done ∙ e))
        (set-IsBounded heap ch shut h (found-HasRoom heap ch c h f))
]

unsubscribe-IsBounded :
    (w w' : World) (ch : ℕ) → IsBounded w.heap → unsubscribe w ch ≡ some w' → IsBounded w'.heap
unfolding unsubscribe unsubscribe_found close_channel
unsubscribe-IsBounded w w' ch h e = elim (Bool-cases (contains ch w.ring.subscribers)) [
  | inr gone ↦
      subst (λ (v : World). IsBounded v.heap) (ap (or_else w) (sym (if_false _ _ _ gone) ∙ e)) h
  | inl there ↦
      let (heap, c, e') =
        first_step (close_channel w.heap ch) _ w' (sym (if_true _ _ _ there) ∙ e) in
      subst (λ (v : World). IsBounded v.heap) (ap (or_else w) e')
        (close_on-IsBounded (get_elem? w.heap ch) w.heap heap ch h refl c)
]

deliver_at-IsBounded :
    (k : ℕ) (ps : List (List ℕ × CapturedEntry)) (heap : Heap)
    (x : Heap × List (List ℕ × CapturedEntry))
    → IsBounded heap
    → deliver_at k ps heap ≡ some x
    → IsBounded x.0
unfolding deliver_at send_or_skip
deliver_at-IsBounded k [] heap x h e = subst (λ y. IsBounded y.0) (ap (or_else x) e) h
deliver_at-IsBounded zero (([], entry) ∷ rest) heap x h e =
    subst (λ y. IsBounded y.0) (ap (or_else x) e) h
deliver_at-IsBounded zero ((ch ∷ subs, entry) ∷ rest) heap x h e =
    let (heap', s, e') = first_step (send_or_skip heap ch entry) _ x e in
    subst (λ y. IsBounded y.0) (ap (or_else x) e')
      (send_on-IsBounded (get_elem? heap ch) heap heap' ch entry h s)
deliver_at-IsBounded (suc k) (p ∷ rest) heap x h e =
    let (y, d, e') = first_step (deliver_at k rest heap) _ x e in
    subst (λ z. IsBounded z.0) (ap (or_else x) e') (deliver_at-IsBounded k rest heap y h d)

receive-IsBounded : (w : World) (ch : ℕ) → IsBounded w.heap → IsBounded (receive w ch).heap
unfolding receive take_from
receive-IsBounded w ch h = go (get_elem? w.heap ch) refl
  where
    shorter : (q : List CapturedEntry) → length (tail_of q) ≤ length q
    shorter [] = omega arith
    shorter (e ∷ es) = omega arith

    go : (o : Option Channel) → get_elem? w.heap ch ≡ o → IsBounded (take_from o w.heap ch)
    go none f = h
    go (some c) f =
        set-IsBounded w.heap ch (record c { queue = tail_of c.queue }) h
          (omega (arith, shorter c.queue, found-HasRoom w.heap ch c h f))

step-IsBounded :
    (ev : Event) (w w' : World) → IsBounded w.heap → step ev w ≡ some w' → IsBounded w'.heap
unfolding step begin_push subscribe deliver
step-IsBounded (begin env entry) w w' h e =
    subst (λ (v : World). IsBounded v.heap) (ap (or_else w) e) h
step-IsBounded (deliver_next k) w w' h e =
    let (x, d, e') = first_step (deliver_at k w.pending w.heap) _ w' e in
    subst (λ (v : World). IsBounded v.heap) (ap (or_else w) e')
      (deliver_at-IsBounded k w.pending w.heap x h d)
step-IsBounded join w w' h e =
    subst (λ (v : World). IsBounded v.heap) (ap (or_else w) e)
      (All-append HasRoom w.heap _ h (omega arith, tt))
step-IsBounded (leave ch) w w' h e = unsubscribe-IsBounded w w' ch h e
step-IsBounded (take_one ch) w w' h e =
    subst (λ (v : World). IsBounded v.heap) (ap (or_else w) e) (receive-IsBounded w ch h)
step-IsBounded wipe w w' h e = subst (λ (v : World). IsBounded v.heap) (ap (or_else w) e) h

-- However pushes, subscribers, readers and the API interleave, as long as nothing panics: no channel
-- comes to hold more than 100 entries, when none did before.
pub run-IsBounded :
    (evs : List Event) (w w' : World) → IsBounded w.heap → run evs w ≡ some w' → IsBounded w'.heap
unfolding run
run-IsBounded [] w w' h e = subst (λ (v : World). IsBounded v.heap) (ap (or_else w) e) h
run-IsBounded (ev ∷ evs) w w' h e =
    let (w1, s, e') = first_step (step ev w) _ w' e in
    run-IsBounded evs w1 w' (step-IsBounded ev w w1 h s) e'
