-- ===== src/Proxy/Inner/Sound.antt =====
-- internal/proxy/transparent_loop.go, serveInner: what holds however the goroutines interleave.
use goper.Base.{
  ℕ, ◌+◌, ◌<◌, ◌≤◌, ◌≡◌, ◌≢◌, ◌⊎◌, true, false, none, some, if◌then◌else◌, if_true, if_false, refl,
  sym, ap, ◌∙◌, subst, arith, inl, inr, Bool-cases,
}
use goper.Base.Chain.{or_else}
use goper.Proxy.Inner.{
  Phase, Inner, serve_inner, accept_locked, close_signal, mark_once, close_listener, after_accept,
  serve_phase, serve_next, close_inner, notified, notify_close, Close, Step, leaves, serves, closes,
  notifies, Reach, start, later,
}

-- The connection has been handed out at most once, by the listener's count; the channel is closed
-- exactly when `onClose` has run, and then the connection is closed; so is it whenever a goroutine is
-- about to run `onClose`, and when Accept has failed.
pub record IsSound (s : Inner) : Type 0 where
  pub once_handed : s.handed ≡ (if s.listener.served then 1 else 0)
  pub same_once : s.listener.once ≡ s.conn_once
  pub same_closed : s.listener.closed ≡ s.conn_once
  pub notified_closed : s.conn_once ≡ true → s.conn_closed ≡ true
  pub closing_closed : 0 < s.closing → s.conn_closed ≡ true
  pub ended_closed : s.phase ≡ Phase.ended → s.listener.closed ≡ true
  pub waiting_served : s.phase ≢ Phase.accepting → s.listener.served ≡ true

serve_inner-IsSound : IsSound serve_inner
unfolding serve_inner
serve_inner-IsSound = record {
  once_handed = refl;
  same_once = refl;
  same_closed = refl;
  notified_closed = λ e. absurd (ground (arith, e));
  closing_closed = λ h. absurd (omega (arith, h));
  ended_closed = λ e. absurd (ground (arith, e));
  waiting_served = λ n. absurd (n refl);
}

after_accept-IsSound :
    (s : Inner)
    → IsSound s
    → s.phase ≡ Phase.accepting
    → IsSound (after_accept s (accept_locked s.listener))
unfolding after_accept accept_locked
after_accept-IsSound s i at_call = elim (Bool-cases s.listener.served) [
  | inl e ↦
      subst (λ a. IsSound (after_accept s a)) (sym (if_true s.listener.served _ _ e))
        (record {
          once_handed = i.once_handed;
          same_once = i.same_once;
          same_closed = i.same_closed;
          notified_closed = i.notified_closed;
          closing_closed = i.closing_closed;
          ended_closed = λ n. absurd (ground (arith, n));
          waiting_served = λ n. e;
        })
  | inr e ↦
      subst (λ a. IsSound (after_accept s a)) (sym (if_false s.listener.served _ _ e))
        (record {
          once_handed = ground (arith, e, i.once_handed);
          same_once = i.same_once;
          same_closed = i.same_closed;
          notified_closed = i.notified_closed;
          closing_closed = i.closing_closed;
          ended_closed = i.ended_closed;
          waiting_served = λ n. refl;
        })
]

serve_phase-IsSound :
    (s t : Inner) (p : Phase) → IsSound s → s.phase ≡ p → serve_phase s p ≡ some t → IsSound t
unfolding serve_phase
serve_phase-IsSound s t Phase.accepting i at_p h =
    subst IsSound (ap (or_else s) h) (after_accept-IsSound s i at_p)
serve_phase-IsSound s t Phase.waiting i at_p h = elim (Bool-cases s.listener.closed) [
  | inl e ↦ subst IsSound (ap (or_else s) (sym (if_true s.listener.closed _ _ e) ∙ h)) (record {
    once_handed = i.once_handed;
    same_once = i.same_once;
    same_closed = i.same_closed;
    notified_closed = i.notified_closed;
    closing_closed = i.closing_closed;
    ended_closed = λ q. e;
    waiting_served = λ q. i.waiting_served (λ p. ground (arith, p, at_p));
  })
  | inr e ↦ absurd (ground (arith, e, h))
]
serve_phase-IsSound s t Phase.ended i at_p h = absurd (ground (arith, h))

-- Once `onClose` has run, it does nothing; before, it closes the channel.
notify_close-done : (s : Inner) → s.conn_once ≡ true → notify_close s ≡ some s
unfolding notify_close
notify_close-done s e = if_true s.conn_once _ _ e

abbrev pub signalled : Inner → Inner
signalled s = record s {
  listener = record s.listener { closed = true; once = true };
  conn_once = true;
}

notify_close-first :
    (s : Inner) → IsSound s → s.conn_once ≡ false → notify_close s ≡ some (signalled s)
unfolding notify_close close_listener close_signal mark_once notified
notify_close-first s i e =
    if_false s.conn_once _ _ e
    ∙ ap (notified s) (
        if_false s.listener.once _ _ (i.same_once ∙ e)
        ∙ ap mark_once (if_false s.listener.closed _ _ (i.same_closed ∙ e)))

-- What running `onClose` leaves: nothing changed, or the channel closed.
pub notify_close-lem :
    (s : Inner)
    → IsSound s
    → ((s.conn_once ≡ true) × (notify_close s ≡ some s)) ⊎ (notify_close s ≡ some (signalled s))
notify_close-lem s i = elim (Bool-cases s.conn_once) [
  | inl e ↦ inl (e, notify_close-done s e)
  | inr e ↦ inr (notify_close-first s i e)
]

notify_close-IsSound :
    (s t : Inner) (n : ℕ)
    → IsSound s
    → s.closing ≡ n + 1
    → notify_close s ≡ some t
    → IsSound (record t { closing = n })
notify_close-IsSound s t n i more h =
    let was_closed = i.closing_closed (omega (arith, more)) in
    elim (notify_close-lem s i) [
      | inl same ↦
          subst (λ (u : Inner). IsSound (record u { closing = n }))
            (ap (or_else s) (sym same.1 ∙ h))
            (record {
              once_handed = i.once_handed;
              same_once = i.same_once;
              same_closed = i.same_closed;
              notified_closed = i.notified_closed;
              closing_closed = λ k. was_closed;
              ended_closed = i.ended_closed;
              waiting_served = i.waiting_served;
            })
      | inr e ↦
          subst (λ (u : Inner). IsSound (record u { closing = n })) (ap (or_else s) (sym e ∙ h))
            (record {
              once_handed = i.once_handed;
              same_once = refl;
              same_closed = refl;
              notified_closed = λ k. was_closed;
              closing_closed = λ k. was_closed;
              ended_closed = λ k. refl;
              waiting_served = i.waiting_served;
            })
    ]

Close-IsSound : {s t : Inner} → Close s t → IsSound s → IsSound t
unfolding close_inner
Close-IsSound (closes one) i = record {
  once_handed = i.once_handed;
  same_once = i.same_once;
  same_closed = i.same_closed;
  notified_closed = λ e. refl;
  closing_closed = λ e. refl;
  ended_closed = i.ended_closed;
  waiting_served = i.waiting_served;
}
Close-IsSound {s = s} (notifies {t = t} n more h) i = notify_close-IsSound s t n i more h

Step-IsSound : {s t : Inner} → Step s t → IsSound s → IsSound t
unfolding serve_next
Step-IsSound (serves {t = t} h) i = serve_phase-IsSound _ t _ i refl h
Step-IsSound (leaves c) i = Close-IsSound c i

pub Reach-IsSound : {s : Inner} → Reach s → IsSound s
Reach-IsSound start = serve_inner-IsSound
Reach-IsSound (later r st) = Step-IsSound st (Reach-IsSound r)

handed_once : (s : Inner) → IsSound s → s.handed ≤ 1
handed_once s i = ground (arith, i.once_handed)

-- However Serve and the goroutines that close the connection interleave: Accept has returned the
-- connection at most once, running `onClose` never closes the channel a second time, and if Accept
-- has failed, so that Serve has ended, then the connection has been closed.
pub Reach-serves_once :
    {s : Inner}
    → Reach s
    → (s.handed ≤ 1) × (notify_close s ≢ none) × (s.phase ≡ Phase.ended → s.conn_closed ≡ true)
Reach-serves_once {s = s} r =
    let i = Reach-IsSound r in
    (
      handed_once s i,
      λ n. elim (notify_close-lem s i) [
        | inl same ↦ absurd (ground (arith, sym n ∙ same.1))
        | inr e ↦ absurd (ground (arith, sym n ∙ e))
      ],
      λ e. i.notified_closed (sym i.same_closed ∙ i.ended_closed e),
    )
