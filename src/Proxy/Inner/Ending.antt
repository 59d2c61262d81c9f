-- ===== src/Proxy/Inner/Ending.antt =====
-- internal/proxy/transparent_loop.go, serveInner: Serve ends after the connection has been closed.
use goper.Base.{
  ℕ, suc, ◌+◌, ◌≤◌, ◌≡◌, ◌⊎◌, Bool, true, false, some, if◌then◌else◌, if_true, if_false, refl, sym,
  ap, ◌∙◌, subst, arith, inl, inr, Bool-cases,
}
use goper.Base.Chain.{or_else}
use goper.Proxy.Inner.{
  Phase, Inner, accept_locked, after_accept, serve_phase, serve_next, close_inner, Close, closes,
  notifies, Reach, later, serves, leaves,
}
use goper.Proxy.Inner.Sound.{IsSound, Reach-IsSound, notify_close-lem}

-- A run of all goroutines in which Serve takes this many steps.
pub data Runs (s : Inner) : ℕ → Inner → Type 0 where
  here : Runs s 0 s
  serve : {k : ℕ} {t u : Inner} → Runs s k t → serve_next t ≡ some u → Runs s (suc k) u
  leave : {k : ℕ} {t u : Inner} → Runs s k t → Close t u → Runs s k u

-- How many steps Serve has to take at most.
abbrev rank_at : Bool → Phase → ℕ
rank_at served Phase.accepting = if served then 2 else 3
rank_at served Phase.waiting = 1
rank_at served Phase.ended = 0

abbrev rank : Inner → ℕ
rank s = rank_at s.listener.served s.phase

-- After a step of Serve that leaves `t`: one step fewer is left, and the channel is as it was.
abbrev IsStep : Inner → ℕ → Inner → Type 0
IsStep s n t = (rank t + 1 ≡ n) × (t.listener.closed ≡ s.listener.closed)

after_accept-IsStep :
    (s : Inner)
    → s.phase ≡ Phase.accepting
    → IsStep s
        (rank_at s.listener.served Phase.accepting)
        (after_accept s (accept_locked s.listener))
unfolding after_accept accept_locked
after_accept-IsStep s at_call = elim (Bool-cases s.listener.served) [
  | inl e ↦
      subst (λ a. IsStep s (rank_at s.listener.served Phase.accepting) (after_accept s a))
        (sym (if_true s.listener.served _ _ e)) (sym (if_true s.listener.served 2 3 e), refl)
  | inr e ↦
      subst (λ a. IsStep s (rank_at s.listener.served Phase.accepting) (after_accept s a))
        (sym (if_false s.listener.served _ _ e))
        (ap (λ p. rank_at true p + 1) at_call ∙ sym (if_false s.listener.served 2 3 e), refl)
]

serve_phase-IsStep :
    (s t : Inner) (p : Phase)
    → s.phase ≡ p
    → serve_phase s p ≡ some t
    → IsStep s (rank_at s.listener.served p) t
unfolding serve_phase
serve_phase-IsStep s t Phase.accepting at_p h =
    subst (IsStep s (rank_at s.listener.served Phase.accepting)) (ap (or_else s) h)
      (after_accept-IsStep s at_p)
serve_phase-IsStep s t Phase.waiting at_p h = elim (Bool-cases s.listener.closed) [
  | inl e ↦
      subst (IsStep s 1) (ap (or_else s) (sym (if_true s.listener.closed _ _ e) ∙ h)) (refl, refl)
  | inr e ↦ absurd (ground (arith, e, h))
]
serve_phase-IsStep s t Phase.ended at_p h = absurd (ground (arith, h))

-- While the channel is closed, Serve is not blocked before its end.
serve_phase-goes_on :
    (s : Inner) (p : Phase)
    → s.listener.closed ≡ true
    → (p ≡ Phase.ended) ⊎ ((u : Inner) × (serve_phase s p ≡ some u))
unfolding serve_phase
serve_phase-goes_on s Phase.accepting c = inr (_, refl)
serve_phase-goes_on s Phase.waiting c = inr (_, if_true s.listener.closed _ _ c)
serve_phase-goes_on s Phase.ended c = inl refl

-- The goroutines that close the connection do not hold Serve up.
abbrev IsBeside : Inner → Inner → Type 0
IsBeside s t = (rank t ≡ rank s) × (s.listener.closed ≡ true → t.listener.closed ≡ true)

Close-IsBeside : {s t : Inner} → IsSound s → Close s t → IsBeside s t
unfolding close_inner
Close-IsBeside i (closes one) = (refl, λ c. c)
Close-IsBeside {s = s} i (notifies {t = t} n more h) = elim (notify_close-lem s i) [
  | inl same ↦
      subst (λ u. IsBeside s (record u { closing = n })) (ap (or_else s) (sym same.1 ∙ h))
        (refl, λ c. c)
  | inr e ↦
      subst (λ u. IsBeside s (record u { closing = n })) (ap (or_else s) (sym e ∙ h))
        (refl, λ c. refl)
]

rank_small : (s : Inner) → rank s ≤ 3
rank_small s = small s.listener.served s.phase
  where
    small : (b : Bool) (p : Phase) → rank_at b p ≤ 3
    small true Phase.accepting = omega arith
    small false Phase.accepting = omega arith
    small b Phase.waiting = omega arith
    small b Phase.ended = omega arith

Runs-Reach : {s t : Inner} {k : ℕ} → Reach s → Runs s k t → Reach t
Runs-Reach r here = r
Runs-Reach r (serve run h) = later (Runs-Reach r run) (serves h)
Runs-Reach r (leave run c) = later (Runs-Reach r run) (leaves c)

Runs-rank :
    {s t : Inner} {k : ℕ}
    → Reach s
    → s.listener.closed ≡ true
    → Runs s k t
    → (rank t + k ≡ rank s) × (t.listener.closed ≡ true)
unfolding serve_next
Runs-rank r c here = (omega arith, c)
Runs-rank r c (serve {k = k} {t = t} {u = u} run h) =
    let (left, still) = Runs-rank r c run in
    let (one, same) = serve_phase-IsStep t u t.phase refl h in
    (omega (arith, left, one), same ∙ still)
Runs-rank r c (leave run close) =
    let (left, still) = Runs-rank r c run in
    let (same, kept) = Close-IsBeside (Reach-IsSound (Runs-Reach r run)) close in
    (omega (arith, left, same), kept still)

-- Once `onClose` has run, the goroutine of Serve ends: however the others go on, it has taken at most
-- three steps, and until it has ended it is never blocked.
pub Runs-ends :
    {s t : Inner} {k : ℕ}
    → Reach s
    → s.conn_once ≡ true
    → Runs s k t
    → (k ≤ 3) × ((t.phase ≡ Phase.ended) ⊎ ((u : Inner) × (serve_next t ≡ some u)))
unfolding serve_next
Runs-ends {s = s} {t = t} r once run =
    let closed = (Reach-IsSound r).same_closed ∙ once in
    let (left, still) = Runs-rank r closed run in
    (omega (arith, left, rank_small s), serve_phase-goes_on t t.phase still)
