-- ===== src/Proxy/Concurrent/Taken.antt =====
-- internal/proxy/proxy_body.go with internal/capture/store.go: one of the pending entries is pushed.
use goper.Base.{ℕ, zero, suc, List, [], ◌∷◌, Option, none, some, ◌≡◌, sym, ap, subst, arith, All}
use goper.Base.Chain.{or_else}
use goper.Capture.Entry.{CapturedEntry}
use goper.Capture.Apart.{Apart}
use goper.Proxy.Concurrent.{and_one, take_at}

and_one-some :
    (x e : CapturedEntry) (rest : List CapturedEntry)
    (o : Option (CapturedEntry × List CapturedEntry))
    → and_one x o ≡ some (e, rest)
    → (rest' : List CapturedEntry) × (o ≡ some (e, rest')) × (rest ≡ x ∷ rest')
and_one-some x e rest none h = absurd (ground (arith, h))
and_one-some x e rest (some (e', rest')) h =
    let same = ap (or_else (e', x ∷ rest')) h in
    (
      rest',
      ap (λ (p : CapturedEntry × List CapturedEntry). some (p.0, rest')) same,
      ap (λ (p : CapturedEntry × List CapturedEntry). p.1) (sym same),
    )

pub take_at-All :
    (P : CapturedEntry → Type 0) (n : ℕ) (xs : List CapturedEntry) (e : CapturedEntry)
    (rest : List CapturedEntry)
    → take_at n xs ≡ some (e, rest)
    → All P xs
    → P e × All P rest
unfolding take_at
take_at-All P n [] e rest h a = absurd (ground (arith, h))
take_at-All P zero (x ∷ xs) e rest h a =
    let same = ap (or_else (x, xs)) h in
    subst (λ (p : CapturedEntry × List CapturedEntry). P p.0 × All P p.1) same a
take_at-All P (suc n) (x ∷ xs) e rest h a =
    let (rest', h', r) = and_one-some x e rest (take_at n xs) h in
    let (pe, ps) = take_at-All P n xs e rest' h' a.1 in (pe, subst (All P) (sym r) (a.0, ps))

-- An entry that is taken out of entries with ids of their own has an id that no other has.
pub take_at-Apart :
    (n : ℕ) (xs : List CapturedEntry) (e : CapturedEntry) (rest : List CapturedEntry)
    → take_at n xs ≡ some (e, rest)
    → Apart xs
    → Apart (e ∷ rest)
unfolding take_at
take_at-Apart n [] e rest h a = absurd (ground (arith, h))
take_at-Apart zero (x ∷ xs) e rest h a =
    subst (λ (p : CapturedEntry × List CapturedEntry). Apart (p.0 ∷ p.1)) (ap (or_else (x, xs)) h) a
take_at-Apart (suc n) (x ∷ xs) e rest h a =
    let (rest', h', r) = and_one-some x e rest (take_at n xs) h in
    let (avoids, apart) = take_at-Apart n xs e rest' h' a.1 in
    let (e_ne, rest_ne) = take_at-All _ n xs e rest' h' a.0 in
    subst (λ l. Apart (e ∷ l)) (sym r) (((λ same. e_ne (sym same)), avoids), (rest_ne, apart))
