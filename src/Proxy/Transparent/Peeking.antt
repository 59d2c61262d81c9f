-- ===== src/Proxy/Transparent/Peeking.antt =====
-- internal/proxy/transparent_shared.go: peeking a server name off any bytes.
use goper.Base.{
  ℕ, suc, true, ◌+◌, ◌*◌, ◌≤◌, ◌&&◌, [], ◌∷◌, ◌++◌, Option, none, some, ◌==◌, leb, ◌≡◌, ◌⊎◌, inl,
  inr, refl, sym, ap, subst, arith, if◌then◌else◌, length, length-take, take, drop,
  take-append-drop, Bool-cases,
}
use goper.Base.Text.{Text}
use goper.Proxy.Sni.{Result, ok, ◌>>=◌, byte_at, be16_at}
use goper.Proxy.Sni.Total.{IsPart}
use goper.Proxy.Sni.Parse.{IsFound, parse_client_hello-Parses}
use goper.Proxy.Transparent.{
  peek, peek_size, tls_record_header, peek_record_body, peek_after_header, peek_tls_record,
  name_or_empty, hello_in, peek_sni,
}

-- The bytes begin with a handshake record: its kind, its version, the length of its payload in two
-- bytes, and the whole payload.
abbrev pub BeginsWithRecord : Text → Text → Type 0
BeginsWithRecord sent payload =
    (major : ℕ) × (minor : ℕ) × (hi : ℕ) × (lo : ℕ) × (rest : Text) × (sent
      ≡ 0x16 ∷ major ∷ minor ∷ hi ∷ lo ∷ (payload ++ rest))
    × (length payload ≡ 256 * hi + lo)

-- Where a name comes from that was peeked off the bytes `sent`: they begin with a record, and the
-- name is empty or a run of the payload of that record.
abbrev pub ComesFrom : Text → Option Text → Type 0
ComesFrom sent none = Unit
ComesFrom sent (some name) =
    (payload : Text) × BeginsWithRecord sent payload × ((name ≡ []) ⊎ IsPart payload name)

abbrev pub Peeks : Text → Result (Option Text) → Type 0
Peeks sent r = (found : Option Text) × (r ≡ ok found) × ComesFrom sent found

-- Behind its header a record that was peeked is the payload of the first record.
abbrev IsFirst : Text → Option Text → Type 0
IsFirst sent none = Unit
IsFirst sent (some data') = BeginsWithRecord sent (drop 5 data')

name_or_empty-IsPart :
    (payload : Text) (found : Option Text)
    → IsFound payload found
    → (name_or_empty found ≡ []) ⊎ IsPart payload (name_or_empty found)
name_or_empty-IsPart payload none f = inl refl
name_or_empty-IsPart payload (some name) f = inr f.1

hello_in-Peeks : (sent : Text) (o : Option Text) → IsFirst sent o → Peeks sent (hello_in o)
unfolding hello_in
hello_in-Peeks sent none p = (none, refl, tt)
hello_in-Peeks sent (some data') p =
    let (found, e, f) = parse_client_hello-Parses (drop 5 data') in
    (
      some (name_or_empty found),
      rw (e, ◌>>=◌) refl,
      (drop 5 data', p, name_or_empty-IsPart (drop 5 data') found f),
    )

drop-take_five :
    (n a b c d e : ℕ) (s : Text) → drop 5 (take (5 + n) (a ∷ b ∷ c ∷ d ∷ e ∷ s)) ≡ take n s
drop-take_five n a b c d e s =
    let five : 5 + n ≡ suc (suc (suc (suc (suc n)))) = omega arith in rw five refl

-- Five bytes and the announced number of bytes behind them are the first record.
peek-IsFirst :
    (major minor hi lo : ℕ) (s : Text)
    → let sent = 0x16 ∷ major ∷ minor ∷ hi ∷ lo ∷ s in
      IsFirst sent (peek sent (5 + (hi * 256 + lo)))
unfolding peek
peek-IsFirst major minor hi lo s =
    let n = hi * 256 + lo in
    let sent = 0x16 ∷ major ∷ minor ∷ hi ∷ lo ∷ s in
    elim (Bool-cases (leb (5 + n) (length sent) && leb (5 + n) peek_size)) [
      | inr e ↦ rw e tt
      | inl e ↦
          let whole : n ≤ length s = ground (arith, e) in
          rw e (
            subst (BeginsWithRecord sent) (sym (drop-take_five n 0x16 major minor hi lo s)) (
              major,
              minor,
              hi,
              lo,
              drop n s,
              ap (λ (t : Text). 0x16 ∷ major ∷ minor ∷ hi ∷ lo ∷ t) (sym (take-append-drop n s)),
              omega (arith, whole, length-take n s),
            ))
    ]

header_length :
    (kind major minor hi lo : ℕ)
    → tls_record_header (kind ∷ major ∷ minor ∷ hi ∷ lo ∷ [])
      ≡ ok (
          if kind == 0x16
          then (if hi * 256 + lo == 0 then none else some (hi * 256 + lo))
          else none)
unfolding tls_record_header be16_at
header_length kind major minor hi lo = elim (Bool-cases (kind == 0x16)) [
  | inl tls ↦ rw (◌>>=◌, byte_at, tls) refl
  | inr other ↦ rw (◌>>=◌, byte_at, other) refl
]

abbrev Reads : Text → Result (Option Text) → Type 0
Reads sent r = (found : Option Text) × (r ≡ ok found) × IsFirst sent found

peek_record_body-IsFirst :
    (kind major minor hi lo : ℕ) (s : Text)
    → let sent = kind ∷ major ∷ minor ∷ hi ∷ lo ∷ s in
      IsFirst sent (
        peek_record_body sent (
          if kind == 0x16
          then (if hi * 256 + lo == 0 then none else some (hi * 256 + lo))
          else none))
unfolding peek_record_body
peek_record_body-IsFirst kind major minor hi lo s = elim (Bool-cases (kind == 0x16)) [
  | inr other ↦ rw other tt
  | inl tls ↦
      let same : kind ≡ 0x16 = ground arith in
      elim (Bool-cases (hi * 256 + lo == 0)) [
        | inl empty ↦ rw (tls, empty) tt
        | inr full ↦ rw (tls, full) (rw same (peek-IsFirst major minor hi lo s))
      ]
]

peek_tls_record-Reads : (sent : Text) → Reads sent (peek_tls_record sent)
unfolding peek_tls_record peek peek_after_header
peek_tls_record-Reads [] = (none, refl, tt)
peek_tls_record-Reads (a ∷ []) = (none, refl, tt)
peek_tls_record-Reads (a ∷ b ∷ []) = (none, refl, tt)
peek_tls_record-Reads (a ∷ b ∷ c ∷ []) = (none, refl, tt)
peek_tls_record-Reads (a ∷ b ∷ c ∷ d ∷ []) = (none, refl, tt)
peek_tls_record-Reads (a ∷ b ∷ c ∷ d ∷ e ∷ s) =
    let there : (leb 5 (length (a ∷ b ∷ c ∷ d ∷ e ∷ s)) && leb 5 peek_size) ≡ true = ground arith in
    (_, rw (there, header_length a b c d e, ◌>>=◌) refl, peek_record_body-IsFirst a b c d e s)

-- Peeking a server name off any bytes neither indexes out of range nor runs out of fuel. It gives
-- an error, or the bytes begin with a whole handshake record, of the length that its header
-- announces, and what it gives is empty or a run of the payload of that record.
pub peek_sni-Peeks : (sent : Text) → Peeks sent (peek_sni sent)
unfolding peek_sni
peek_sni-Peeks sent =
    let (found, e, first) = peek_tls_record-Reads sent in
    rw (e, ◌>>=◌) (hello_in-Peeks sent found first)
