-- ===== src/Capture/Apart.antt =====
-- internal/capture/entry.go: lists of entries with ids of their own.
use goper.Base.{ℕ, zero, suc, List, [], ◌∷◌, ◌++◌, ◌≢◌, sym, drop, All, All-append}
use goper.Base.Text.{Text}
use goper.Capture.Entry.{CapturedEntry}

-- No entry has this id.
abbrev pub Avoids : Text → List CapturedEntry → Type 0
Avoids id q = All (λ (x : CapturedEntry). x.id ≢ id) q

-- No two entries have the same id.
abbrev pub Apart : List CapturedEntry → Type 0
Apart [] = Unit
Apart (x ∷ q) = Avoids x.id q × Apart q

pub Avoids-append :
    (id : Text) (q : List CapturedEntry) (e : CapturedEntry)
    → Avoids id q
    → e.id ≢ id
    → Avoids id (q ++ e ∷ [])
Avoids-append id q e a n = All-append _ q (e ∷ []) a (n, tt)

pub Apart-append :
    (q : List CapturedEntry) (e : CapturedEntry) → Apart q → Avoids e.id q → Apart (q ++ e ∷ [])
Apart-append [] e a n = (tt, tt)
Apart-append (x ∷ q) e a n =
    (Avoids-append x.id q e a.0 (λ same. n.0 (sym same)), Apart-append q e a.1 n.1)

pub Avoids-drop : (id : Text) (k : ℕ) (q : List CapturedEntry) → Avoids id q → Avoids id (drop k q)
Avoids-drop id zero q a = a
Avoids-drop id (suc k) [] a = a
Avoids-drop id (suc k) (x ∷ q) a = Avoids-drop id k q a.1

pub fresh-append :
    (q : List CapturedEntry) (e : CapturedEntry) (ps : List CapturedEntry)
    → All (λ (p : CapturedEntry). Avoids p.id q) ps
    → Avoids e.id ps
    → All (λ (p : CapturedEntry). Avoids p.id (q ++ e ∷ [])) ps
fresh-append q e [] f a = tt
fresh-append q e (p ∷ ps) f a =
    (Avoids-append p.id q e f.0 (λ same. a.0 (sym same)), fresh-append q e ps f.1 a.1)
