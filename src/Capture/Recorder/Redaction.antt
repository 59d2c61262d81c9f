-- ===== src/Capture/Recorder/Redaction.antt =====
-- internal/capture/capture.go: header values with credentials leave no trace in an entry.
use goper.Base.{true, List, [], ◌∷◌, ◌≡◌, ◌⊎◌, inl, inr, refl, ap}
use goper.Base.Text.{Text, codes, text_eq}
use goper.Capture.Media.{to_lower}
use goper.Capture.Recorder.{Header, listed, redact_header, stored_value, headers_to_map}

-- The header names that carry credentials, in any case.
abbrev pub IsCredential : Text → Type 0
IsCredential k =
    (to_lower k ≡ codes "authorization")
    ⊎ (to_lower k ≡ codes "cookie")
    ⊎ (to_lower k ≡ codes "set-cookie")
    ⊎ (to_lower k ≡ codes "proxy-authorization")

-- Two headers with the same names, and the same values but for credentials.
abbrev pub AgreeBesideCredentials : Header → Header → Type 0
AgreeBesideCredentials [] [] = Unit {0}
AgreeBesideCredentials [] (f ∷ g) = ⊥
AgreeBesideCredentials (f ∷ h) [] = ⊥
AgreeBesideCredentials ((k, vs) ∷ h) ((k', vs') ∷ g) =
    (k ≡ k') × ((vs ≡ vs') ⊎ IsCredential k) × AgreeBesideCredentials h g

redact-credential : (k : Text) → IsCredential k → redact_header (to_lower k) ≡ true
unfolding redact_header listed text_eq
redact-credential k (inl e) = rw e refl
redact-credential k (inr (inl e)) = rw e refl
redact-credential k (inr (inr (inl e))) = rw e refl
redact-credential k (inr (inr (inr e))) = rw e refl

stored_value-agree :
    (k : Text) (vs vs' : List Text)
    → (vs ≡ vs') ⊎ IsCredential k
    → stored_value k vs ≡ stored_value k vs'
stored_value-agree k vs vs' (inl e) = ap (stored_value k) e
stored_value-agree k vs vs' (inr c) = rw (redact-credential k c)

-- The recorded headers do not depend on the values of credentials: two requests or responses that
-- differ in those values alone are recorded alike.
pub headers_to_map_blind :
    (h g : Header) → AgreeBesideCredentials h g → headers_to_map h ≡ headers_to_map g
unfolding headers_to_map
headers_to_map_blind [] [] a = refl
headers_to_map_blind [] (f ∷ g) a = absurd a
headers_to_map_blind (f ∷ h) [] a = absurd a
headers_to_map_blind ((k, vs) ∷ h) ((k', vs') ∷ g) a =
    cc (a.0, stored_value-agree k vs vs' a.1, headers_to_map_blind h g a.2)
