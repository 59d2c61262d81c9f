-- ===== src/Base/Maps.antt =====
-- Go's `map[string]V`: which value a key has, if any.
use goper.Base.{Option, none, some, if◌then◌else◌}
use goper.Base.Text.{Text, text_eq}

abbrev pub Dict {ℓ} : Type ℓ → Type ℓ
Dict V = Text → Option V

module _ {ℓ} {V : Type ℓ} where
  abbrev pub empty_dict : Dict V
  empty_dict k = none

  abbrev pub insert : Text → V → Dict V → Dict V
  insert k v m j = if text_eq k j then some v else m j

  abbrev pub delete : Text → Dict V → Dict V
  delete k m j = if text_eq k j then none else m j
