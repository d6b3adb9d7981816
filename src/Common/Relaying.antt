-- ===== src/Common/Relaying.antt =====
-- Loops that pass texts on in two directions: what the calls of each direction gather.
use c_systems_programming.Common.Lists.{next_step}
use c_systems_programming.Common.CLib.{Text}
use mathlib.Core.Path.{◌≡◌, refl, sym, ap, ap₂, ◌∙◌}
use mathlib.Core.List.{List, [], ◌∷◌, ◌++◌, append_assoc}
use mathlib.Core.Bool.{Bool, true, false}

-- The texts of some calls, in their order.
abbrev pub gathered {ℓ} : {A : Type ℓ} → (A → List Text) → List A → List Text
gathered f [] = []
gathered f (x ∷ xs) = f x ++ gathered f xs

gathered-append {ℓ} :
    {A : Type ℓ} (f : A → List Text) (xs ys : List A)
    → gathered f (xs ++ ys) ≡ gathered f xs ++ gathered f ys
gathered-append f [] ys = refl
gathered-append f (x ∷ xs) ys =
    ap (λ t. f x ++ t) (gathered-append f xs ys)
    ∙ sym (append_assoc (f x) (gathered f xs) (gathered f ys))

module _ {ℓ} {A : Type ℓ} (ins outs : A → List Text) where
  -- What a step passes on if the loop goes on after it.
  abbrev pub Passes : List Text → List Text → List A × Bool → Type 0
  Passes i o (calls, true) = (gathered ins calls ≡ i) × (gathered outs calls ≡ o)
  Passes i o (calls, false) = Unit

  pub next_step-Passes :
      (i o i' o' : List Text) (r later : List A × Bool)
      → Passes i o r
      → Passes i' o' later
      → Passes (i ++ i') (o ++ o') (next_step r later)
  next_step-Passes i o i' o' (calls, false) later h k = tt
  next_step-Passes i o i' o' (calls, true) (more, false) h k = tt
  next_step-Passes i o i' o' (calls, true) (more, true) h k = (
    gathered-append ins calls more ∙ ap₂ (λ a b. a ++ b) h.0 k.0,
    gathered-append outs calls more ∙ ap₂ (λ a b. a ++ b) h.1 k.1,
  )

-- The bytes of some texts, one behind the other.
abbrev pub bytes_of : List Text → Text
bytes_of [] = []
bytes_of (text ∷ texts) = text ++ bytes_of texts
