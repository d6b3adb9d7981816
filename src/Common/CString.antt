-- ===== src/Common/CString.antt =====
-- Byte arrays read as C strings, up to the first NUL.
use Prim.Native.Nat.{ℕ}
use mathlib.Core.Path.{◌≡◌, refl}
use mathlib.Core.Logic.{◌≢◌}
use mathlib.Core.List.{List, [], ◌∷◌, ◌++◌}
use native.Mathlib.Omega.{arith}
use c_systems_programming.Common.Tests.{◌==◌, if◌then◌else◌}
use c_systems_programming.Common.Lists.{All}

abbrev pub c_string : List ℕ → List ℕ
c_string [] = []
c_string (c ∷ cs) = if c == 0 then [] else c ∷ c_string cs

abbrev pub NoNul : List ℕ → Type 0
NoNul = All (λ c. c ≢ 0)

pub c_string-append :
    (front back : List ℕ) → NoNul front → c_string (front ++ back) ≡ front ++ c_string back
c_string-append [] back h = refl
c_string-append (c ∷ cs) back h = rw (c_string-append cs back h.1) (ground (arith, h.0))

pub c_string_self : (text : List ℕ) → NoNul text → c_string text ≡ text
c_string_self [] h = refl
c_string_self (c ∷ cs) h = rw (c_string_self cs h.1) (ground (arith, h.0))
