-- ===== src/Common/Words.antt =====
-- Machine words as numbers: a cast to w bits is the remainder by 2 ^ w.
use Prim.Native.Nat.{ℕ, ◌+◌, ◌/◌, ◌%◌, ◌^◌, ◌<◌, ◌*◌}
use mathlib.Core.List.{List, [], ◌∷◌}
use c_systems_programming.Common.Lists.{All, get_or}

abbrev pub u8 : ℕ → ℕ
u8 n = n % 2 ^ 8

abbrev pub u16 : ℕ → ℕ
u16 n = n % 2 ^ 16

abbrev pub u32 : ℕ → ℕ
u32 n = n % 2 ^ 32

abbrev pub u64 : ℕ → ℕ
u64 n = n % 2 ^ 64

infixl 75 ◌>>>◌ ◌<<<◌
abbrev pub ◌>>>◌ : ℕ → ℕ → ℕ
x >>> k = x / 2 ^ k

abbrev pub ◌<<<◌ : ℕ → ℕ → ℕ
x <<< k = x * 2 ^ k

abbrev pub IsByte : ℕ → Type 0
IsByte b = b < 256

abbrev pub IsBytes : List ℕ → Type 0
IsBytes = All IsByte

-- Loads from memory on a little-endian host.
abbrev pub load8 : List ℕ → ℕ → ℕ
load8 buffer i = get_or buffer i 0

abbrev pub load16 : List ℕ → ℕ → ℕ
load16 buffer i = get_or buffer i 0 + 256 * get_or buffer (i + 1) 0

abbrev pub load32 : List ℕ → ℕ → ℕ
load32 buffer i = load16 buffer i + 65536 * load16 buffer (i + 2)

-- A 16-bit and a 32-bit object in memory on a little-endian host.
abbrev pub le16 : ℕ → List ℕ
le16 n = n % 256 ∷ n / 256 % 256 ∷ []

abbrev pub le32 : ℕ → List ℕ
le32 n = n % 256 ∷ n / 256 % 256 ∷ n / 65536 % 256 ∷ n / 16777216 % 256 ∷ []
