-- ===== src/PortScanner/Checksum.antt =====
-- `checksum` of projects/networking/port-scanner/main.c, and its receiver.
use native.Mathlib.Nat.{zero-add}
use c_systems_programming.Common.{
  ℕ, ◌+◌, ◌-◌, ◌*◌, ◌/◌, ◌%◌, ◌^◌, ◌≤◌, ◌<◌, ◌≡◌, ap, ◌∙◌, List, [], ◌∷◌, ◌++◌, length, arith, u16,
  u32, ◌>>>◌, IsBytes,
}

-- The loop over the 16-bit words, and the last byte of an odd length; `uint32_t` wraps.
unfoldable pub sum_words : ℕ → List ℕ → ℕ
sum_words sum [] = sum
sum_words sum (a ∷ []) = u32 (sum + a)
sum_words sum (a ∷ (b ∷ rest)) = sum_words (u32 (sum + (a + 256 * b))) rest

-- Folding the carries twice, and the complement.
unfoldable pub fold_carries : ℕ → ℕ
fold_carries sum =
    let once = u32 ((sum >>> 16) + sum % 2 ^ 16) in
    let twice = u32 (once + (once >>> 16)) in u16 (2 ^ 32 - 1 - twice)

unfoldable pub checksum : List ℕ → ℕ
checksum bytes = fold_carries (sum_words 0 bytes)

-- The sum of the words as a number, with no wrapping.
pub word_sum : List ℕ → ℕ
word_sum [] = 0
word_sum (a ∷ []) = a
word_sum (a ∷ (b ∷ rest)) = a + 256 * b + word_sum rest

word_sum-le : (bytes : List ℕ) → IsBytes bytes → word_sum bytes ≤ 65535 * length bytes
unfolding word_sum
word_sum-le [] h = omega arith
word_sum-le (a ∷ []) h = omega (arith, h.0)
word_sum-le (a ∷ (b ∷ rest)) h = omega (arith, h.0, h.1.0, word_sum-le rest h.1.1)

-- The 32-bit sum does not wrap.
sum_words-eq :
    (sum : ℕ) (bytes : List ℕ)
    → sum + word_sum bytes < 2 ^ 32
    → sum_words sum bytes ≡ sum + word_sum bytes
unfolding word_sum sum_words
sum_words-eq sum [] h = omega arith
sum_words-eq sum (a ∷ []) h = omega arith
sum_words-eq sum (a ∷ (b ∷ rest)) h =
    omega (arith, sum_words-eq (u32 (sum + (a + 256 * b))) rest (omega arith))

checksum_of_sum :
    (bytes : List ℕ) → word_sum bytes < 2 ^ 32 → checksum bytes ≡ fold_carries (word_sum bytes)
unfolding checksum
checksum_of_sum bytes h =
    ap fold_carries (sum_words-eq 0 bytes (omega arith) ∙ zero-add (word_sum bytes))

fold_carries-lt : (sum : ℕ) → fold_carries sum < 65536
unfolding fold_carries
fold_carries-lt sum = omega arith

fold_carries-sum : (sum : ℕ) → sum < 2 ^ 32 → (sum + fold_carries sum) % 65535 ≡ 0
unfolding fold_carries
fold_carries-sum sum h = omega arith

pub word_sum-insert :
    (front back : List ℕ) (c : ℕ)
    → length front % 2 ≡ 0
    → c < 65536
    → word_sum (front ++ (c % 256 ∷ (c / 256 % 256 ∷ back)))
      ≡ word_sum (front ++ (0 ∷ (0 ∷ back))) + c
unfolding word_sum
word_sum-insert [] back c h k = omega arith
word_sum-insert (a ∷ []) back c h k = absurd (omega arith)
word_sum-insert (a ∷ (b ∷ front)) back c h k =
    omega (arith, word_sum-insert front back c (omega arith) k)

fold_carries-complement :
    (sum : ℕ) → sum + 65535 < 2 ^ 32 → fold_carries (sum + fold_carries sum) ≡ 0
unfolding fold_carries
fold_carries-complement sum h = omega arith

-- RFC 1071: for at most 65536 bytes the words and the checksum add up to a multiple of 65535, so the
-- checksum is the one's complement of their one's complement sum.
pub checksum_lem :
    (bytes : List ℕ)
    → IsBytes bytes
    → length bytes ≤ 65536
    → ((word_sum bytes + checksum bytes) % 65535 ≡ 0) × (checksum bytes < 65536)
checksum_lem bytes h k =
    rw (checksum_of_sum bytes small) (fold_carries-sum (word_sum bytes) small, fold_carries-lt _)
  where
    small : word_sum bytes < 2 ^ 32
    small = omega (arith, word_sum-le bytes h)

-- A message of at most 65536 bytes whose checksum was computed with its aligned checksum field
-- zero, and then stored there, has checksum zero: the receiver's test succeeds.
pub checksum_verifies :
    (front back : List ℕ)
    → length front % 2 ≡ 0
    → IsBytes (front ++ (0 ∷ (0 ∷ back)))
    → length (front ++ (0 ∷ (0 ∷ back))) ≤ 65536
    → let c = checksum (front ++ (0 ∷ (0 ∷ back))) in
      checksum (front ++ (c % 256 ∷ (c / 256 % 256 ∷ back))) ≡ 0
checksum_verifies front back e h k =
    checksum_of_sum stored (omega (arith, bound, inserted, fold_carries-lt sum, c_sum))
    ∙ ap fold_carries (inserted ∙ ap (λ t. sum + t) c_sum)
    ∙ fold_carries-complement sum bound
  where
    blank : List ℕ
    blank = front ++ (0 ∷ (0 ∷ back))

    sum : ℕ
    sum = word_sum blank

    c : ℕ
    c = checksum blank

    stored : List ℕ
    stored = front ++ (c % 256 ∷ (c / 256 % 256 ∷ back))

    bound : sum + 65535 < 2 ^ 32
    bound = omega (arith, word_sum-le blank h)

    c_sum : c ≡ fold_carries sum
    c_sum = checksum_of_sum blank (omega (arith, bound))

    inserted : word_sum stored ≡ sum + c
    inserted = word_sum-insert front back c e (omega (arith, c_sum, fold_carries-lt sum))
