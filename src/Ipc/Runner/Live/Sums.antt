-- ===== src/Ipc/Runner/Live/Sums.antt =====
-- Sums over the commands of projects/ipc/parallel-runner/main.c.
use c_systems_programming.Common.{
  ℕ, zero, suc, ◌+◌, ◌≤◌, ◌<◌, ◌≡◌, inl, inr, refl, ◌==◌, Bool-cases, arith,
}
use c_systems_programming.Ipc.Runner.Live.{set_at}

abbrev pub sum : (ℕ → ℕ) → ℕ → ℕ
sum f zero = 0
sum f (suc n) = f n + sum f n

module _ {ℓ} {A : Type ℓ} (w : A → ℕ) (f : ℕ → A) (i : ℕ) (a : A) where
  sum-set_at_above : (n : ℕ) → n ≤ i → sum (λ j. w (set_at f i a j)) n ≡ sum (λ j. w (f j)) n
  sum-set_at_above zero h = refl
  sum-set_at_above (suc n) h = ground (arith, sum-set_at_above n (omega (arith, h)))

  -- A change of one summand.
  pub sum-set_at :
      (n : ℕ) → i < n → sum (λ j. w (set_at f i a j)) n + w (f i) ≡ sum (λ j. w (f j)) n + w a
  sum-set_at zero h = absurd (omega (arith, h))
  sum-set_at (suc n) h = elim (Bool-cases (n == i)) [
    | inl e ↦ ground (arith, e, sum-set_at_above n (ground (arith, e)))
    | inr e ↦ ground (arith, e, sum-set_at n (ground (arith, e)))
  ]

-- A sum that is zero, and one that is not.
pub sum_zero : (f : ℕ → ℕ) (n : ℕ) → sum f n ≡ 0 → (i : ℕ) → i < n → f i ≡ 0
sum_zero f zero e i l = absurd (omega (arith, l))
sum_zero f (suc n) e i l = elim (Bool-cases (i == n)) [
  | inl k ↦ ground (arith, k)
  | inr k ↦ sum_zero f n (omega (arith, e)) i (ground (arith, k))
]

pub sum_pos : (f : ℕ → ℕ) (n : ℕ) → 0 < sum f n → (i : ℕ) × (i < n) × (0 < f i)
sum_pos f zero h = absurd (omega (arith, h))
sum_pos f (suc n) h = elim (Bool-cases (0 == f n)) [
  | inl e ↦ let (i, l, k) = sum_pos f n (ground (arith, e, h)) in (i, omega (arith, l), k)
  | inr e ↦ (n, omega arith, ground (arith, e))
]
