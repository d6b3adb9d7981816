-- ===== src/Ipc/Runner/Live/Kept.antt =====
-- What every step of projects/ipc/parallel-runner/main.c keeps.
use c_systems_programming.Common.{
  ℕ, zero, suc, ◌+◌, ◌≤◌, ◌<◌, ◌≡◌, inl, inr, refl, sym, ap, ◌∙◌, List, [], ◌∷◌, ◌++◌, length,
  length-append, append_assoc, append-nil, ==_iff, All, All-append, ◌==◌, Bool-cases, if◌then◌else◌,
  arith,
}
use c_systems_programming.Ipc.Runner.Live.{
  Command, writing, exited, reaped, State, launched, set_at, initially, RunStep, starts, writes,
  exits, collects,
}
use c_systems_programming.Ipc.Runner.Live.Sums.{sum, sum-set_at}

-- The steps that are left for a command and `waitpid`, and whether it is still to be collected.
abbrev pub steps_of : Command → ℕ
steps_of (writing bytes) = 2 + length bytes
steps_of exited = 1
steps_of reaped = 0

abbrev pub awaited : Command → ℕ
awaited reaped = 0
awaited (writing bytes) = 1
awaited exited = 1

-- No byte of a command's output is lost or moved.
abbrev pub Conserves : Command → List ℕ → List ℕ → Type 0
Conserves (writing bytes) sent output = sent ++ bytes ≡ output
Conserves exited sent output = sent ≡ output
Conserves reaped sent output = sent ≡ output

abbrev pub times : ℕ → List ℕ → ℕ
times i [] = 0
times i (j ∷ order) = let rest = times i order in if i == j then suc rest else rest

times-snoc :
    (i j : ℕ) (order : List ℕ)
    → times i (order ++ (j ∷ [])) ≡ times i order + (if i == j then 1 else 0)
times-snoc i j [] = ground arith
times-snoc i j (k ∷ order) = ground (arith, times-snoc i j order)

pub record IsRun (count capacity : ℕ) (output : ℕ → List ℕ) (n : ℕ) (s : State) : Type 0 where
  pub bounded : s.started ≤ count
  pub counted :
      n + sum (λ i. steps_of (s.command i)) count
      ≡ s.started + sum (λ i. 2 + length (output i)) count
  pub tallied : length s.order + sum (λ i. awaited (s.command i)) count ≡ count
  pub conserved : (i : ℕ) → Conserves (s.command i) (s.piped i) (output i)
  pub roomy : (i : ℕ) → length (s.piped i) ≤ capacity
  pub inside : All (λ i. i < count) s.order
  pub listed : (i : ℕ) → times i s.order + awaited (s.command i) ≡ 1

sum_ones : (n : ℕ) → sum (λ i. 1) n ≡ n
sum_ones zero = refl
sum_ones (suc n) = omega (arith, sum_ones n)

pub initially-IsRun :
    (count capacity : ℕ) (output : ℕ → List ℕ) → IsRun count capacity output 0 (initially output)
initially-IsRun count capacity output = record {
  bounded = omega arith;
  counted = refl;
  tallied = omega (arith, sum_ones count);
  conserved = λ i. refl;
  roomy = λ i. omega arith;
  inside = tt;
  listed = λ i. refl;
}

-- A command changes, with what it has sent.
module _ (command : ℕ → Command) (sent output : ℕ → List ℕ) (i : ℕ) (a : Command) where
  changed-Conserves :
      (b : List ℕ) (j : ℕ)
      → Conserves a b (output i)
      → ((k : ℕ) → Conserves (command k) (sent k) (output k))
      → Conserves (set_at command i a j) (set_at sent i b j) (output j)
  changed-Conserves b j h k = elim (Bool-cases (j == i)) [
    | inl e ↦ let same = (==_iff j i).0 e in rw e (rw same h)
    | inr e ↦ rw e (k j)
  ]

  same-Conserves :
      (j : ℕ)
      → Conserves a (sent i) (output i)
      → ((k : ℕ) → Conserves (command k) (sent k) (output k))
      → Conserves (set_at command i a j) (sent j) (output j)
  same-Conserves j h k = elim (Bool-cases (j == i)) [
    | inl e ↦ let same = (==_iff j i).0 e in rw e (rw same h)
    | inr e ↦ rw e (k j)
  ]

pub RunStep-IsRun :
    {count capacity : ℕ} {output : ℕ → List ℕ} {n : ℕ} {s s' : State}
    → RunStep count capacity s s'
    → IsRun (launched count) capacity output n s
    → IsRun (launched count) capacity output (suc n) s'
RunStep-IsRun (starts h m) v = record {
  bounded = ground (arith, h, m);
  counted = omega (arith, v.counted);
  tallied = v.tallied;
  conserved = v.conserved;
  roomy = v.roomy;
  inside = v.inside;
  listed = v.listed;
}
RunStep-IsRun {count} {capacity} {output} {n} {s} (exits i h e) v =
    let b : i < launched count = omega (arith, h, v.bounded) in
    record {
      bounded = v.bounded;
      counted = omega (
        arith,
        v.counted,
        sum-set_at steps_of s.command i exited (launched count) b,
        ap steps_of e,
      );
      tallied = omega (
        arith,
        v.tallied,
        sum-set_at awaited s.command i exited (launched count) b,
        ap awaited e,
      );
      conserved = λ j.
          same-Conserves s.command s.piped output i exited j
            (sym (append-nil (s.piped i)) ∙ (rw e at (v.conserved i))) v.conserved;
      roomy = v.roomy;
      inside = v.inside;
      listed = λ j. ground (arith, e, v.listed j);
    }
RunStep-IsRun {count} {capacity} {output} {n} {s} (collects i k h e) v =
    let b : i < launched count = omega (arith, h, v.bounded) in
    record {
      bounded = v.bounded;
      counted = omega (
        arith,
        v.counted,
        sum-set_at steps_of s.command i reaped (launched count) b,
        ap steps_of e,
      );
      tallied = omega (
        arith,
        v.tallied,
        sum-set_at awaited s.command i reaped (launched count) b,
        ap awaited e,
        length-append s.order (i ∷ []),
      );
      conserved = λ j.
          same-Conserves s.command s.piped output i reaped j (rw e at (v.conserved i)) v.conserved;
      roomy = v.roomy;
      inside = All-append (λ j. j < launched count) s.order (i ∷ []) v.inside (b, tt);
      listed = λ j. ground (arith, e, v.listed j, times-snoc j i s.order);
    }
RunStep-IsRun {count} {capacity} {output} {n} {s} (writes i c cs h e room) v =
    let b : i < launched count = omega (arith, h, v.bounded) in
    record {
      bounded = v.bounded;
      counted = omega (
        arith,
        v.counted,
        sum-set_at steps_of s.command i (writing cs) (launched count) b,
        ap steps_of e,
      );
      tallied = omega (
        arith,
        v.tallied,
        sum-set_at awaited s.command i (writing cs) (launched count) b,
        ap awaited e,
      );
      conserved = λ j.
          changed-Conserves s.command s.piped output i (writing cs) (s.piped i ++ (c ∷ [])) j
            (append_assoc (s.piped i) (c ∷ []) cs ∙ (rw e at (v.conserved i))) v.conserved;
      roomy = λ j. ground (arith, v.roomy j, room, length-append (s.piped j) (c ∷ []));
      inside = v.inside;
      listed = λ j. ground (arith, e, v.listed j);
    }
