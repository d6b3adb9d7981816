-- ===== src/Cat.antt =====
-- tools/cat/main.c: the bytes of some files, one behind the other.
mod Tests
use c_systems_programming.Common.{
  ℕ, zero, suc, ◌≡◌, ◌≢◌, refl, sym, ap, ◌∙◌, List, [], ◌∷◌, ◌++◌, append_assoc, append-nil, map,
  Option-cases, inl, inr, Option, some, none, Text,
}

-- `copy`: the loop over `fgetc`, which puts each byte behind what has been written.
pub copy : List ℕ → List ℕ → List ℕ
copy [] o = o
copy (c ∷ i) o = copy i (o ++ (c ∷ []))

-- What `main` gives: its standard output, whether a file could not be opened, and the exit status.
pub record Result : Type 0 where
  pub output : List ℕ
  pub reported : List Text
  pub status : ℕ

-- What follows on `fopen`.
abbrev pub on_open : {A : Type 0} → Option (List ℕ) → A → (List ℕ → A) → A
on_open none failed go = failed
on_open (some bytes) failed go = go bytes

-- The loop over the arguments; `files` gives the bytes of a file that can be opened.
pub copy_files : (Text → Option (List ℕ)) → List Text → List ℕ → Result
unfolding copy
copy_files files [] o = record { output = o; reported = []; status = 0 }
copy_files files (name ∷ names) o =
    on_open (files name) (record { output = o; reported = name ∷ []; status = 1 })
      (λ bytes. copy_files files names (copy bytes o))

-- `main`, with the arguments behind the name of the program.
pub cat_main : List Text → (Text → Option (List ℕ)) → List ℕ → Result
unfolding copy_files
cat_main [] files stdin = record { output = copy stdin []; reported = []; status = 0 }
cat_main (name ∷ names) files stdin = copy_files files (name ∷ names) []

-- The bytes of the files before the first one that cannot be opened, and that one.
abbrev pub before_missing : (Text → Option (List ℕ)) → List Text → List ℕ
before_missing files [] = []
before_missing files (name ∷ names) =
    on_open (files name) [] (λ bytes. bytes ++ before_missing files names)

abbrev pub first_missing : (Text → Option (List ℕ)) → List Text → List Text
first_missing files [] = []
first_missing files (name ∷ names) =
    on_open (files name) (name ∷ []) (λ bytes. first_missing files names)

copy_lem : (i o : List ℕ) → copy i o ≡ o ++ i
unfolding copy
copy_lem [] o = sym (append-nil o)
copy_lem (c ∷ i) o = copy_lem i (o ++ (c ∷ [])) ∙ append_assoc o (c ∷ []) i

-- What comes of some arguments: the files before the first missing one, one behind the other.
abbrev pub status_of : List Text → ℕ
status_of [] = 0
status_of (name ∷ names) = 1

copy_files_lem :
    (files : Text → Option (List ℕ)) (names : List Text) (o : List ℕ)
    → copy_files files names o ≡ record {
      output = o ++ before_missing files names;
      reported = first_missing files names;
      status = status_of (first_missing files names);
    }
unfolding copy_files
copy_files_lem files [] o = rw (append-nil o) refl
copy_files_lem files (name ∷ names) o = elim (Option-cases (files name)) [
  | inl h ↦ rw (h, append-nil o) refl
  | inr (bytes, h) ↦ rw h (
      copy_files_lem files names (copy bytes o)
      ∙ ap
          (λ t. record {
            output = t;
            reported = first_missing files names;
            status = status_of (first_missing files names);
          })
          (ap (λ u. u ++ before_missing files names) (copy_lem bytes o)
            ∙ append_assoc o bytes (before_missing files names)))
]

abbrev pub read_all : (Text → Option (List ℕ)) → List Text → List ℕ → List ℕ
read_all files [] stdin = stdin
read_all files (name ∷ names) stdin = before_missing files (name ∷ names)

-- Without an argument the output is the bytes of stdin. With some, it is the bytes of the files, one
-- behind the other, up to the first that cannot be opened; that one is reported, and then the status
-- is 1, else it is 0.
pub cat_main_lem :
    (names : List Text) (files : Text → Option (List ℕ)) (stdin : List ℕ)
    → cat_main names files stdin ≡ record {
      output = read_all files names stdin;
      reported = first_missing files names;
      status = status_of (first_missing files names);
    }
unfolding cat_main
cat_main_lem [] files stdin =
    ap (λ t. record { output = t; reported = []; status = 0 }) (copy_lem stdin [])
cat_main_lem (name ∷ names) files stdin = copy_files_lem files (name ∷ names) []
