-- ===== src/Ipc/Redirector.antt =====
-- projects/ipc/io-redirector/main.c: a shell command with one of its standard streams on a file.
use c_systems_programming.Common.{
  ℕ, ◌+◌, ◌≡◌, ◌≢◌, refl, List, ◌∷◌, Bool, true, Option, some, none, Text, codes, text_eq, ◌==◌,
  if◌then◌else◌, ◌%◌, arith,
}
use c_systems_programming.Ipc.{opened, Table, open_at, dup2, close}

pub data RedirectOpts : Type 0 where
  out out_a in_ unknown : RedirectOpts

pub parse_op : Text → RedirectOpts
parse_op op =
    if text_eq op (codes "out")
    then out
    else if text_eq op (codes "out_a")
    then out_a
    else if text_eq op (codes "in")
    then in_
    else unknown

-- The bits of `fcntl.h`; each flag is a bit of its own, so `|` is the sum.
abbrev pub o_rdonly : ℕ
o_rdonly = 0

abbrev pub o_wronly : ℕ
o_wronly = 1

abbrev pub o_creat : ℕ
o_creat = 64

abbrev pub o_trunc : ℕ
o_trunc = 512

abbrev pub o_append : ℕ
o_append = 1024

-- 0644, the permissions of a file that is created, which the umask then restricts.
abbrev pub mode : ℕ
mode = 420

-- What comes of the child: `fork` fails, it exits, or a shell runs the command with its descriptors.
pub data Child : Type 0 where
  not_forked : Child
  exits : ℕ → Child
  execs : Text → Table → Child

-- The answers of the kernel: whether `fork` succeeds, and the descriptor that `open` gives.
pub record Kernel : Type 0 where
  pub forked : Bool
  pub table : Table
  pub open_answer : Option ℕ

-- The stream that `run` replaces: the one with `flags & O_WRONLY`.
abbrev pub target : ℕ → ℕ
target flags = if flags % 2 == o_wronly then 1 else 0

-- The child of `run`.
pub run_child : Text → Text → ℕ → Table → Option ℕ → Child
run_child cmd file flags t none = exits 1
run_child cmd file flags t (some fd) =
    execs cmd (close (dup2 (open_at t fd (opened file flags mode)) fd (target flags)) fd)

-- `run`, with what it returns.
pub run : Text → Text → ℕ → Kernel → Child × ℕ
unfolding run_child
run cmd file flags k =
    if k.forked then (run_child cmd file flags k.table k.open_answer, 0) else (not_forked, 1)

-- The cases of `main`, which does not look at what `run` returns.
abbrev pub ignoring : Child × ℕ → Option Child × ℕ
ignoring (child, status) = (some child, 0)

pub dispatch : RedirectOpts → Text → Text → Kernel → Option Child × ℕ
unfolding run
dispatch out cmd file k = ignoring (run cmd file (o_wronly + (o_creat + o_trunc)) k)
dispatch out_a cmd file k = ignoring (run cmd file (o_wronly + (o_append + o_creat)) k)
dispatch in_ cmd file k = ignoring (run cmd file o_rdonly k)
dispatch unknown cmd file k = (none, 1)

-- `main`, with its exit status.
pub redirector_main : List Text → Kernel → Option Child × ℕ
unfolding dispatch parse_op
redirector_main (name ∷ cmd ∷ operator ∷ file ∷ args) k = dispatch (parse_op operator) cmd file k
redirector_main args k = (none, 1)

-- The three redirections of a shell, `cmd > file`, `cmd >> file` and `cmd < file`: how they are
-- spelled here, the stream and the flags.
pub record Redirection : Type 0 where
  pub word : Text
  pub stream : ℕ
  pub flags : ℕ

pub data IsRedirection : Redirection → Type 0 where
  replaces : IsRedirection (record { word = codes "out"; stream = 1; flags = 577 })
  appends : IsRedirection (record { word = codes "out_a"; stream = 1; flags = 1089 })
  reads : IsRedirection (record { word = codes "in"; stream = 0; flags = 0 })

-- A command is run with one stream on the file, and with the other descriptors as they were; with that
-- stream closed where `open` has given its own number.
pub record Redirected (cmd file : Text) (r : Redirection) (fd : ℕ) (t t' : Table) : Type 0 where
  pub on_file : fd ≢ r.stream → t' r.stream ≡ some (opened file r.flags mode)
  pub lost : fd ≡ r.stream → t' r.stream ≡ none
  pub others : (d : ℕ) → d ≢ r.stream → t' d ≡ t d

pub Ran : Text → Text → Redirection → ℕ → Table → Option Child × ℕ → Type 0
Ran cmd file r fd t (some (execs cmd' t'), status) =
    (cmd' ≡ cmd) × (status ≡ 0) × Redirected cmd file r fd t t'
Ran cmd file r fd t result = ⊥

-- The three calls on descriptors, where `open` has given a free one.
redirects :
    (cmd file word : Text) (stream flags fd : ℕ) (t : Table)
    → t fd ≡ none
    → Redirected cmd file
        (record { word = word; stream = stream; flags = flags })
        fd
        t
        (close (dup2 (open_at t fd (opened file flags mode)) fd stream) fd)
redirects cmd file word stream flags fd t e = record {
  on_file = λ n. ground arith;
  lost = λ n. ground arith;
  others = λ d n. ground (arith, e);
}

-- Where `fork` succeeds and `open` gives a free descriptor, each of the three operators runs the
-- command with its stream on the file, opened with the flags of that redirection in a shell and with
-- mode 0644, and with the other descriptors as they were; but where the stream was closed, so that the
-- file has been opened under its number, it is closed again, and the command runs without it.
pub redirector_main-Ran :
    (name cmd file : Text) (args : List Text) (k : Kernel) (r : Redirection) (fd : ℕ)
    → IsRedirection r
    → k.forked ≡ true
    → k.open_answer ≡ some fd
    → k.table fd ≡ none
    → Ran cmd file r fd k.table (redirector_main (name ∷ cmd ∷ r.word ∷ file ∷ args) k)
unfolding redirector_main dispatch parse_op run run_child Ran
redirector_main-Ran name cmd file args k r fd replaces f o e =
    rw (f, o) (refl, refl, redirects cmd file (codes "out") 1 577 fd k.table e)
redirector_main-Ran name cmd file args k r fd appends f o e =
    rw (f, o) (refl, refl, redirects cmd file (codes "out_a") 1 1089 fd k.table e)
redirector_main-Ran name cmd file args k r fd reads f o e =
    rw (f, o) (refl, refl, redirects cmd file (codes "in") 0 0 fd k.table e)
