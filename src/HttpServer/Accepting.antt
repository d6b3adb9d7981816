-- ===== src/HttpServer/Accepting.antt =====
-- `main` and `create` of projects/networking/http-server/main.c: the loop that accepts connections and
-- starts a thread for each. The answers of the kernel are inputs.
use c_systems_programming.Common.{
  ℕ, ◌+◌, ◌≡◌, refl, List, [], ◌∷◌, ◌++◌, Bool, true, false, not, Bool-cases, inl, inr, Option,
  some, none, next_step, ◌==◌, if◌then◌else◌, arith,
}

-- What `main` does: `start` hands a descriptor and its block of memory to a thread.
pub data Call : Type 0 where
  report allocate free : Call
  accept close start : ℕ → Call

-- What `accept` gives: a descriptor, EINTR, or another error.
pub data AcceptAnswer : Type 0 where
  accepted : ℕ → AcceptAnswer
  interrupted refused : AcceptAnswer

-- A round: `keep_running` at its test, which SIGINT clears, and the answers to its calls.
pub record Events : Type 0 where
  pub keep_running : Bool
  pub malloc_ok : Bool
  pub accept_answer : AcceptAnswer
  pub thread_started : Bool

-- The round after `malloc`, with whether the loop goes on.
pub accept_round : AcceptAnswer → Bool → List Call × Bool
accept_round interrupted started = (allocate ∷ report ∷ free ∷ [], false)
accept_round refused started = (allocate ∷ report ∷ free ∷ [], true)
accept_round (accepted client_fd) false =
    (allocate ∷ accept client_fd ∷ report ∷ close client_fd ∷ free ∷ [], true)
accept_round (accepted client_fd) true = (allocate ∷ accept client_fd ∷ start client_fd ∷ [], true)

pub server_round : Events → List Call × Bool
unfolding accept_round
server_round e =
    if not e.keep_running
    then ([], false)
    else if not e.malloc_ok
    then (report ∷ [], false)
    else accept_round e.accept_answer e.thread_started

-- The loop, over the rounds that the environment gives, with whether it still runs.
pub accept_loop : List Events → List Call × Bool
unfolding server_round
accept_loop [] = ([], true)
accept_loop (e ∷ es) = next_step (server_round e) (accept_loop es)

-- `create`: `bind` or `listen` fails, or neither does; with what it returns.
pub data Create : Type 0 where
  no_bind no_listen listening : Create

pub create : Create → ℕ
create no_bind = 1
create no_listen = 1
create listening = 0

abbrev pub leave : ℕ → List Call × Bool → List Call × Option ℕ
leave socket_fd (calls, true) = (calls, none)
leave socket_fd (calls, false) = (calls ++ (close socket_fd ∷ []), some 0)

-- `main`, from what `socket` gives; the status is `none` while the loop runs.
pub server_main : Option ℕ → Create → List Events → List Call × Option ℕ
unfolding create accept_loop
server_main none c events = (report ∷ [], some 1)
server_main (some socket_fd) c events =
    if create c == 1
    then (report ∷ close socket_fd ∷ [], some 1)
    else leave socket_fd (accept_loop events)

-- How often a descriptor has been accepted, and closed or handed to a thread; and the blocks of memory
-- that are allocated, and freed or handed on.
abbrev pub opened : ℕ → Call → ℕ
opened fd (accept d) = if d == fd then 1 else 0
opened fd call = 0

abbrev pub settled : ℕ → Call → ℕ
settled fd (close d) = if d == fd then 1 else 0
settled fd (start d) = if d == fd then 1 else 0
settled fd call = 0

abbrev pub taken : Call → ℕ
taken allocate = 1
taken call = 0

abbrev pub given_back : Call → ℕ
given_back free = 1
given_back (start d) = 1
given_back call = 0

abbrev pub count : (Call → ℕ) → List Call → ℕ
count f [] = 0
count f (call ∷ calls) = f call + count f calls

count-append : (f : Call → ℕ) (xs ys : List Call) → count f (xs ++ ys) ≡ count f xs + count f ys
count-append f [] ys = omega arith
count-append f (call ∷ xs) ys = omega (arith, count-append f xs ys)

-- Two measures agree on the calls of a loop.
abbrev Balanced : (Call → ℕ) → (Call → ℕ) → List Call × Bool → Type 0
Balanced f g r = count f r.0 ≡ count g r.0

next_step-Balanced :
    (f g : Call → ℕ) (r later : List Call × Bool)
    → Balanced f g r
    → Balanced f g later
    → Balanced f g (next_step r later)
next_step-Balanced f g (calls, false) later h k = h
next_step-Balanced f g (calls, true) (more, b) h k =
    omega (arith, h, k, count-append f calls more, count-append g calls more)

accept_round-Balanced :
    (fd : ℕ) (answer : AcceptAnswer) (started : Bool)
    → Balanced (opened fd) (settled fd) (accept_round answer started)
      × Balanced taken given_back (accept_round answer started)
unfolding accept_round
accept_round-Balanced fd interrupted started = (refl, refl)
accept_round-Balanced fd refused started = (refl, refl)
accept_round-Balanced fd (accepted d) false = (ground arith, refl)
accept_round-Balanced fd (accepted d) true = (ground arith, refl)

server_round-Balanced :
    (fd : ℕ) (e : Events)
    → Balanced (opened fd) (settled fd) (server_round e)
      × Balanced taken given_back (server_round e)
unfolding server_round
server_round-Balanced fd e = elim (Bool-cases e.keep_running) [
  | inl h ↦ elim (Bool-cases e.malloc_ok) [
    | inl k ↦ rw (h, k) (accept_round-Balanced fd e.accept_answer e.thread_started)
    | inr k ↦ rw (h, k) (refl, refl)
  ]
  | inr h ↦ rw h (refl, refl)
]

accept_loop-Balanced :
    (fd : ℕ) (events : List Events)
    → Balanced (opened fd) (settled fd) (accept_loop events)
      × Balanced taken given_back (accept_loop events)
unfolding accept_loop
accept_loop-Balanced fd [] = (refl, refl)
accept_loop-Balanced fd (e ∷ es) =
    let (o, t) = server_round-Balanced fd e in
    let (o', t') = accept_loop-Balanced fd es in
    (
      next_step-Balanced (opened fd) (settled fd) (server_round e) (accept_loop es) o o',
      next_step-Balanced taken given_back (server_round e) (accept_loop es) t t',
    )

-- A listening server that runs has closed each descriptor that it accepted, or handed it to a thread,
-- once; one that has ended has closed the listening socket besides. No block of memory is lost.
abbrev pub Settles : ℕ → ℕ → List Call × Option ℕ → Type 0
Settles socket_fd fd (calls, none) =
    (count (opened fd) calls ≡ count (settled fd) calls)
    × (count taken calls ≡ count given_back calls)
Settles socket_fd fd (calls, some status) =
    (status ≡ 0)
    × (count (opened fd) calls + (if socket_fd == fd then 1 else 0) ≡ count (settled fd) calls)
    × (count taken calls ≡ count given_back calls)

leave-Settles :
    (socket_fd fd : ℕ) (r : List Call × Bool)
    → Balanced (opened fd) (settled fd) r
    → Balanced taken given_back r
    → Settles socket_fd fd (leave socket_fd r)
leave-Settles socket_fd fd (calls, true) h k = (h, k)
leave-Settles socket_fd fd (calls, false) h k = (
  refl,
  ground (
    arith,
    h,
    count-append (opened fd) calls (close socket_fd ∷ []),
    count-append (settled fd) calls (close socket_fd ∷ []),
  ),
  omega (
    arith,
    k,
    count-append taken calls (close socket_fd ∷ []),
    count-append given_back calls (close socket_fd ∷ []),
  ),
)

-- For every descriptor: as often as a server that listens has accepted it, it has closed it or
-- handed it to a thread, through every error of `malloc`, `accept` and `pthread_create`; when the
-- server ends, it has also closed its listening socket, and ends with status 0. Each block of
-- memory that is allocated is freed or handed to a thread.
pub server_main-Settles :
    (socket_fd fd : ℕ) (events : List Events)
    → Settles socket_fd fd (server_main (some socket_fd) listening events)
unfolding server_main create
server_main-Settles socket_fd fd events =
    let (h, k) = accept_loop-Balanced fd events in
    leave-Settles socket_fd fd (accept_loop events) h k
