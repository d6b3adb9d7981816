-- ===== src/Ipc.antt =====
-- projects/ipc: the programs that start other programs, and the descriptors these inherit.
pub mod Redirector
pub mod Pipeline
pub mod Runner
mod Tests
use c_systems_programming.Common.{
  ℕ, Option, none, some, Bool, true, false, Text, ◌==◌, if◌then◌else◌, ◌&&◌,
}

-- What a descriptor refers to: what it referred to before, a file that was opened with some flags and
-- a mode, or one of the two ends of a pipe.
pub data Object : Type 0 where
  inherited : ℕ → Object
  opened : Text → ℕ → ℕ → Object
  read_end write_end : Object

abbrev pub Table : Type 0
Table = ℕ → Option Object

-- `open` and `pipe`, where the kernel has chosen the descriptors.
abbrev pub open_at : Table → ℕ → Object → Table
open_at t fd object d = if d == fd then some object else t d

abbrev pub pipe : Table → ℕ → ℕ → Table
pipe t reads writes = open_at (open_at t reads read_end) writes write_end

abbrev pub is_open : Option Object → Bool
is_open none = false
is_open (some object) = true

-- `dup2`, which changes nothing where its first descriptor is closed, and `close`.
abbrev pub dup2 : Table → ℕ → ℕ → Table
dup2 t oldfd newfd d = if d == newfd && is_open (t oldfd) then t oldfd else t d

abbrev pub close : Table → ℕ → Table
close t fd d = if d == fd then none else t d
