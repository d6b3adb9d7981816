-- ===== src/PacketSniffer/Promisc.antt =====
-- The promiscuous mode of the interfaces in projects/networking/packet-sniffer/main.c. Whether the
-- two ioctl of a call succeed is an input.
use c_systems_programming.Common.{
  ℕ, ◌≡◌, ◌⊎◌, inl, inr, List, [], ◌∷◌, ◌++◌, Bool, true, false, ◌||◌, Option, some, none, Text,
  codes, text_eq, leb, length, take, if◌then◌else◌, arith, Bool-cases, if_elim,
}

-- MAX_IF, and the name of an interface in `struct ifreq`.
abbrev pub max_if : ℕ
max_if = 32

abbrev pub ifr_name : Text → Text
ifr_name arg = take 15 arg

-- Which interfaces are promiscuous, and `promisc_interfaces` up to `promisc_count`.
pub record Interfaces : Type 0 where
  pub flags : Text → Bool
  pub promisc : List Text

abbrev pub set_flag : (Text → Bool) → Text → Bool → Text → Bool
set_flag flags name v k = if text_eq k name then v else flags k

-- `set_promisc`; `none` is the write behind the array.
unfoldable pub set_promisc : Bool → Text → Interfaces → Option Interfaces
set_promisc false arg s = some s
set_promisc true arg s =
    if leb max_if (length s.promisc)
    then none
    else some
        (record { flags = set_flag s.flags (ifr_name arg) true; promisc = s.promisc ++ (arg ∷ []) })

-- The interfaces that `main` sets: those of the arguments, or all but lo.
abbrev pub but_lo : List Text → List Text
but_lo [] = []
but_lo (name ∷ names) =
    let rest = but_lo names in if text_eq name (codes "lo") then rest else name ∷ rest

abbrev pub chosen : List Text → List Text → List Text
chosen [] names = but_lo names
chosen (arg ∷ args) names = arg ∷ args

abbrev pub set_next : (Interfaces → Option Interfaces) → Option Interfaces → Option Interfaces
set_next later none = none
set_next later (some s) = later s

unfoldable pub set_all : (ℕ → Bool) → List Text → Interfaces → Option Interfaces
unfolding set_promisc
set_all succeeds [] s = some s
set_all succeeds (arg ∷ args) s =
    set_next (λ s'. set_all succeeds args s') (set_promisc (succeeds (length args)) arg s)

-- `unset_promisc`, and the loop of `cleanup`.
pub unset_promisc : Bool → Text → (Text → Bool) → Text → Bool
unset_promisc false arg flags = flags
unset_promisc true arg flags = set_flag flags (ifr_name arg) false

pub unset_all : (ℕ → Bool) → List Text → (Text → Bool) → Text → Bool
unfolding unset_promisc
unset_all succeeds [] flags = flags
unset_all succeeds (arg ∷ args) flags =
    unset_all succeeds args (unset_promisc (succeeds (length args)) arg flags)

-- Whether the array has an entry for an interface.
abbrev pub is_entered : Text → List Text → Bool
is_entered k [] = false
is_entered k (arg ∷ args) = text_eq k (ifr_name arg) || is_entered k args

is_entered-append :
    (k : Text) (args : List Text) (arg : Text)
    → is_entered k (args ++ (arg ∷ [])) ≡ (is_entered k args || text_eq k (ifr_name arg))
is_entered-append k [] arg = ground arith
is_entered-append k (a ∷ args) arg = ground (arith, is_entered-append k args arg)

-- An interface that has become promiscuous is entered.
abbrev IsEntered : Text → Option Interfaces → Type 0
IsEntered k none = Unit
IsEntered k (some s) = (s.flags k ≡ false) ⊎ (is_entered k s.promisc ≡ true)

set_promisc-IsEntered :
    (k : Text) (ok : Bool) (arg : Text) (s : Interfaces)
    → IsEntered k (some s)
    → IsEntered k (set_promisc ok arg s)
unfolding set_promisc
set_promisc-IsEntered k false arg s h = h
set_promisc-IsEntered k true arg s h =
    if_elim (IsEntered k) (leb max_if (length s.promisc)) (λ e. tt)
      (λ e. elim (Bool-cases (text_eq k (ifr_name arg))) [
        | inl same ↦ inr (ground (arith, is_entered-append k s.promisc arg, same))
        | inr other ↦ elim h [
          | inl off ↦ inl (ground (arith, other, off))
          | inr entered ↦ inr (ground (arith, is_entered-append k s.promisc arg, entered))
        ]
      ])

set_next-IsEntered :
    (k : Text) (later : Interfaces → Option Interfaces) (o : Option Interfaces)
    → IsEntered k o
    → ((s : Interfaces) → IsEntered k (some s) → IsEntered k (later s))
    → IsEntered k (set_next later o)
set_next-IsEntered k later none h step = tt
set_next-IsEntered k later (some s) h step = step s h

set_all-IsEntered :
    (k : Text) (succeeds : ℕ → Bool) (args : List Text) (s : Interfaces)
    → IsEntered k (some s)
    → IsEntered k (set_all succeeds args s)
unfolding set_all
set_all-IsEntered k succeeds [] s h = h
set_all-IsEntered k succeeds (arg ∷ args) s h =
    set_next-IsEntered k (λ s'. set_all succeeds args s')
      (set_promisc (succeeds (length args)) arg s)
      (set_promisc-IsEntered k (succeeds (length args)) arg s h)
      (λ s' h'. set_all-IsEntered k succeeds args s' h')

unset_all-off :
    (k : Text) (succeeds : ℕ → Bool) (args : List Text) (flags : Text → Bool)
    → ((i : ℕ) → succeeds i ≡ true)
    → (flags k ≡ false) ⊎ (is_entered k args ≡ true)
    → unset_all succeeds args flags k ≡ false
unfolding unset_all unset_promisc
unset_all-off k succeeds [] flags ok (inl off) = off
unset_all-off k succeeds [] flags ok (inr entered) = cc
unset_all-off k succeeds (arg ∷ args) flags ok h = rw (ok (length args)) (
    unset_all-off k succeeds args (set_flag flags (ifr_name arg) false) ok
      (elim (Bool-cases (text_eq k (ifr_name arg))) [
        | inl same ↦ inl (ground (arith, same))
        | inr other ↦ elim h [
          | inl off ↦ inl (ground (arith, other, off))
          | inr entered ↦ inr (ground (arith, other, entered))
        ]
      ]))

-- Whichever ioctl failed on the way, if those of the clean-up succeed, no interface that was not
-- promiscuous before is left so.
pub unset_all-set_all :
    (succeeds restores : ℕ → Bool) (args names : List Text) (flags : Text → Bool) (s : Interfaces)
    (k : Text)
    → set_all succeeds (chosen args names) (record { flags = flags; promisc = [] }) ≡ some s
    → ((i : ℕ) → restores i ≡ true)
    → flags k ≡ false
    → unset_all restores s.promisc s.flags k ≡ false
unset_all-set_all succeeds restores args names flags s k e ok off =
    unset_all-off k restores s.promisc s.flags ok (
      rw e at (
        set_all-IsEntered k succeeds (chosen args names) (record { flags = flags; promisc = [] })
          (inl off)))
