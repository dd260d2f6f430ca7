-- ===== src/Master/Lease.antt =====
-- master/lease.ts: the lease of the one master session. A handle is a key and the closure's
-- variable `released`; the store keeps the holder and the handles by their number.
pub mod Exclusive
use ralph_autopilot.Common.{
  ℕ, zero, suc, String, Bool, true, false, not, ◌||◌, ◌===◌, Option, none, some, List, [], ◌∷◌,
  ◌++◌, length, if◌then◌else◌,
}

pub record MasterLeaseHandle : Type 0 where
  pub key : String
  pub released : Bool

pub record MasterLease : Type 0 where
  pub holder : Option String
  pub handles : List MasterLeaseHandle

abbrev pub new_lease : MasterLease
new_lease = record { holder = none; handles = [] }

abbrev pub held_by_key : Option String → String → Bool
held_by_key none key = false
held_by_key (some k) key = k === key

take_lease : MasterLease → String → Option String → Option ℕ × MasterLease
take_lease lease key (some holder) = (none, lease)
take_lease lease key none = (
  some (length lease.handles),
  record {
    holder = some key;
    handles = lease.handles ++ record { key = key; released = false } ∷ [];
  },
)

-- The handle is named by its number, none where the lease is held.
pub acquire : MasterLease → String → Option ℕ × MasterLease
unfolding take_lease
acquire lease key = take_lease lease key lease.holder

pub handle_at : ℕ → List MasterLeaseHandle → Option MasterLeaseHandle
handle_at n [] = none
handle_at zero (h ∷ hs) = some h
handle_at (suc n) (h ∷ hs) = handle_at n hs

mark_released : ℕ → List MasterLeaseHandle → List MasterLeaseHandle
mark_released n [] = []
mark_released zero (h ∷ hs) = record h { released = true } ∷ hs
mark_released (suc n) (h ∷ hs) = h ∷ mark_released n hs

release_handle : MasterLease → ℕ → Option MasterLeaseHandle → MasterLease
unfolding mark_released
release_handle lease n none = lease
release_handle lease n (some h) =
    if h.released || not (held_by_key lease.holder h.key)
    then lease
    else (record { holder = none; handles = mark_released n lease.handles })

unfoldable pub release : MasterLease → ℕ → MasterLease
unfolding release_handle handle_at
release lease n = release_handle lease n (handle_at n lease.handles)
