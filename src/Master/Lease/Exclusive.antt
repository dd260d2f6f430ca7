-- ===== src/Master/Lease/Exclusive.antt =====
-- The lease is held by exactly the one handle that was not released.
use ralph_autopilot.Common.{
  ℕ, zero, suc, String, ◌≡◌, refl, ◌∙◌, false, not, ◌||◌, ===_refl, Option, none, some, List, [],
  ◌∷◌, ◌++◌, length, ◌≤◌, arith, inl, inr, Bool-cases, if◌then◌else◌, foldl,
}
use ralph_autopilot.Common.Distinct.{foldl_inv}
use ralph_autopilot.Master.Lease.{
  MasterLease, MasterLeaseHandle, new_lease, acquire, take_lease, release, release_handle,
  handle_at, mark_released, held_by_key,
}

-- The keys of the handles that were not released.
abbrev pub live : List MasterLeaseHandle → List String
live [] = []
live (h ∷ hs) = let rest = live hs in if h.released then rest else h.key ∷ rest

abbrev holders : Option String → List String
holders none = []
holders (some k) = k ∷ []

pub data LeaseCall : Type 0 where
  acquires : String → LeaseCall
  releases : ℕ → LeaseCall

pub call : MasterLease → LeaseCall → MasterLease
unfolding acquire release
call lease (acquires key) = (acquire lease key).1
call lease (releases n) = release lease n

live-append :
    (hs : List MasterLeaseHandle) (h : MasterLeaseHandle)
    → h.released ≡ false
    → live (hs ++ h ∷ []) ≡ live hs ++ h.key ∷ []
live-append [] h e = ground arith
live-append (x ∷ hs) h e = ground (arith, live-append hs h e)

-- Releasing the only live handle leaves none.
live-mark_released :
    (n : ℕ) (hs : List MasterLeaseHandle) (h : MasterLeaseHandle)
    → handle_at n hs ≡ some h
    → h.released ≡ false
    → length (live hs) ≡ suc (length (live (mark_released n hs)))
unfolding handle_at mark_released
live-mark_released n [] h e r = absurd (ground arith)
live-mark_released zero (x ∷ hs) h e r = ground arith
live-mark_released (suc n) (x ∷ hs) h e r = ground (arith, live-mark_released n hs h e r)

none_left : (ks : List String) → length ks ≡ 0 → ks ≡ []
none_left [] h = refl
none_left (k ∷ ks) h = absurd (ground arith)

held : (o : Option String) → length (holders o) ≤ 1
held none = omega arith
held (some k) = omega arith

abbrev pub IsExclusive : MasterLease → Type 0
IsExclusive lease = live lease.handles ≡ holders lease.holder

acquire-IsExclusive :
    (lease : MasterLease) (key : String) → IsExclusive lease → IsExclusive (acquire lease key).1
unfolding acquire
acquire-IsExclusive lease key h = go lease.holder refl
  where
    go : (o : Option String) → lease.holder ≡ o → IsExclusive (take_lease lease key o).1
    go none e =
        unfold take_lease in
        live-append lease.handles (record { key = key; released = false }) refl ∙ ground (arith, h)
    go (some k) e = unfold take_lease in h

release-IsExclusive :
    (lease : MasterLease) (n : ℕ) → IsExclusive lease → IsExclusive (release lease n)
unfolding release
release-IsExclusive lease n h = go (handle_at n lease.handles) refl
  where
    go :
        (o : Option MasterLeaseHandle)
        → handle_at n lease.handles ≡ o
        → IsExclusive (release_handle lease n o)
    go none e = unfold release_handle in h
    go (some x) e =
        unfold release_handle in
        elim (Bool-cases (x.released || not (held_by_key lease.holder x.key))) [
          | inl q ↦ rw q h
          | inr q ↦ rw q (
              none_left (live (mark_released n lease.handles)) (
                ground (
                  arith,
                  live-mark_released n lease.handles x e (ground arith),
                  h,
                  held lease.holder,
                )))
        ]

-- However the lease is taken and released, by whatever keys and handles, stale ones and repeated
-- ones included, the handles that were not released are exactly the holder: at most one session
-- holds the lease, and it is free only when no handle is live.
pub calls-IsExclusive : (calls : List LeaseCall) → IsExclusive (foldl call new_lease calls)
calls-IsExclusive calls = foldl_inv IsExclusive call step calls new_lease refl
  where
    step : (lease : MasterLease) (c : LeaseCall) → IsExclusive lease → IsExclusive (call lease c)
    step lease (acquires key) h = unfold call in acquire-IsExclusive lease key h
    step lease (releases n) h = unfold call in release-IsExclusive lease n h

only_live :
    (n : ℕ) (hs : List MasterLeaseHandle) (h : MasterLeaseHandle) (k : String)
    → handle_at n hs ≡ some h
    → h.released ≡ false
    → live hs ≡ k ∷ []
    → h.key ≡ k
unfolding handle_at
only_live n [] h k e r l = absurd (ground arith)
only_live zero (x ∷ hs) h k e r l = ground arith
only_live (suc n) (x ∷ hs) h k e r l = elim (Bool-cases x.released) [
  | inl q ↦ only_live n hs h k e r (ground arith)
  | inr q ↦ absurd (ground (arith, live-mark_released n hs h e r))
]

-- A live handle of an exclusive lease frees it, whatever key it has.
pub release-frees :
    (lease : MasterLease) (n : ℕ) (h : MasterLeaseHandle)
    → IsExclusive lease
    → handle_at n lease.handles ≡ some h
    → h.released ≡ false
    → (release lease n).holder ≡ none
unfolding release
release-frees lease n h k e r = go lease.holder refl
  where
    go : (o : Option String) → lease.holder ≡ o → (release lease n).holder ≡ none
    go none q = absurd (ground (arith, live-mark_released n lease.handles h e r, k))
    go (some key) q =
        let s : h.key ≡ key = only_live n lease.handles h key e r (ground (arith, k)) in
        unfold release release_handle in ground (arith, ===_refl key)
