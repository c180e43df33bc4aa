-- ===== src/Wireguard.antt =====
-- The addresses of the WireGuard peers (internal/wireguard/config.go): `parseNetwork`,
-- `reserveAddress` and `releaseAddress`.
--
-- The ConfigMap of the allocations maps a site's UID to the text of its address; `none` is one that
-- does not exist. An attempt of either function reads and writes that ConfigMap under its resource
-- version, so it is one atomic step, and `RetryOnConflict` is a row of attempts. An IPv4 address is
-- its number; `Contains` is that of a network in its canonical form, which `parseNetwork` leaves.
pub mod Search
pub mod Allocation
use mspsql.Base.{
  ℕ, zero, suc, ◌+◌, ◌-◌, ◌*◌, ◌/◌, ◌^◌, String, Bool, true, false, ◌&&◌, not, Option, none, some,
  List, [], ◌∷◌, ltb, leb, nat_eq, is_some, lookup, insert, contains, get, ◌==◌, if◌then◌else◌,
}

pub record Prefix : Type 0 where
  pub address : ℕ
  pub bits : ℕ

-- What the code uses of `net/netip`: prefixes and addresses of IPv4 read from a text, `none` for any
-- other text, and an address written.
pub record AddressText : Type 0 where
  pub parse_prefix : String → Option Prefix
  pub parse_addr : String → Option ℕ
  pub to_string : ℕ → String

pub data Network : Type 0 where
  network : Prefix → Network
  not_usable not_canonical : Network

abbrev pub size : Prefix → ℕ
size p = 2 ^ (32 - p.bits)

abbrev pub masked : Prefix → ℕ
masked p = (p.address / size p) * size p

unfoldable pub parse_network : AddressText → String → Network
parse_network text value = elim (text.parse_prefix value) [
  | none ↦ not_usable
  | some p ↦
      if ltb 29 p.bits
      then not_usable
      else if not (nat_eq p.address (masked p))
      then not_canonical
      else network p
]

abbrev pub in_network : Prefix → ℕ → Bool
in_network p a = leb p.address a && ltb a (p.address + size p)

pub data WriteResult : Type 0 where
  written conflict write_failed : WriteResult

-- What the calls of an attempt give: the read fails, and the create or update.
pub record AllocationCalls : Type 0 where
  pub get_fails : Bool
  pub write : WriteResult

pub data AllocationError : Type 0 where
  call_failed invalid_allocation no_addresses : AllocationError

-- `retried` is a conflict, after which there is another attempt.
pub data Reserved : Type 0 where
  reserved : ℕ → Reserved
  retried : Reserved
  refused : AllocationError → Reserved

abbrev pub Allocations : Type 0
Allocations = Option (List (String × String))

abbrev pub values : List (String × String) → List String
values [] = []
values (entry ∷ entries) = entry.1 ∷ values entries

unfoldable pub remove : String → List (String × String) → List (String × String)
remove uid [] = []
remove uid (entry ∷ entries) =
    let rest = remove uid entries in if entry.0 == uid then rest else entry ∷ rest

module _ (text : AddressText) (p : Prefix) where
  -- The loop over the candidates, on the rounds that are left.
  unfoldable pub first_free : ℕ → List String → ℕ → Option ℕ
  first_free zero used candidate = none
  first_free (suc rounds) used candidate =
      let rest = first_free rounds used (candidate + 1) in
      if not (in_network p (candidate + 1))
      then none
      else if contains used (text.to_string candidate)
      then rest
      else some candidate

  -- The new data is written, or the state stays.
  abbrev pub write_allocation :
      WriteResult → Allocations → List (String × String) → ℕ → Allocations × Reserved
  write_allocation written state entries a = (some entries, reserved a)
  write_allocation conflict state entries a = (state, retried)
  write_allocation write_failed state entries a = (state, refused call_failed)

  abbrev pub stored_address : String → Reserved
  stored_address value = elim (text.parse_addr value) [
    | none ↦ refused invalid_allocation
    | some a ↦ if in_network p a then reserved a else refused invalid_allocation
  ]

  unfoldable pub reserve_in : WriteResult → String → List (String × String) → Allocations × Reserved
  unfolding first_free
  reserve_in write uid entries =
      let value = get uid entries in
      if not (value == "")
      then (some entries, stored_address value)
      else elim (first_free (size p) (values entries) (p.address + 2)) [
        | none ↦ (some entries, refused no_addresses)
        | some a ↦ write_allocation write (some entries) (insert uid (text.to_string a) entries) a
      ]

  abbrev pub reserve_read : WriteResult → String → Allocations → Allocations × Reserved
  reserve_read write uid none =
      let first = p.address + 2 in
      write_allocation write none ((uid, text.to_string first) ∷ []) first
  reserve_read write uid (some entries) = reserve_in write uid entries

  -- An attempt of `reserveAddress`.
  unfoldable pub reserve_address : AllocationCalls → String → Allocations → Allocations × Reserved
  unfolding reserve_in
  reserve_address calls uid state =
      if calls.get_fails then (state, refused call_failed) else reserve_read calls.write uid state

abbrev pub written_or : WriteResult → Allocations → Allocations → Allocations
written_or written next state = next
written_or conflict next state = state
written_or write_failed next state = state

abbrev pub release_read : WriteResult → String → Allocations → Allocations
release_read write uid none = none
release_read write uid (some entries) =
    if not (is_some (lookup uid entries))
    then some entries
    else written_or write (some (remove uid entries)) (some entries)

-- The data after an attempt of `releaseAddress`.
unfoldable pub release_address : AllocationCalls → String → Allocations → Allocations
unfolding remove
release_address calls uid state =
    if calls.get_fails then state else release_read calls.write uid state

-- The attempts of both functions, for any sites.
pub data Attempt : Type 0 where
  reserves releases : AllocationCalls → String → Attempt

unfoldable pub after_attempts : AddressText → Prefix → List Attempt → Allocations → Allocations
unfolding reserve_address release_address
after_attempts text p [] state = state
after_attempts text p (reserves calls uid ∷ attempts) state =
    after_attempts text p attempts (reserve_address text p calls uid state).0
after_attempts text p (releases calls uid ∷ attempts) state =
    after_attempts text p attempts (release_address calls uid state)
