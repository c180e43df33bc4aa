-- ===== src/Wireguard/Allocation.antt =====
-- The allocations over any attempts (`reserveAddress`, `releaseAddress`).
use mspsql.Base.{
  ℕ, ◌+◌, ◌≤◌, String, true, false, ◌≡◌, refl, sym, subst, inl, inr, none, some, List, [], ◌∷◌,
  lookup, insert, lookup-insert, contains, get, is_some, Bool-cases, Option-cases, arith, eq_iff,
  eq_refl, ◌==◌, if◌then◌else◌,
}
use mspsql.Wireguard.{
  Prefix, AddressText, network, size, parse_network, WriteResult, written, conflict, write_failed,
  AllocationCalls, Allocations, values, remove, first_free, write_allocation, reserve_in,
  reserve_read, reserve_address, release_read, Attempt, reserves, releases, after_attempts,
  release_address, written_or,
}
use mspsql.Wireguard.Search.{IsUsable, parse_network-size, first_free_sound}

-- Each site has the text of a usable address, and no two sites have the same.
pub record IsAllocated (text : AddressText) (p : Prefix) (entries : List (String × String))
    : Type 0 where
  pub usable :
      (uid value : String)
      → lookup uid entries ≡ some value
      → (a : ℕ) × ((value ≡ text.to_string a) × IsUsable p a)
  pub distinct :
      (one other value : String)
      → lookup one entries ≡ some value
      → lookup other entries ≡ some value
      → one ≡ other

abbrev pub AreAllocated : AddressText → Prefix → Allocations → Type 0
AreAllocated text p none = Unit
AreAllocated text p (some entries) = IsAllocated text p entries

lookup-contains :
    (uid value : String) (entries : List (String × String))
    → lookup uid entries ≡ some value
    → contains (values entries) value ≡ true
unfolding lookup
lookup-contains uid value [] h = cc
lookup-contains uid value (entry ∷ entries) h =
    let rest = lookup-contains uid value entries in
    elim (Bool-cases (entry.0 == uid)) [
      | inl same ↦ ground (arith, same, h, eq_refl value)
      | inr different ↦ let later = rest (ground (arith, different, h)) in ground (arith, later)
    ]

lookup-remove :
    (uid key : String) (entries : List (String × String))
    → lookup key (remove uid entries) ≡ (if uid == key then none else lookup key entries)
unfolding lookup remove
lookup-remove uid key [] = ground arith
lookup-remove uid key (entry ∷ entries) =
    let rest = lookup-remove uid key entries in
    ground (arith, rest, eq_iff entry.0 uid, eq_iff entry.0 key, eq_iff uid key)

unheld :
    (entries : List (String × String)) (new key value : String)
    → contains (values entries) new ≡ false
    → new ≡ value
    → (lookup key entries ≡ some value)
    → ⊥
unheld entries new key value free same held =
    let inside = lookup-contains key value entries held in
    let inside_too = subst (λ (v : String). contains (values entries) v ≡ true) (sym same) inside in
    ground (arith, inside_too, free)

held_before :
    (uid key value : String) (entries : List (String × String))
    → lookup key (remove uid entries) ≡ some value
    → lookup key entries ≡ some value
held_before uid key value entries held =
    let at_key = lookup-remove uid key entries in ground (arith, at_key, held)

module _ (text : AddressText) (p : Prefix) where
  insert-IsAllocated :
      (uid : String) (a : ℕ) (entries : List (String × String))
      → IsUsable p a
      → contains (values entries) (text.to_string a) ≡ false
      → IsAllocated text p entries
      → IsAllocated text p (insert uid (text.to_string a) entries)
  insert-IsAllocated uid a entries usable free h =
      let looked = λ (key : String). lookup-insert uid key (text.to_string a) entries in
      record {
        usable = λ key value held. elim (Bool-cases (uid == key)) [
          | inl new ↦ let at_key = looked key in (a, (ground (arith, new, at_key, held), usable))
          | inr old ↦
              let at_key = looked key in h.usable key value (ground (arith, old, at_key, held))
        ];
        distinct = λ one other value first second.
            let at_one = looked one in
            let at_other = looked other in
            elim (Bool-cases (uid == one)) [
              | inl one_new ↦ elim (Bool-cases (uid == other)) [
                | inl other_new ↦
                    ground (arith, one_new, other_new, eq_iff uid one, eq_iff uid other)
                | inr other_old ↦ absurd (
                    unheld entries (text.to_string a) other value free
                      (ground (arith, one_new, at_one, first))
                      (ground (arith, other_old, at_other, second)))
              ]
              | inr one_old ↦ elim (Bool-cases (uid == other)) [
                | inl other_new ↦ absurd (
                    unheld entries (text.to_string a) one value free
                      (ground (arith, other_new, at_other, second))
                      (ground (arith, one_old, at_one, first)))
                | inr other_old ↦
                    h.distinct one other value (ground (arith, one_old, at_one, first))
                      (ground (arith, other_old, at_other, second))
              ]
            ];
      }

  remove-IsAllocated :
      (uid : String) (entries : List (String × String))
      → IsAllocated text p entries
      → IsAllocated text p (remove uid entries)
  remove-IsAllocated uid entries h = record {
    usable = λ key value held. h.usable key value (held_before uid key value entries held);
    distinct = λ one other value first second.
        h.distinct one other value (held_before uid one value entries first)
          (held_before uid other value entries second);
  }

  write-AreAllocated :
      (write : WriteResult) (state : Allocations) (entries : List (String × String)) (a : ℕ)
      → AreAllocated text p state
      → IsAllocated text p entries
      → AreAllocated text p (write_allocation text p write state entries a).0
  write-AreAllocated written state entries a before after = after
  write-AreAllocated conflict state entries a before after = before
  write-AreAllocated write_failed state entries a before after = before

  empty-IsAllocated : IsAllocated text p []
  unfolding lookup
  empty-IsAllocated = record {
    usable = λ uid value h. absurd cc;
    distinct = λ one other value h held. absurd cc;
  }

  reserve_in-AreAllocated :
      (write : WriteResult) (uid : String) (entries : List (String × String))
      → IsAllocated text p entries
      → AreAllocated text p (reserve_in text p write uid entries).0
  unfolding reserve_in
  reserve_in-AreAllocated write uid entries h = elim (Bool-cases (get uid entries == "")) [
    | inr held ↦ rw held h
    | inl new ↦ elim (Option-cases (first_free text p (size p) (values entries) (p.address + 2))) [
      | inl full ↦ rw (new, full) h
      | inr (a, found) ↦
          let (usable, free) =
            first_free_sound text p (size p) (values entries) (p.address + 2) a (omega arith)
              found in
          rw (new, found)
            (write-AreAllocated write (some entries) (insert uid (text.to_string a) entries) a h
              (insert-IsAllocated uid a entries usable free h))
    ]
  ]

  reserve_read-AreAllocated :
      (write : WriteResult) (uid : String) (state : Allocations)
      → 8 ≤ size p
      → AreAllocated text p state
      → AreAllocated text p (reserve_read text p write uid state).0
  unfolding insert
  reserve_read-AreAllocated write uid none room h =
      write-AreAllocated write none ((uid, text.to_string (p.address + 2)) ∷ []) (p.address + 2) tt
        (insert-IsAllocated uid (p.address + 2) [] (omega (arith, room), omega (arith, room)) refl
          empty-IsAllocated)
  reserve_read-AreAllocated write uid (some entries) room h =
      reserve_in-AreAllocated write uid entries h

  reserve_address-AreAllocated :
      (calls : AllocationCalls) (uid : String) (state : Allocations)
      → 8 ≤ size p
      → AreAllocated text p state
      → AreAllocated text p (reserve_address text p calls uid state).0
  unfolding reserve_address
  reserve_address-AreAllocated calls uid state room h = elim (Bool-cases calls.get_fails) [
    | inl fails ↦ rw fails h
    | inr read ↦ rw read (reserve_read-AreAllocated calls.write uid state room h)
  ]

  written_or-AreAllocated :
      (write : WriteResult) (next state : Allocations)
      → AreAllocated text p next
      → AreAllocated text p state
      → AreAllocated text p (written_or write next state)
  written_or-AreAllocated written next state after before = after
  written_or-AreAllocated conflict next state after before = before
  written_or-AreAllocated write_failed next state after before = before

  release_read-AreAllocated :
      (write : WriteResult) (uid : String) (state : Allocations)
      → AreAllocated text p state
      → AreAllocated text p (release_read write uid state)
  release_read-AreAllocated write uid none h = tt
  release_read-AreAllocated write uid (some entries) h =
      elim (Bool-cases (is_some (lookup uid entries))) [
        | inr absent ↦ rw absent h
        | inl held ↦ rw held (
            written_or-AreAllocated write (some (remove uid entries)) (some entries)
              (remove-IsAllocated uid entries h) h)
      ]

  release_address-AreAllocated :
      (calls : AllocationCalls) (uid : String) (state : Allocations)
      → AreAllocated text p state
      → AreAllocated text p (release_address calls uid state)
  unfolding release_address
  release_address-AreAllocated calls uid state h = elim (Bool-cases calls.get_fails) [
    | inl fails ↦ rw fails h
    | inr read ↦ rw read (release_read-AreAllocated calls.write uid state h)
  ]

  after_attempts_keep :
      (attempts : List Attempt) (state : Allocations)
      → 8 ≤ size p
      → AreAllocated text p state
      → AreAllocated text p (after_attempts text p attempts state)
  unfolding after_attempts
  after_attempts_keep [] state room h = h
  after_attempts_keep (reserves calls uid ∷ attempts) state room h =
      after_attempts_keep attempts (reserve_address text p calls uid state).0 room
        (reserve_address-AreAllocated calls uid state room h)
  after_attempts_keep (releases calls uid ∷ attempts) state room h =
      after_attempts_keep attempts (release_address calls uid state) room
        (release_address-AreAllocated calls uid state h)

  -- Over any attempts to reserve and to release in a network that was parsed, each site holds an
  -- address other than the network's, the hub's and the broadcast's, and no two sites hold the same.
  pub after_attempts-AreAllocated :
      (value : String) (attempts : List Attempt) (state : Allocations)
      → parse_network text value ≡ network p
      → AreAllocated text p state
      → AreAllocated text p (after_attempts text p attempts state)
  after_attempts-AreAllocated value attempts state parsed h =
      after_attempts_keep attempts state (parse_network-size text value p parsed) h
