-- ===== src/Wireguard/Search.antt =====
-- The search for a free address (`reserveAddress`) in a network that was parsed.
use mspsql.Base.{
  ℕ, zero, suc, ◌+◌, ◌-◌, ◌^◌, ◌≤◌, ◌<◌, String, true, false, ◌≡◌, refl, ap, sym, subst, inl, inr,
  none, some, List, ltb, lookup, insert, lookup-insert, contains, get, Bool-cases, Option-cases,
  arith, eq_iff, eq_refl, ◌==◌,
}
use mspsql.Wireguard.{
  Prefix, AddressText, network, size, parse_network, in_network, WriteResult, written, reserved,
  values, first_free, reserve_in,
}

-- An address for a peer: neither the network's, the hub's nor the broadcast's.
abbrev pub IsUsable : Prefix → ℕ → Type 0
IsUsable p a = (p.address + 1 < a) × (a + 1 < p.address + size p)

power_positive : (k : ℕ) → 1 ≤ 2 ^ k
power_positive zero = omega arith
power_positive (suc k) = let rest = power_positive k in omega (arith, rest)

roomy : (bits : ℕ) → bits ≤ 29 → 8 ≤ 2 ^ (32 - bits)
roomy bits h =
    let exponent : 32 - bits ≡ suc (suc (suc (29 - bits))) = omega (arith, h) in
    let positive = power_positive (29 - bits) in
    subst (λ (k : ℕ). 8 ≤ 2 ^ k) (sym exponent) (omega (arith, positive))

parse_network-bits :
    (text : AddressText) (value : String) (p : Prefix)
    → parse_network text value ≡ network p
    → p.bits ≤ 29
unfolding parse_network
parse_network-bits text value p h = elim (Option-cases (text.parse_prefix value)) [
  | inl unread ↦ absurd (ground (arith, unread, h))
  | inr (q, read) ↦
      let same : q ≡ p = ground (arith, read, h) in
      let bound : q.bits ≤ 29 = ground (arith, read, h) in
      subst (λ (r : Prefix). r.bits ≤ 29) same bound
]

pub parse_network-size :
    (text : AddressText) (value : String) (p : Prefix)
    → parse_network text value ≡ network p
    → 8 ≤ size p
parse_network-size text value p h = roomy p.bits (parse_network-bits text value p h)

module _ (text : AddressText) (p : Prefix) where
  -- An address that the loop finds is usable and not in use.
  pub first_free_sound :
      (rounds : ℕ) (used : List String) (candidate a : ℕ)
      → p.address + 1 < candidate
      → first_free text p rounds used candidate ≡ some a
      → IsUsable p a × (contains used (text.to_string a) ≡ false)
  unfolding first_free
  first_free_sound zero used candidate a low h = absurd cc
  first_free_sound (suc rounds) used candidate a low h =
      elim (Bool-cases (in_network p (candidate + 1))) [
        | inr outside ↦ absurd (ground (arith, outside, h))
        | inl inside ↦ elim (Bool-cases (contains used (text.to_string candidate))) [
          | inl taken ↦
              first_free_sound rounds used (candidate + 1) a (omega (arith, low))
                (ground (arith, inside, taken, h))
          | inr free ↦
              let same : candidate ≡ a = ground (arith, inside, free, h) in
              let high : candidate + 1 < p.address + size p = ground (arith, inside) in
              subst (λ (b : ℕ). IsUsable p b × (contains used (text.to_string b) ≡ false)) same
                ((low, high), free)
        ]
      ]

  -- Where a usable address is not in use, the rounds up to it find one.
  first_free_complete :
      (rounds : ℕ) (used : List String) (candidate a : ℕ)
      → p.address + 1 < candidate
      → candidate ≤ a
      → a < candidate + rounds
      → a + 1 < p.address + size p
      → contains used (text.to_string a) ≡ false
      → (b : ℕ) × (first_free text p rounds used candidate ≡ some b)
  unfolding first_free
  first_free_complete zero used candidate a low from to high free = absurd (omega (arith, from, to))
  first_free_complete (suc rounds) used candidate a low from to high free =
      let inside : in_network p (candidate + 1) ≡ true = ground (arith, low, from, high) in
      elim (Bool-cases (contains used (text.to_string candidate))) [
        | inr unused ↦ (candidate, ground (arith, inside, unused))
        | inl taken ↦
            let apart : candidate < a = elim (Bool-cases (ltb candidate a)) [
              | inl below ↦ ground (arith, below)
              | inr not_below ↦
                  let same : a ≡ candidate = ground (arith, not_below, from) in
                  let used_too =
                    subst (λ (b : ℕ). contains used (text.to_string b) ≡ false) same free in
                  absurd (ground (arith, used_too, taken))
            ] in
            let (b, found) =
              first_free_complete rounds used (candidate + 1) a (omega (arith, low))
                (omega (arith, apart)) (omega (arith, to)) high free in
            (b, ground (arith, inside, taken, found))
      ]

  -- An address that was written reads as it was reserved.
  reserve_in-again :
      (write : WriteResult) (uid : String) (b : ℕ) (entries : List (String × String))
      → ((a : ℕ) → text.parse_addr (text.to_string a) ≡ some a)
      → text.parse_addr "" ≡ none
      → IsUsable p b
      → lookup uid entries ≡ some (text.to_string b)
      → reserve_in text p write uid entries ≡ (some entries, reserved b)
  unfolding reserve_in
  reserve_in-again write uid b entries reads empty (low, high) held =
      let read = reads b in
      elim (Bool-cases (text.to_string b == "")) [
        | inl blank ↦
            let same : text.to_string b ≡ "" =
              ground (arith, blank, eq_iff (text.to_string b) "") in
            absurd (ground (arith, read, ap text.parse_addr same, empty))
        | inr present ↦ ground (arith, held, present, read, low, high)
      ]

  -- Where a usable address is not held, an attempt of a site without one, whose calls succeed, reserves
  -- and writes a usable address that no site holds, and any later attempt on that data gives the
  -- same address and changes nothing; an address reads as it was written, and no text as none.
  pub reserve_in-finds :
      (uid : String) (entries : List (String × String)) (a : ℕ)
      → ((b : ℕ) → text.parse_addr (text.to_string b) ≡ some b)
      → text.parse_addr "" ≡ none
      → (get uid entries == "") ≡ true
      → IsUsable p a
      → contains (values entries) (text.to_string a) ≡ false
      → (b : ℕ) × IsUsable p b
        × (contains (values entries) (text.to_string b) ≡ false)
        × (reserve_in text p written uid entries
            ≡ (some (insert uid (text.to_string b) entries), reserved b))
        × ((write : WriteResult)
            → reserve_in text p write uid (insert uid (text.to_string b) entries)
              ≡ (some (insert uid (text.to_string b) entries), reserved b))
  unfolding reserve_in
  reserve_in-finds uid entries a reads empty new (low, high) free =
      let (b, found) =
        first_free_complete (size p) (values entries) (p.address + 2) a (omega arith)
          (omega (arith, low)) (omega (arith, high)) high free in
      let (usable, unused) =
        first_free_sound (size p) (values entries) (p.address + 2) b (omega arith) found in
      let looked = lookup-insert uid uid (text.to_string b) entries in
      let held : lookup uid (insert uid (text.to_string b) entries) ≡ some (text.to_string b) =
        ground (arith, looked, eq_refl uid) in
      (
        b,
        usable,
        unused,
        rw (new, found) refl,
        λ write.
            reserve_in-again write uid b (insert uid (text.to_string b) entries) reads empty usable
              held,
      )
