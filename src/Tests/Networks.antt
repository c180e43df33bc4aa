-- ===== src/Tests/Networks.antt =====
-- The addresses of WireGuard peers at concrete inputs.
use mspsql.Base.{
  ℕ, zero, suc, ◌+◌, String, false, ◌≡◌, refl, ap, ◌∙◌, Option, none, some, [], ◌∷◌, lookup, insert,
  contains, arith, ◌==◌, if◌then◌else◌,
}
use Prim.Native.String
use Prim.Native.String.{count}
use text.Mathlib.TextLemmas.{length-append}
use mspsql.Wireguard.{
  Prefix, AddressText, parse_network, WriteResult, written, conflict, AllocationCalls, reserves,
  releases, reserved, values, reserve_in, after_attempts,
}
use mspsql.Wireguard.Search.{IsUsable, reserve_in-finds}
use mspsql.Wireguard.Allocation.{AreAllocated, after_attempts-AreAllocated}

-- An address `n` is written as `n + 1` dots.
unfoldable tally : ℕ → String
tally zero = "."
tally (suc n) = String.◌++◌ "." (tally n)

abbrev pred : ℕ → Option ℕ
pred zero = none
pred (suc n) = some n

tally-count : (n : ℕ) → count (tally n) ≡ suc n
unfolding tally
tally-count zero = refl
tally-count (suc n) =
    let joined : count (String.◌++◌ "." (tally n)) ≡ 1 + count (tally n) =
      length-append "." (tally n) in
    let rest = tally-count n in joined ∙ omega (arith, rest)

-- The network of the numbers 8 to 15.
abbrev small : Prefix
small = record { address = 8; bits = 29 }

abbrev dots : AddressText
dots = record {
  parse_prefix = λ value. if value == "0.0.0.8/29" then some small else none;
  parse_addr = λ value. pred (count value);
  to_string = tally;
}

abbrev works : AllocationCalls
works = record { get_fails = false; write = written }

abbrev clashes : AllocationCalls
clashes = record { get_fails = false; write = conflict }

after_attempts-AreAllocated_example : AreAllocated dots small (
    after_attempts dots small
      (reserves works "a"
        ∷ reserves clashes "b"
        ∷ reserves works "b"
        ∷ releases works "a"
        ∷ reserves works "c"
        ∷ [])
      none)
unfolding parse_network
after_attempts-AreAllocated_example =
    after_attempts-AreAllocated dots small "0.0.0.8/29"
      (reserves works "a"
        ∷ reserves clashes "b"
        ∷ reserves works "b"
        ∷ releases works "a"
        ∷ reserves works "c"
        ∷ [])
      none refl tt

after_attempts_test :
    after_attempts dots small
      (reserves works "a" ∷ reserves works "b" ∷ releases works "a" ∷ reserves works "c" ∷ [])
      none
    ≡ some (("b", tally 11) ∷ ("c", tally 10) ∷ [])
unfolding after_attempts lookup tally insert
after_attempts_test = refl

reads_tally : (n : ℕ) → dots.parse_addr (tally n) ≡ some n
reads_tally n = ap pred (tally-count n)

reserve_in-finds_example :
    (b : ℕ) × IsUsable small b
    × (contains (values (("b", tally 11) ∷ [])) (tally b) ≡ false)
    × (reserve_in dots small written "c" (("b", tally 11) ∷ [])
        ≡ (some (insert "c" (tally b) (("b", tally 11) ∷ [])), reserved b))
    × ((write : WriteResult)
        → reserve_in dots small write "c" (insert "c" (tally b) (("b", tally 11) ∷ []))
          ≡ (some (insert "c" (tally b) (("b", tally 11) ∷ [])), reserved b))
unfolding tally lookup
reserve_in-finds_example =
    reserve_in-finds dots small "c" (("b", tally 11) ∷ []) 12 reads_tally refl refl
      (omega arith, omega arith) refl
