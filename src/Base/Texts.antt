-- ===== src/Base/Texts.antt =====
-- Texts: equality, association lists with text keys, Go's `slices.Contains` and `slices.Sort`.
use Prim.Native.Nat.{ℕ, zero, suc, ◌+◌, ◌/◌, ◌%◌}
use Prim.Native.String
use Prim.Native.String.{String, compare}
use mathlib.Core.Path.{◌≡◌, refl}
use mathlib.Core.Bool.{Bool, true, false, ◌&&◌, ◌||◌}
use mathlib.Core.Logic.{inl, inr}
use mathlib.Core.Option.{Option, none, some}
use mathlib.Core.List.{List, [], ◌∷◌, ◌++◌}
use native.Mathlib.Omega.{arith}
use text.Mathlib.Text
use text.Mathlib.TextEquality.{eq_iff}
use text.Mathlib.TextLemmas.{append-eq-nil_iff}
use mspsql.Base.Tests.{if◌then◌else◌, Bool-cases, ltb}
use mspsql.Base.Lists.{select}

infix 50 ◌==◌
abbrev pub ◌==◌ : String → String → Bool
s == t = Text.◌==◌ s t

-- `slices.Contains`
abbrev pub contains : List String → String → Bool
contains [] s = false
contains (x ∷ xs) s = x == s || contains xs s

-- A Go map from strings. A missing key reads as the zero value.
module _ {ℓ} {V : Type ℓ} where
  unfoldable pub insert : String → V → List (String × V) → List (String × V)
  insert key value [] = (key, value) ∷ []
  insert key value (entry ∷ entries) =
      let rest = insert key value entries in
      if entry.0 == key then (key, value) ∷ entries else entry ∷ rest

  unfoldable pub lookup : String → List (String × V) → Option V
  lookup key [] = none
  lookup key (entry ∷ entries) =
      let rest = lookup key entries in if entry.0 == key then some entry.1 else rest

  pub lookup-insert :
      (key other : String) (value : V) (entries : List (String × V))
      → lookup other (insert key value entries)
        ≡ (if key == other then some value else lookup other entries)
  unfolding insert lookup
  lookup-insert key other value [] = refl
  lookup-insert key other value (entry ∷ entries) = ground (
    arith,
    lookup-insert key other value entries,
    eq_iff entry.0 other,
    eq_iff entry.0 key,
    eq_iff key other,
  )

-- `m[k]` of a `map[string]string`
abbrev pub get : String → List (String × String) → String
get k m = elim (lookup k m) [ none ↦ "" | some v ↦ v ]

-- `slices.Sort`: the sorted permutation, by byte order, which is the order of code points.
unfoldable pub insert_sorted : String → List String → List String
insert_sorted s [] = s ∷ []
insert_sorted s (x ∷ xs) = if Text.is_le (compare s x) then s ∷ x ∷ xs else x ∷ insert_sorted s xs

unfoldable pub sort : List String → List String
unfolding insert_sorted
sort [] = []
sort (x ∷ xs) = insert_sorted x (sort xs)

contains-insert_sorted :
    (y : String) (xs : List String) (s : String)
    → contains (insert_sorted y xs) s ≡ (y == s || contains xs s)
unfolding insert_sorted
contains-insert_sorted y [] s = refl
contains-insert_sorted y (x ∷ xs) s = ground (arith, contains-insert_sorted y xs s)

-- Sorting keeps the elements.
pub contains-sort : (xs : List String) (s : String) → contains (sort xs) s ≡ contains xs s
unfolding sort
contains-sort [] s = refl
contains-sort (x ∷ xs) s = ground (arith, contains-insert_sorted x (sort xs) s, contains-sort xs s)

pub contains-append :
    (xs ys : List String) (s : String) → contains (xs ++ ys) s ≡ (contains xs s || contains ys s)
contains-append [] ys s = refl
contains-append (x ∷ xs) ys s = ground (arith, contains-append xs ys s)

-- An element of the selection is in the list and passes the test.
pub contains-select :
    (p : String → Bool) (xs : List String) (s : String)
    → contains (select p xs) s ≡ (p s && contains xs s)
contains-select p [] s = ground arith
contains-select p (x ∷ xs) s = elim (Bool-cases (x == s)) [
  | inl e ↦ rw ((eq_iff x s).0 e) (ground (arith, contains-select p xs s, eq_iff s s))
  | inr e ↦ ground (arith, contains-select p xs s)
]

-- `strconv.FormatInt(n, 10)` and `%d` of a number at least 0: its decimal digits.
digit : ℕ → String
digit d =
    let ten : List String = "0" ∷ "1" ∷ "2" ∷ "3" ∷ "4" ∷ "5" ∷ "6" ∷ "7" ∷ "8" ∷ "9" ∷ [] in
    nth ten d
  where
    nth : List String → ℕ → String
    nth [] i = ""
    nth (x ∷ xs) zero = x
    nth (x ∷ xs) (suc i) = nth xs i

-- `n` has fewer than `n + 1` digits.
format_digits : ℕ → ℕ → String
format_digits zero n = ""
format_digits (suc f) n = elim (ltb n 10) [
  | true ↦ digit n
  | false ↦ String.◌++◌ (format_digits f (n / 10)) (digit (n % 10))
]

unfoldable pub format_int : ℕ → String
unfolding digit format_digits
format_int n = format_digits (n + 1) n

format_int_test : format_int 1207 ≡ "1207"
unfolding format_int
format_int_test = refl

-- Texts one after another, as `+` and `fmt.Sprintf` put them.
abbrev pub texts : List String → String
texts [] = ""
texts (x ∷ xs) = String.◌++◌ x (texts xs)

pub texts-named :
    (s : String) (xs : List String) → (s == "") ≡ false → (texts (s ∷ xs) == "") ≡ false
texts-named s xs h = elim (Bool-cases (texts (s ∷ xs) == "")) [
  | inl e ↦
      let (front, _) = append-eq-nil_iff.0 ((eq_iff (texts (s ∷ xs)) "").0 e) in
      absurd (ground (arith, eq_iff s "", front))
  | inr e ↦ e
]
