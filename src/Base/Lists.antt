-- ===== src/Base/Lists.antt =====
-- Lists measured by native numbers, predicates over lists, and Go's slice helpers.
use Prim.Native.Nat.{ℕ, suc}
use mathlib.Core.Bool.{Bool, true, false, ◌&&◌, ◌||◌}
use mathlib.Core.List.{List, [], ◌∷◌}
use mathlib.Core.Path.{◌≡◌}
use mathlib.Core.Logic.{inl, inr}
use mspsql.Base.Tests.{if◌then◌else◌, Bool-cases}

module _ {ℓ} {A : Type ℓ} where
  abbrev pub length : List A → ℕ
  length [] = 0
  length (x ∷ xs) = suc (length xs)

  abbrev pub all : (A → Bool) → List A → Bool
  all p [] = true
  all p (x ∷ xs) = p x && all p xs

  abbrev pub any : (A → Bool) → List A → Bool
  any p [] = false
  any p (x ∷ xs) = p x || any p xs

  abbrev pub select : (A → Bool) → List A → List A
  select p [] = []
  select p (x ∷ xs) = let rest = select p xs in if p x then x ∷ rest else rest

-- An element of a list.
module _ {ℓ} {A : Type ℓ} where
  pub data Member (x : A) : List A → Type ℓ where
    at_head : {xs : List A} → Member x (x ∷ xs)
    in_tail : {y : A} {xs : List A} → Member x xs → Member x (y ∷ xs)

  Member-cons :
      (p : A → Bool) (xs : List A) (y x : A)
      → p y ≡ true
      → (Member x (select p xs) → Member x xs × (p x ≡ true))
      → Member x (y ∷ select p xs)
      → Member x (y ∷ xs) × (p x ≡ true)
  Member-cons p xs y _ taken rest at_head = (at_head, taken)
  Member-cons p xs y x taken rest (in_tail later) =
      let (inside, passes) = rest later in (in_tail inside, passes)

  pub Member-select :
      (p : A → Bool) (xs : List A) (x : A) → Member x (select p xs) → Member x xs × (p x ≡ true)
  Member-select p [] x m = elim m [ ]
  Member-select p (y ∷ ys) x m = elim (Bool-cases (p y)) [
    | inl taken ↦ Member-cons p ys y x taken (Member-select p ys x) (rw taken at m)
    | inr out ↦
        let (inside, passes) = Member-select p ys x (rw out at m) in (in_tail inside, passes)
  ]

module _ {ℓ κ} {A : Type ℓ} (P : A → Type κ) where
  abbrev pub All : List A → Type κ
  All [] = Unit
  All (x ∷ xs) = P x × All xs
