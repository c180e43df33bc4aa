-- ===== src/Policy/Membership.antt =====
-- The tests of a site's policy as membership in what its registration lists.
use mspsql.Base.{
  String, true, ◌≡◌, ◌≢◌, refl, Option, none, some, List, [], ◌∷◌, Member, at_head, in_tail,
  contains, Bool-cases, inl, inr, eq_iff, eq_refl, arith, ◌==◌, ◌&&◌, subst,
}
use mspsql.Api.Common.{IssuerReference, StorageRequest, StorageClassInventory}
use mspsql.Policy.{issuer_allowed, discovered_storage_class, permits, class_of, allows_named}

pub contains-to : (xs : List String) (s : String) → contains xs s ≡ true → Member s xs
contains-to [] s h = absurd cc
contains-to (x ∷ xs) s h = elim (Bool-cases (x == s)) [
  | inl same ↦ subst (λ (z : String). Member z (x ∷ xs)) ((eq_iff x s).0 same) at_head
  | inr other ↦ in_tail (contains-to xs s (ground (arith, h, other)))
]

pub contains-from : (xs : List String) (s : String) → Member s xs → contains xs s ≡ true
contains-from [] s m = elim m [ ]
contains-from (x ∷ xs) _ at_head = ground (arith, eq_refl x)
contains-from (x ∷ xs) s (in_tail m) = let rest = contains-from xs s m in ground (arith, rest)

same_issuer :
    (a b : IssuerReference) → a.name ≡ b.name → a.kind ≡ b.kind → a.group ≡ b.group → a ≡ b
same_issuer a b n k g = cc

pub issuer_allowed-to :
    (xs : List IssuerReference) (r : IssuerReference) → issuer_allowed xs r ≡ true → Member r xs
unfolding issuer_allowed
issuer_allowed-to [] r h = absurd cc
issuer_allowed-to (x ∷ xs) r h =
    elim (Bool-cases (x.name == r.name && (x.kind == r.kind && x.group == r.group))) [
      | inl same ↦
          subst (λ (z : IssuerReference). Member z (x ∷ xs))
            (same_issuer x r (ground (arith, same, eq_iff x.name r.name))
              (ground (arith, same, eq_iff x.kind r.kind))
              (ground (arith, same, eq_iff x.group r.group)))
            at_head
      | inr other ↦ in_tail (issuer_allowed-to xs r (ground (arith, h, other)))
    ]

pub issuer_allowed-from :
    (xs : List IssuerReference) (r : IssuerReference) → Member r xs → issuer_allowed xs r ≡ true
unfolding issuer_allowed
issuer_allowed-from [] r m = elim m [ ]
issuer_allowed-from (x ∷ xs) _ at_head =
    ground (arith, eq_refl x.name, eq_refl x.kind, eq_refl x.group)
issuer_allowed-from (x ∷ xs) r (in_tail m) =
    let rest = issuer_allowed-from xs r m in ground (arith, rest)

-- The StorageClass is one that the site has discovered.
abbrev pub IsDiscovered : List StorageClassInventory → StorageRequest → Type 0
IsDiscovered inventory r =
    (item : StorageClassInventory) × Member item inventory × (item.name ≡ r.storage_class_name)

IsDiscovered-to :
    (inventory : List StorageClassInventory) (r : StorageRequest)
    → discovered_storage_class inventory (some r) ≡ true
    → IsDiscovered inventory r
unfolding discovered_storage_class
IsDiscovered-to [] r h = absurd cc
IsDiscovered-to (x ∷ xs) r h = elim (Bool-cases (x.name == r.storage_class_name)) [
  | inl same ↦ (x, at_head, (eq_iff x.name r.storage_class_name).0 same)
  | inr other ↦
      let (item, listed, named) = IsDiscovered-to xs r (ground (arith, h, other)) in
      (item, in_tail listed, named)
]

IsDiscovered-from :
    (inventory : List StorageClassInventory) (r : StorageRequest) (item : StorageClassInventory)
    → Member item inventory
    → item.name ≡ r.storage_class_name
    → discovered_storage_class inventory (some r) ≡ true
unfolding discovered_storage_class
IsDiscovered-from [] r item m named = elim m [ ]
IsDiscovered-from (x ∷ xs) r _ at_head named =
    ground (arith, named, eq_iff x.name r.storage_class_name)
IsDiscovered-from (x ∷ xs) r item (in_tail m) named =
    let rest = IsDiscovered-from xs r item m named in ground (arith, rest)

-- The request, if there is one, is for a StorageClass that is permitted and discovered.
abbrev pub AllowsClass : List String → List StorageClassInventory → Option StorageRequest → Type 0
AllowsClass permitted inventory requested =
    (r : StorageRequest)
    → requested ≡ some r
    → Member r.storage_class_name permitted × IsDiscovered inventory r

pub AllowsClass-to :
    (permitted : List String) (inventory : List StorageClassInventory)
    (requested : Option StorageRequest)
    → permits permitted (class_of requested) ≡ true
    → discovered_storage_class inventory requested ≡ true
    → AllowsClass permitted inventory requested
AllowsClass-to permitted inventory requested p d r same = (
  contains-to permitted r.storage_class_name (rw same at p),
  IsDiscovered-to inventory r (rw same at d),
)

pub AllowsClass-from :
    (permitted : List String) (inventory : List StorageClassInventory)
    (requested : Option StorageRequest)
    → AllowsClass permitted inventory requested
    → (permits permitted (class_of requested) ≡ true)
      × (discovered_storage_class inventory requested ≡ true)
unfolding discovered_storage_class
AllowsClass-from permitted inventory none a = (refl, refl)
AllowsClass-from permitted inventory (some r) a =
    let (listed, (item, held, named)) = a r refl in
    (
      contains-from permitted r.storage_class_name listed,
      IsDiscovered-from inventory r item held named,
    )

-- An issuer that is named is permitted.
abbrev pub AllowsNamed : List IssuerReference → IssuerReference → Type 0
AllowsNamed permitted r = r.name ≢ "" → Member r permitted

pub AllowsNamed-to :
    (permitted : List IssuerReference) (r : IssuerReference)
    → allows_named permitted r ≡ true
    → AllowsNamed permitted r
AllowsNamed-to permitted r h named =
    issuer_allowed-to permitted r (ground (arith, h, named, eq_iff r.name ""))

pub AllowsNamed-from :
    (permitted : List IssuerReference) (r : IssuerReference)
    → AllowsNamed permitted r
    → allows_named permitted r ≡ true
AllowsNamed-from permitted r a = elim (Bool-cases (r.name == "")) [
  | inl unnamed ↦ ground (arith, unnamed)
  | inr named ↦
      let known : r.name ≢ "" = λ e. ground (arith, named, e, eq_iff r.name "") in
      let allowed = issuer_allowed-from permitted r (a known) in ground (arith, allowed)
]
