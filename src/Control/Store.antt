-- ===== src/Control/Store.antt =====
-- Reading and writing the stored objects by their names.
use mspsql.Base.{
  String, true, false, ◌≡◌, some, List, [], ◌∷◌, All, Bool-cases, inl, inr, eq_iff, arith,
}
use mspsql.Api.Meta.{ObjectMeta}
use mspsql.Control.{named, get_object, put_object}

module _ {A : Type 0} (meta_of : A → ObjectMeta) where
  pub get_object-named :
      (objects : List A) (namespace name : String) (a : A)
      → get_object meta_of objects namespace name ≡ some a
      → named meta_of namespace name a ≡ true
  get_object-named [] namespace name a h = cc
  get_object-named (b ∷ objects) namespace name a h =
      elim (Bool-cases (named meta_of namespace name b)) [
        | inl e ↦ ground (arith, e, h)
        | inr e ↦ get_object-named objects namespace name a (rw (e) at h)
      ]

  pub get_object-put_object :
      (new : A) (objects : List A) (namespace name : String) (a : A)
      → get_object meta_of objects namespace name ≡ some a
      → named meta_of namespace name new ≡ true
      → get_object meta_of (put_object meta_of new objects) namespace name ≡ some new
  get_object-put_object new [] namespace name a h e = cc
  get_object-put_object new (b ∷ objects) namespace name a h e = ground (
    arith,
    get_object-put_object new objects namespace name a,
    eq_iff (meta_of new).namespace namespace,
    eq_iff (meta_of new).name name,
  )

  pub get_object-put_object_other :
      (new : A) (objects : List A) (namespace name : String)
      → named meta_of namespace name new ≡ false
      → get_object meta_of (put_object meta_of new objects) namespace name
        ≡ get_object meta_of objects namespace name
  get_object-put_object_other new [] namespace name e = ground arith
  get_object-put_object_other new (b ∷ objects) namespace name e = ground (
    arith,
    get_object-put_object_other new objects namespace name e,
    eq_iff (meta_of b).namespace namespace,
    eq_iff (meta_of b).name name,
    eq_iff (meta_of b).namespace (meta_of new).namespace,
    eq_iff (meta_of b).name (meta_of new).name,
    eq_iff (meta_of new).namespace namespace,
    eq_iff (meta_of new).name name,
  )

  pub All-put_object :
      (P : A → Type 0) (new : A) (objects : List A)
      → P new
      → All P objects
      → All P (put_object meta_of new objects)
  All-put_object P new [] p h = tt
  All-put_object P new (b ∷ objects) p h =
      elim (Bool-cases (named meta_of (meta_of new).namespace (meta_of new).name b)) [
        | inl e ↦ rw e (p, All-put_object P new objects p h.1)
        | inr e ↦ rw e (h.0, All-put_object P new objects p h.1)
      ]

  pub get_object-All :
      (P : A → Type 0) (objects : List A) (namespace name : String) (a : A)
      → All P objects
      → get_object meta_of objects namespace name ≡ some a
      → P a
  get_object-All P [] namespace name a h e = cc
  get_object-All P (b ∷ objects) namespace name a h e =
      elim (Bool-cases (named meta_of namespace name b)) [
        | inl here ↦ ground (arith, h.0)
        | inr there ↦ get_object-All P objects namespace name a h.1 (rw (there) at e)
      ]
