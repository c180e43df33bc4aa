-- ===== src/Control/Trust/Declared.antt =====
-- The directives of databases and users (`declarationDirectiveTrusted`).
use mspsql.Base.{
  ℕ, String, true, ◌≡◌, refl, Option, some, is_some, inl, inr, Bool-cases, Option-cases, eq_iff,
  eq_refl, arith, ◌==◌,
}
use mspsql.Api.Common.{DeletionPolicy, delete, retain}
use mspsql.Api.Instance.{MultiSitePostgres}
use mspsql.Control.{OwnerReference, ConfigMap, done, value_of}
use mspsql.Control.Trust.{declared_operation_uid, is_delete, declaration_directive_trusted}

-- A directive that matches its declaration as it is now: the object, its instance, the operation of its
-- generation, its spec, and a deletion only where one is asked for under the policy to delete.
pub record MatchesDeclaration (c : ConfigMap) (owner : OwnerReference) (i : MultiSitePostgres)
    (uid : String) (generation : ℕ) (instance_ref : String) (deletion : Option ℕ)
    (policy : DeletionPolicy) (spec : Option String) : Type 0 where
  pub same_object : uid ≡ owner.uid
  pub same_instance : instance_ref ≡ i.meta.name
  pub same_operation :
      value_of c "operationUID"
      ≡ declared_operation_uid uid generation (value_of c "deleting" == "true")
  pub same_deletion : (value_of c "deleting" == "true") ≡ is_some deletion
  pub permitted : (value_of c "deleting" == "true") ≡ true → policy ≡ delete
  pub same_spec : spec ≡ some (value_of c "spec.json")

is_delete_iff : (policy : DeletionPolicy) → is_delete policy ≡ true → policy ≡ delete
is_delete_iff delete h = refl
is_delete_iff retain h = cc

delete-is_delete : (policy : DeletionPolicy) → policy ≡ delete → is_delete policy ≡ true
delete-is_delete policy h = rw h refl

module _ (c : ConfigMap) (owner : OwnerReference) (i : MultiSitePostgres) (uid : String)
    (generation : ℕ) (instance_ref : String) (deletion : Option ℕ) (policy : DeletionPolicy)
    (spec : Option String) where
  pub trusted-Matches :
      declaration_directive_trusted c owner i uid generation instance_ref deletion policy spec
        ≡ done true
      → MatchesDeclaration c owner i uid generation instance_ref deletion policy spec
  unfolding declaration_directive_trusted
  trusted-Matches h = elim (Option-cases spec) [
    | inl unwritten ↦ absurd (ground (arith, unwritten, h))
    | inr (encoded, written) ↦ record {
      same_object = ground (arith, written, h, eq_iff uid owner.uid);
      same_instance = ground (arith, written, h, eq_iff instance_ref i.meta.name);
      same_operation = ground (
        arith,
        written,
        h,
        eq_iff (value_of c "operationUID")
            (declared_operation_uid uid generation (value_of c "deleting" == "true")),
      );
      same_deletion = ground (arith, written, h);
      permitted = λ deleting. is_delete_iff policy (ground (arith, written, h, deleting));
      same_spec = ground (arith, written, h, eq_iff encoded (value_of c "spec.json"));
    }
  ]

  pub Matches-trusted :
      MatchesDeclaration c owner i uid generation instance_ref deletion policy spec
      → declaration_directive_trusted c owner i uid generation instance_ref deletion policy spec
        ≡ done true
  unfolding declaration_directive_trusted
  Matches-trusted m = elim (Bool-cases (value_of c "deleting" == "true")) [
    | inl deleting ↦
        let allowed = delete-is_delete policy (m.permitted deleting) in
        ground (
          arith,
          m.same_object,
          m.same_instance,
          m.same_operation,
          m.same_deletion,
          m.same_spec,
          allowed,
          eq_iff uid owner.uid,
          eq_iff instance_ref i.meta.name,
          eq_iff (value_of c "operationUID")
              (declared_operation_uid uid generation (value_of c "deleting" == "true")),
          eq_refl (value_of c "spec.json"),
        )
    | inr kept ↦ ground (
      arith,
      m.same_object,
      m.same_instance,
      m.same_operation,
      m.same_deletion,
      m.same_spec,
      eq_iff uid owner.uid,
      eq_iff instance_ref i.meta.name,
      eq_iff (value_of c "operationUID")
          (declared_operation_uid uid generation (value_of c "deleting" == "true")),
      eq_refl (value_of c "spec.json"),
    )
  ]
