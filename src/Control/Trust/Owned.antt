-- ===== src/Control/Trust/Owned.antt =====
-- The directives that the owners of databases and users vouch for (`directiveOwnerTrusted`).
use mspsql.Base.{
  Bool, List, [], ◌∷◌, ◌≢◌, texts, false, String, true, ◌≡◌, refl, ◌↔◌, Option, some, inl, inr,
  Bool-cases, Option-cases, eq_iff, arith, ◌==◌,
}
use mspsql.Api.Common.{DeletionPolicy}
use mspsql.Api.Meta.{ObjectMeta}
use mspsql.Api.Declarations.{PostgresDatabase, PostgresUser}
use mspsql.Api.Instance.{MultiSitePostgres}
use mspsql.Control.{
  OwnerReference, ConfigMap, Hub, HubCalls, HubText, database, user, done, value_of, get_object,
}
use mspsql.Control.Trust.{
  group_version, directive_owner_trusted, database_directive_trusted, user_directive_trusted,
}
use mspsql.Control.Trust.Declared.{MatchesDeclaration, trusted-Matches, Matches-trusted}

-- A directive of a stored declaration: its ConfigMap has the owner, the kind, the type and the name of
-- one, and it matches the declaration.
pub record IsDeclared {A : Type 0} (meta_of : A → ObjectMeta) (objects : List A) (unreadable : Bool)
    (kind type prefix : String) (instance_of : A → String) (policy_of : A → DeletionPolicy)
    (text_of : A → Option String) (c : ConfigMap) (owner : OwnerReference) (i : MultiSitePostgres)
    : Type 0 where
  pub declaration : A
  pub stored : get_object meta_of objects c.namespace owner.name ≡ some declaration
  pub readable : unreadable ≡ false
  pub kind_of : owner.kind ≡ kind
  pub version : owner.api_version ≡ "multisite-postgres.dev/v1alpha1"
  pub identified : owner.uid ≢ ""
  pub for_instance : value_of c "instanceRef" ≡ i.meta.name
  pub type_of : value_of c "type" ≡ type
  pub named : c.name ≡ texts (prefix ∷ owner.name ∷ [])
  pub matches :
      MatchesDeclaration c owner i
        (meta_of declaration).uid
        (meta_of declaration).generation
        (instance_of declaration)
        (meta_of declaration).deletion_timestamp
        (policy_of declaration)
        (text_of declaration)

module _ (text : HubText) (hub : Hub) (calls : HubCalls) (c : ConfigMap) (owner : OwnerReference)
    (i : MultiSitePostgres) where
  abbrev pub OfDatabase : Type 0
  OfDatabase =
      IsDeclared (λ (d : PostgresDatabase). d.meta) hub.databases
        (calls.get_fails database owner.name) "PostgresDatabase" "Database" "mspsql-database-"
        (λ (d : PostgresDatabase). d.spec.instance_ref)
        (λ (d : PostgresDatabase). d.spec.deletion_policy)
        (λ (d : PostgresDatabase). text.database_text d.spec) c owner i

  abbrev pub OfUser : Type 0
  OfUser =
      IsDeclared (λ (u : PostgresUser). u.meta) hub.users (calls.get_fails user owner.name)
        "PostgresUser" "User" "mspsql-user-" (λ (u : PostgresUser). u.spec.instance_ref)
        (λ (u : PostgresUser). u.spec.deletion_policy) (λ (u : PostgresUser). text.user_text u.spec)
        c owner i

  trusted-OfDatabase :
      owner.kind ≡ "PostgresDatabase"
      → directive_owner_trusted text hub calls c (some owner) i ≡ done true
      → OfDatabase
  unfolding directive_owner_trusted database_directive_trusted
  trusted-OfDatabase kind h =
      let is_database : (owner.kind == "PostgresDatabase") ≡ true = (eq_iff _ _).1 kind in
      elim (Bool-cases (calls.get_fails database owner.name)) [
        | inl fails ↦ absurd (ground (arith, h, is_database, fails))
        | inr reads ↦
            elim (Option-cases (
              get_object (λ (d : PostgresDatabase). d.meta) hub.databases c.namespace owner.name)) [
                | inl missing ↦ absurd (ground (arith, h, is_database, reads, missing))
                | inr (d, stored) ↦ record {
                  declaration = d;
                  stored = stored;
                  readable = reads;
                  kind_of = kind;
                  version = ground (
                    arith,
                    h,
                    is_database,
                    reads,
                    stored,
                    eq_iff owner.api_version group_version,
                  );
                  identified = ground (arith, h, is_database, reads, stored, eq_iff owner.uid "");
                  for_instance = ground (
                    arith,
                    h,
                    is_database,
                    reads,
                    stored,
                    eq_iff (value_of c "instanceRef") i.meta.name,
                  );
                  type_of =
                      ground (
                        arith,
                        h,
                        is_database,
                        reads,
                        stored,
                        eq_iff (value_of c "type") "Database",
                      );
                  named = ground (
                    arith,
                    h,
                    is_database,
                    reads,
                    stored,
                    eq_iff c.name (texts ("mspsql-database-" ∷ owner.name ∷ [])),
                  );
                  matches =
                      trusted-Matches c owner i d.meta.uid d.meta.generation d.spec.instance_ref
                        d.meta.deletion_timestamp d.spec.deletion_policy (text.database_text d.spec)
                        (ground (arith, h, is_database, reads, stored));
                }
              ]
      ]

  OfDatabase-trusted :
      OfDatabase → directive_owner_trusted text hub calls c (some owner) i ≡ done true
  unfolding directive_owner_trusted database_directive_trusted
  OfDatabase-trusted m =
      let is_database : (owner.kind == "PostgresDatabase") ≡ true = (eq_iff _ _).1 m.kind_of in
      let d = m.declaration in
      let matched =
        Matches-trusted c owner i d.meta.uid d.meta.generation d.spec.instance_ref
          d.meta.deletion_timestamp d.spec.deletion_policy (text.database_text d.spec) m.matches in
      let version : (owner.api_version == group_version) ≡ true = (eq_iff _ _).1 m.version in
      let identified : (owner.uid == "") ≡ false =
        let known = m.identified in ground (arith, known, eq_iff owner.uid "") in
      let for_instance : (value_of c "instanceRef" == i.meta.name) ≡ true =
        (eq_iff _ _).1 m.for_instance in
      let typed : (value_of c "type" == "Database") ≡ true = (eq_iff _ _).1 m.type_of in
      let named : (c.name == texts ("mspsql-database-" ∷ owner.name ∷ [])) ≡ true =
        (eq_iff _ _).1 m.named in
      let stored = m.stored in
      let reads = m.readable in
      ground (
        arith, version, identified, for_instance, is_database, typed, named, reads, stored, matched,
      )

  trusted-OfUser :
      owner.kind ≡ "PostgresUser"
      → directive_owner_trusted text hub calls c (some owner) i ≡ done true
      → OfUser
  unfolding directive_owner_trusted user_directive_trusted
  trusted-OfUser kind h =
      let is_user : (owner.kind == "PostgresUser") ≡ true = (eq_iff _ _).1 kind in
      let no_database : (owner.kind == "PostgresDatabase") ≡ false = rw kind refl in
      elim (Bool-cases (calls.get_fails user owner.name)) [
        | inl fails ↦ absurd (ground (arith, h, is_user, no_database, fails))
        | inr reads ↦
            elim (Option-cases
              (get_object (λ (d : PostgresUser). d.meta) hub.users c.namespace owner.name)) [
                | inl missing ↦ absurd (ground (arith, h, is_user, no_database, reads, missing))
                | inr (d, stored) ↦ record {
                  declaration = d;
                  stored = stored;
                  readable = reads;
                  kind_of = kind;
                  version = ground (
                    arith,
                    h,
                    is_user,
                    no_database,
                    reads,
                    stored,
                    eq_iff owner.api_version group_version,
                  );
                  identified =
                      ground (arith, h, is_user, no_database, reads, stored, eq_iff owner.uid "");
                  for_instance = ground (
                    arith,
                    h,
                    is_user,
                    no_database,
                    reads,
                    stored,
                    eq_iff (value_of c "instanceRef") i.meta.name,
                  );
                  type_of = ground (
                    arith,
                    h,
                    is_user,
                    no_database,
                    reads,
                    stored,
                    eq_iff (value_of c "type") "User",
                  );
                  named = ground (
                    arith,
                    h,
                    is_user,
                    no_database,
                    reads,
                    stored,
                    eq_iff c.name (texts ("mspsql-user-" ∷ owner.name ∷ [])),
                  );
                  matches =
                      trusted-Matches c owner i d.meta.uid d.meta.generation d.spec.instance_ref
                        d.meta.deletion_timestamp d.spec.deletion_policy (text.user_text d.spec)
                        (ground (arith, h, is_user, no_database, reads, stored));
                }
              ]
      ]

  OfUser-trusted : OfUser → directive_owner_trusted text hub calls c (some owner) i ≡ done true
  unfolding directive_owner_trusted user_directive_trusted
  OfUser-trusted m =
      let is_user : (owner.kind == "PostgresUser") ≡ true = (eq_iff _ _).1 m.kind_of in
      let no_database : (owner.kind == "PostgresDatabase") ≡ false = rw m.kind_of refl in
      let d = m.declaration in
      let matched =
        Matches-trusted c owner i d.meta.uid d.meta.generation d.spec.instance_ref
          d.meta.deletion_timestamp d.spec.deletion_policy (text.user_text d.spec) m.matches in
      let version : (owner.api_version == group_version) ≡ true = (eq_iff _ _).1 m.version in
      let identified : (owner.uid == "") ≡ false =
        let known = m.identified in ground (arith, known, eq_iff owner.uid "") in
      let for_instance : (value_of c "instanceRef" == i.meta.name) ≡ true =
        (eq_iff _ _).1 m.for_instance in
      let typed : (value_of c "type" == "User") ≡ true = (eq_iff _ _).1 m.type_of in
      let named : (c.name == texts ("mspsql-user-" ∷ owner.name ∷ [])) ≡ true =
        (eq_iff _ _).1 m.named in
      let stored = m.stored in
      let reads = m.readable in
      ground (
        arith, version, identified, for_instance, is_user, no_database, typed, named, reads, stored,
        matched,
      )

  -- A directive whose owner is a database is trusted exactly when it is of one that is stored: its ConfigMap
  -- has the type, the name and the instance of the database's directives, and matches the database's
  -- UID, instance, generation and spec as they are stored, with a deletion only where one is
  -- asked for under the policy to delete. The same holds of users.
  pub declared_directive_trusted_iff :
      (((owner.kind ≡ "PostgresDatabase")
          × (directive_owner_trusted text hub calls c (some owner) i ≡ done true))
        ↔ OfDatabase)
      × (((owner.kind ≡ "PostgresUser")
            × (directive_owner_trusted text hub calls c (some owner) i ≡ done true))
          ↔ OfUser)
  declared_directive_trusted_iff = (
    ((λ (kind, h). trusted-OfDatabase kind h), λ m. (m.kind_of, OfDatabase-trusted m)),
    ((λ (kind, h). trusted-OfUser kind h), λ m. (m.kind_of, OfUser-trusted m)),
  )
