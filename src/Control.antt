-- ===== src/Control.antt =====
-- The hub's end of the control stream (internal/control/server.go): what it stores, the calls it
-- makes, and the messages of the stream (gen/control/v1).
--
-- `Hub` is what the API server holds of the objects that the server reads and writes. `HubCalls` says
-- which calls fail. An update of a status is a read, a change and a write that the API server accepts
-- only while nothing else has written the object; a retry starts from a new read. So an update
-- that succeeds is one step from what is stored, and one that fails changes nothing.
pub mod Store
pub mod Trust
pub mod Targets
pub mod Dispatch
pub mod Session
pub mod Record
pub mod Results
pub mod Receive
pub mod Aggregate
use mspsql.Base.{
  ℕ, ℤ, String, ◌≡◌, refl, ◌⊎◌, inl, inr, Bool, true, false, ◌&&◌, Option, none, some, List, [],
  ◌∷◌, is_some, ◌==◌, lookup, get, if◌then◌else◌,
}
use mspsql.Api.Meta.{ObjectMeta, Condition, ConditionStatus, ConditionApi}
use mspsql.Api.Common.{SiteRevisionStatus}
use mspsql.Api.Instance.{MultiSitePostgres}
use mspsql.Api.Upgrade.{PostgresUpgrade}
use mspsql.Api.Site.{SiteRegistration}
use mspsql.Api.Declarations.{
  PostgresDatabase, PostgresUser, PostgresRestore, PostgresDatabaseSpec, PostgresUserSpec,
}
use mspsql.Plan.{Bytes, Envelope}

pub record OwnerReference : Type 0 where
  pub api_version : String
  pub kind : String
  pub name : String
  pub uid : String
  pub controller : Bool

-- `contents` is the field `Data`.
pub record ConfigMap : Type 0 where
  pub namespace : String
  pub name : String
  pub labels : List (String × String)
  pub owner_references : List OwnerReference
  pub contents : List (String × String)

-- `signing_secret` is the `privateKey` of the Secret with the signing key, none without the Secret.
pub record Hub : Type 0 where
  pub registrations : List SiteRegistration
  pub instances : List MultiSitePostgres
  pub databases : List PostgresDatabase
  pub users : List PostgresUser
  pub restores : List PostgresRestore
  pub upgrades : List PostgresUpgrade
  pub config_maps : List ConfigMap
  pub signing_secret : Option String

pub data Kind : Type 0 where
  registration instance_kind database user restore_kind upgrade_kind config_map secret : Kind

-- Which calls fail, for an object of a kind by its name; a failing `send` by what it names.
-- `index_fails` is the list of the instances by the index of their UIDs.
pub record HubCalls : Type 0 where
  pub list_fails : Kind → Bool
  pub index_fails : Bool
  pub get_fails : Kind → String → Bool
  pub update_fails : Kind → String → Bool
  pub send_fails : String → Bool

-- The gRPC codes that the server answers with, and the errors that it passes on.
pub data Code : Type 0 where
  invalid_argument failed_precondition unauthenticated permission_denied resource_exhausted
        internal :
      Code

pub data Failure : Type 0 where
  status_error : Code → String → Failure
  not_found : String → Failure
  call_failed : Kind → Failure
  send_failed : Failure
  decode_failed : Failure
  sign_failed : Failure
  invalid_key : Failure

pub data Outcome (A : Type 0) : Type 0 where
  done : A → Outcome A
  failed : Failure → Outcome A

pub Outcome-cases :
    {A : Type 0} (o : Outcome A) → ((e : Failure) × (o ≡ failed e)) ⊎ ((a : A) × (o ≡ done a))
Outcome-cases (done a) = inr (a, refl)
Outcome-cases (failed e) = inl (e, refl)

-- The wire form of a condition of a result (`controlv1.Condition`). Its status is a text; the server
-- compares it with "True" and "False".
pub record Report : Type 0 where
  pub type : String
  pub status : String
  pub reason : String
  pub message : String

-- The JSON of a scheduled backup.
pub record BackupRequest : Type 0 where
  pub backup_type : String
  pub scheduled_at : String

-- What the server uses of encoding/json, time, base64, strconv, strings, and of apimachinery's
-- `GetControllerOf` and `Semantic.DeepEqual`; each reader may fail. `join` puts "; " between the texts.
-- A time is a count of nanoseconds.
pub record HubText : Type 0 where
  pub bytes_of : String → Bytes
  pub read_envelope : String → Option Envelope
  pub write_envelope : Envelope → Option Bytes
  pub read_backup : String → Option BackupRequest
  pub read_backup_type : String → Option String
  pub parse_time : String → Option ℕ
  pub database_text : PostgresDatabaseSpec → Option String
  pub user_text : PostgresUserSpec → Option String
  pub parse_int : String → Option ℤ
  pub read_texts : String → Option (List String)
  pub read_report : String → Option (ConditionStatus × String × String)
  pub status_of : String → ConditionStatus
  pub decode_key : String → Option Bytes
  pub controller_of : List OwnerReference → Option OwnerReference
  pub cut_prefix : String → String → Option String
  pub join : List String → String
  pub failure_text : Failure → String
  pub is_same_site : SiteRevisionStatus → SiteRevisionStatus → Bool

-- The result of a `Get`: not there, or a call that failed.
pub data Fetched (A : Type 0) : Type 0 where
  fetched : A → Fetched A
  missing unreachable : Fetched A

module _ {A : Type 0} (meta_of : A → ObjectMeta) where
  abbrev pub named : String → String → A → Bool
  named namespace name a = (meta_of a).namespace == namespace && (meta_of a).name == name

  abbrev pub get_object : List A → String → String → Option A
  get_object [] namespace name = none
  get_object (a ∷ objects) namespace name =
      let rest = get_object objects namespace name in
      if named namespace name a then some a else rest

  abbrev pub fetch : Bool → List A → String → String → Fetched A
  fetch fails objects namespace name =
      if fails
      then unreachable
      else elim (get_object objects namespace name) [ none ↦ missing | some a ↦ fetched a ]

  -- The object written in the place of the one with its name.
  abbrev pub put_object : A → List A → List A
  put_object new [] = []
  put_object new (a ∷ objects) =
      let rest = put_object new objects in
      if named (meta_of new).namespace (meta_of new).name a then new ∷ rest else a ∷ rest

-- `status.Code(err) != codes.Unknown`: a gRPC error is passed on, any other is made an internal one.
abbrev pub as_status : (Failure → String) → Failure → Failure
as_status text (status_error code message) = status_error code message
as_status text (not_found message) = not_found message
as_status text e = status_error internal (text e)

abbrev pub has_label : String → ConfigMap → Bool
has_label key c = is_some (lookup key c.labels)

abbrev pub value_of : ConfigMap → String → String
value_of c key = get key c.contents

-- `setSiteCondition` and `setInstanceCondition`
module _ (api : ConditionApi) where
  unfoldable pub set_site_condition :
      List Condition → String → ConditionStatus → String → String → List Condition
  set_site_condition cs type status reason message = api.set_status_condition cs (record {
    type = type;
    status = status;
    observed_generation = 0;
    reason = reason;
    message = message;
  })

  unfoldable pub set_instance_condition :
      List Condition → ℕ → String → ConditionStatus → String → String → List Condition
  set_instance_condition cs generation type status reason message =
      api.set_status_condition cs (record {
        type = type;
        status = status;
        observed_generation = generation;
        reason = reason;
        message = message;
      })
