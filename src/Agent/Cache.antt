-- ===== src/Agent/Cache.antt =====
-- The agent's cache of signed plans (internal/agent/cache.go): `Store` and `Load`.
--
-- A ConfigMap for each instance holds the last plan that was accepted. `Calls` says which of a
-- store's API calls fail. A store is one step: Run cancels the worker of an instance before it starts
-- the next one, and does not wait for it, so that a write of the old worker could still land between
-- the calls of the new one. That is not modelled.
pub mod History
pub mod Rollback
use mspsql.Base.{
  ℕ, String, Bool, true, false, ◌&&◌, Option, none, some, List, [], ◌∷◌, lookup, insert, ltb, ◌==◌,
  if◌then◌else◌, texts, format_int,
}
use mspsql.Plan.{SitePlan, Bytes, Envelope, Crypto, Codec, PlanError, Result, ok, err, verify}

-- The `Data` of the ConfigMap.
pub record CachedPlan : Type 0 where
  pub revision : String
  pub site_plan_json : String
  pub signature : String
  pub received_at : ℕ

abbrev pub Cached : Type 0
Cached = List (String × CachedPlan)

pub record CacheCalls : Type 0 where
  pub load_fails : Bool
  pub get_fails : Bool
  pub create_fails : Bool
  pub update_fails : Bool

-- What the code uses of `strings` and `encoding/json` here: a `RawMessage` is written without its
-- white space, and reading a text gives the message's bytes.
pub record CacheText : Type 0 where
  pub to_lower : String → String
  pub replace_all : String → String → String → String
  pub len : String → ℕ
  pub slice_to : String → ℕ → String
  pub marshal_raw : Bytes → Option String
  pub unmarshal_raw : String → Option Bytes

pub data CacheError : Type 0 where
  call_failed not_found decode_cached marshal_plan changed_contents : CacheError
  unverified : PlanError → CacheError

pub data Cache (A : Type 0) : Type 0 where
  cached : A → Cache A
  refused : CacheError → Cache A

abbrev pub from_verify : Result SitePlan → Cache SitePlan
from_verify (ok p) = cached p
from_verify (err e) = refused (unverified e)

-- `data`, for a plan that was verified.
abbrev pub entry_of : Envelope → SitePlan → String → ℕ → CachedPlan
entry_of envelope desired plan_json now = record {
  revision = format_int desired.revision;
  site_plan_json = plan_json;
  signature = envelope.signature;
  received_at = now;
}

module _ (crypto : Crypto) (codec : Codec SitePlan) (text : CacheText) where
  unfoldable pub cache_name : String → String
  cache_name instance_uid =
      let normalized = text.replace_all (text.to_lower instance_uid) "_" "-" in
      let short =
        if ltb 40 (text.len normalized) then text.slice_to normalized 40 else normalized in
      texts ("multisite-postgres-plan-" ∷ short ∷ [])

  -- `Load`, by the data that `Get` found.
  unfoldable pub load_entry : Bytes → String → CachedPlan → String → Cache SitePlan
  load_entry public_key site_uid entry instance_uid =
      elim (text.unmarshal_raw entry.site_plan_json) [
        | none ↦ refused decode_cached
        | some raw ↦ from_verify (
            verify crypto codec public_key (record { plan = raw; signature = entry.signature })
              site_uid instance_uid 1)
      ]

  unfoldable pub load : Bool → Bytes → String → Cached → String → Cache SitePlan
  unfolding load_entry cache_name
  load fails public_key site_uid state instance_uid =
      if fails then refused call_failed else elim (lookup (cache_name instance_uid) state) [
        | none ↦ refused not_found
        | some entry ↦ load_entry public_key site_uid entry instance_uid
      ]

  -- The lowest revision that a store accepts, or the error of `Load` that ends it.
  abbrev pub minimum_revision : Cache SitePlan → Cache ℕ
  minimum_revision (cached current) = cached current.revision
  minimum_revision (refused not_found) = cached 1
  minimum_revision (refused call_failed) = refused call_failed
  minimum_revision (refused decode_cached) = refused decode_cached
  minimum_revision (refused marshal_plan) = refused marshal_plan
  minimum_revision (refused changed_contents) = refused changed_contents
  minimum_revision (refused (unverified e)) = refused (unverified e)

  abbrev pub same_contents : CachedPlan → CachedPlan → Bool
  same_contents a b =
      a.revision == b.revision && a.site_plan_json == b.site_plan_json && a.signature == b.signature

  -- The second half of `Store`: write the plan that was verified.
  unfoldable pub write_entry :
      CacheCalls → Cached → String → CachedPlan → SitePlan → Cached × Cache SitePlan
  unfolding cache_name
  write_entry calls state instance_uid written desired =
      let name = cache_name instance_uid in
      if calls.get_fails then (state, refused call_failed) else elim (lookup name state) [
        | none ↦
            if calls.create_fails
            then (state, refused call_failed)
            else (insert name written state, cached desired)
        | some entry ↦
            if same_contents entry written
            then (state, cached desired)
            else if entry.revision == written.revision
            then (state, refused changed_contents)
            else if calls.update_fails
            then (state, refused call_failed)
            else (insert name written state, cached desired)
      ]

  -- The first half, from the minimum revision on.
  unfoldable pub accept_plan :
      CacheCalls → Bytes → String → Cached → Envelope → String → ℕ → ℕ → Cached × Cache SitePlan
  unfolding write_entry
  accept_plan calls public_key site_uid state envelope instance_uid now minimum =
      elim (verify crypto codec public_key envelope site_uid instance_uid minimum) [
        | err e ↦ (state, refused (unverified e))
        | ok desired ↦ elim (text.marshal_raw envelope.plan) [
          | none ↦ (state, refused marshal_plan)
          | some plan_json ↦
              write_entry calls state instance_uid (entry_of envelope desired plan_json now) desired
        ]
      ]

  unfoldable pub store :
      CacheCalls → Bytes → String → Cached → Envelope → String → ℕ → Cached × Cache SitePlan
  unfolding accept_plan load
  store calls public_key site_uid state envelope instance_uid now =
      elim (minimum_revision (load calls.load_fails public_key site_uid state instance_uid)) [
        | refused e ↦ (state, refused e)
        | cached minimum ↦
            accept_plan calls public_key site_uid state envelope instance_uid now minimum
      ]
