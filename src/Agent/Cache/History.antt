-- ===== src/Agent/Cache/History.antt =====
-- A store for an instance whose plan the cache holds (`Store` and `Load`).
use mspsql.Base.{
  ℕ, ◌≤◌, ◌<◌, String, true, false, ◌≡◌, refl, ap, ◌∙◌, ◌⊎◌, inl, inr, ◌==◌, some, Option-cases,
  Bool-cases, lookup, insert, lookup-insert, format_int, eq_iff, eq_refl, arith,
}
use mspsql.Plan.{
  SitePlan, Bytes, Envelope, Crypto, Codec, PlanError, Result, ok, err, verify, check_plan,
}
use mspsql.Plan.Signing.{verify-IsAccepted}
use mspsql.Agent.Cache.{
  CachedPlan, Cached, CacheCalls, CacheText, CacheError, call_failed, Cache, cached, refused,
  cache_name, load_entry, load, write_entry, accept_plan, store, from_verify, entry_of,
}

pub Result-cases :
    (r : Result SitePlan) → ((p : SitePlan) × (r ≡ ok p)) ⊎ ((e : PlanError) × (r ≡ err e))
Result-cases (ok p) = inl (p, refl)
Result-cases (err e) = inr (e, refl)

Cache-cases :
    (r : Cache SitePlan) → ((p : SitePlan) × (r ≡ cached p)) ⊎ ((e : CacheError) × (r ≡ refused e))
Cache-cases (cached p) = inl (p, refl)
Cache-cases (refused e) = inr (e, refl)

module _ (crypto : Crypto) (codec : Codec SitePlan) (text : CacheText) where
  -- A lower minimum accepts what a higher one does.
  verify_lower :
      (public_key : Bytes) (e : Envelope) (site_uid instance_uid : String) (m n : ℕ) (p : SitePlan)
      → verify crypto codec public_key e site_uid instance_uid m ≡ ok p
      → n ≤ m
      → verify crypto codec public_key e site_uid instance_uid n ≡ ok p
  unfolding verify check_plan
  verify_lower public_key e site_uid instance_uid m n p h le =
      elim (Option-cases (crypto.decode e.signature)) [
        | inl missing ↦ absurd (ground arith)
        | inr (s, found) ↦ elim (Option-cases (codec.unmarshal e.plan)) [
          | inl unread ↦ absurd (ground arith)
          | inr (q, read) ↦ ground arith
        ]
      ]

  -- An envelope whose plan is read back as it was written. Those that `Sign` makes are, as their JSON is
  -- compact; one with white space need not be, since `json.Marshal` takes it out.
  abbrev pub IsCompact : Envelope → Type 0
  IsCompact e = (j : String) → text.marshal_raw e.plan ≡ some j → text.unmarshal_raw j ≡ some e.plan

  module _ (public_key : Bytes) (site_uid : String) where
    -- The cache holds plan `p` for an instance.
    pub record IsHeld (state : Cached) (instance_uid : String) (p : SitePlan) : Type 0 where
      pub entry : CachedPlan
      pub found : lookup (cache_name crypto codec text instance_uid) state ≡ some entry
      pub labelled : entry.revision ≡ format_int p.revision
      pub loaded : load crypto codec text false public_key site_uid state instance_uid ≡ cached p

    from_verify_lem : (r : Result SitePlan) (p : SitePlan) → from_verify r ≡ cached p → r ≡ ok p
    from_verify_lem (ok q) p h = ground arith
    from_verify_lem (err e) p h = ground arith

    pub load_entry_lem :
        (entry : CachedPlan) (instance_uid : String) (p : SitePlan)
        → load_entry crypto codec text public_key site_uid entry instance_uid ≡ cached p
        → (raw : Bytes) × (text.unmarshal_raw entry.site_plan_json ≡ some raw)
          × (verify crypto codec public_key
                (record { plan = raw; signature = entry.signature })
                site_uid
                instance_uid
                1
              ≡ ok p)
    unfolding load_entry
    load_entry_lem entry instance_uid p h =
        elim (Option-cases (text.unmarshal_raw entry.site_plan_json)) [
          | inl missing ↦ absurd (ground arith)
          | inr (raw, read) ↦ (raw, read, from_verify_lem _ p (rw (read, load_entry) at h))
        ]

    pub held_entry :
        (state : Cached) (instance_uid : String) (p : SitePlan) (h : IsHeld state instance_uid p)
        → load_entry crypto codec text public_key site_uid h.entry instance_uid ≡ cached p
    unfolding load
    held_entry state instance_uid p h = rw h.found at h.loaded

    -- A plan that is held is of its instance, and its revision is at least 1.
    pub held_identity :
        (state : Cached) (instance_uid : String) (p : SitePlan)
        → IsHeld state instance_uid p
        → (p.instance_uid ≡ instance_uid) × (1 ≤ p.revision)
    held_identity state instance_uid p h =
        let (raw, _, v) =
          load_entry_lem h.entry instance_uid p (held_entry state instance_uid p h) in
        let a = verify-IsAccepted crypto codec public_key _ site_uid instance_uid 1 p v in
        (a.instance_of, a.fresh)

    -- The plan that was written is the one that is held from then on.
    written-IsHeld :
        (state : Cached) (e : Envelope) (instance_uid : String) (q : SitePlan) (j : String)
        (now minimum : ℕ)
        → IsCompact e
        → text.marshal_raw e.plan ≡ some j
        → verify crypto codec public_key e site_uid instance_uid minimum ≡ ok q
        → 1 ≤ minimum
        → IsHeld
            (insert (cache_name crypto codec text instance_uid) (entry_of e q j now) state)
            instance_uid
            q
    unfolding load load_entry
    written-IsHeld state e instance_uid q j now minimum compact written v le =
        let name = cache_name crypto codec text instance_uid in
        let found : lookup name (insert name (entry_of e q j now) state)
            ≡ some (entry_of e q j now) =
          lookup-insert name name (entry_of e q j now) state ∙ rw (eq_refl name) refl in
        record {
          entry = entry_of e q j now;
          found = found;
          labelled = refl;
          loaded =
              rw
                (
                  found,
                  load_entry,
                  compact j written,
                  verify_lower public_key e site_uid instance_uid minimum 1 q v le,
                )
                refl;
        }

    write_entry_cases :
        (calls : CacheCalls) (state : Cached) (instance_uid : String) (new entry : CachedPlan)
        (q : SitePlan)
        → lookup (cache_name crypto codec text instance_uid) state ≡ some entry
        → ((write_entry crypto codec text calls state instance_uid new q).0 ≡ state)
          ⊎ (((entry.revision == new.revision) ≡ false)
              × (write_entry crypto codec text calls state instance_uid new q
                  ≡ (insert (cache_name crypto codec text instance_uid) new state, cached q)))
    unfolding write_entry
    write_entry_cases calls state instance_uid new entry q found = ground arith

    -- What a store may do: nothing to the cache, or hold a plan of a higher revision.
    abbrev Stores : Cached → String → SitePlan → Cached × Cache SitePlan → Type 0
    Stores state instance_uid p r =
        (r.0 ≡ state)
        ⊎ ((q : SitePlan) × IsHeld r.0 instance_uid q
            × (r.1 ≡ cached q)
            × (p.revision < q.revision))

    higher : (a : String) (m n : ℕ) → m ≤ n → a ≡ format_int m → (a == format_int n) ≡ false → m < n
    higher a m n le e differs = ground (arith, eq_iff a (format_int n), eq_refl (format_int n))

    accept_plan_step :
        (calls : CacheCalls) (state : Cached) (e : Envelope) (instance_uid : String) (now : ℕ)
        (p : SitePlan)
        → IsCompact e
        → IsHeld state instance_uid p
        → Stores state instance_uid p (
            accept_plan crypto codec text calls public_key site_uid state e instance_uid now
              p.revision)
    unfolding accept_plan
    accept_plan_step calls state e instance_uid now p compact h =
        elim (Result-cases (verify crypto codec public_key e site_uid instance_uid p.revision)) [
          | inr (bad, v) ↦ inl (rw (v, accept_plan) refl)
          | inl (q, v) ↦ elim (Option-cases (text.marshal_raw e.plan)) [
            | inl unwritten ↦ inl (rw (v, accept_plan, unwritten) refl)
            | inr (j, written) ↦
                elim (write_entry_cases calls state instance_uid (entry_of e q j now) h.entry q
                  h.found) [
                    | inl same ↦ inl (rw (v, accept_plan, written) same)
                    | inr (differs, stored) ↦ inr (
                      q,
                      rw (v, accept_plan, written, stored)
                          (written-IsHeld state e instance_uid q j now p.revision compact written v
                            (held_identity state instance_uid p h).1),
                      rw (v, accept_plan, written, stored) refl,
                      higher h.entry.revision p.revision q.revision
                          (verify-IsAccepted crypto codec public_key e site_uid instance_uid
                            p.revision q v).fresh
                          h.labelled differs,
                    )
                  ]
          ]
        ]

    pub failing_load :
        (state : Cached) (instance_uid : String)
        → load crypto codec text true public_key site_uid state instance_uid ≡ refused call_failed
    unfolding load
    failing_load state instance_uid = refl

    -- A store for an instance that has a plan.
    pub store_step :
        (calls : CacheCalls) (state : Cached) (e : Envelope) (instance_uid : String) (now : ℕ)
        (p : SitePlan)
        → IsCompact e
        → IsHeld state instance_uid p
        → Stores state instance_uid p
            (store crypto codec text calls public_key site_uid state e instance_uid now)
    unfolding store
    store_step calls state e instance_uid now p compact h = elim (Bool-cases calls.load_fails) [
      | inl failing ↦
          let none_read =
            ap (λ b. load crypto codec text b public_key site_uid state instance_uid) failing
            ∙ failing_load state instance_uid in
          inl (rw (none_read, store) refl)
      | inr fine ↦
          let read =
            ap (λ b. load crypto codec text b public_key site_uid state instance_uid) fine
            ∙ h.loaded in
          rw (read, store) (accept_plan_step calls state e instance_uid now p compact h)
    ]
