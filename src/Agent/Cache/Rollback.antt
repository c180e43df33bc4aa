-- ===== src/Agent/Cache/Rollback.antt =====
-- Sequences of stores for any instances (`Store`).
use mspsql.Base.{
  ℕ, ◌<◌, String, ◌≡◌, ◌≢◌, refl, sym, ap, ◌∙◌, ◌⊎◌, inl, inr, ◌==◌, some, Option-cases, Bool-cases,
  lookup, insert, lookup-insert, eq_iff, arith, subst,
}
use mspsql.Plan.{SitePlan, Bytes, Envelope, Crypto, Codec, verify}
use mspsql.Plan.Signing.{verify-IsAccepted}
use mspsql.Agent.Cache.{
  CachedPlan, Cached, CacheCalls, CacheText, CacheError, call_failed, not_found, decode_cached,
  unverified, Cache, cached, refused, cache_name, load_entry, load, minimum_revision, write_entry,
  accept_plan, store, entry_of, marshal_plan, changed_contents,
}
use mspsql.Agent.Cache.History.{
  Result-cases, IsCompact, IsHeld, load_entry_lem, held_entry, store_step,
}

module _ (crypto : Crypto) (codec : Codec SitePlan) (text : CacheText) (public_key : Bytes)
    (site_uid : String) where
  abbrev Effect : Cached → String → Cached → Type 0
  Effect state instance_uid t =
      (t ≡ state)
      ⊎ ((new : CachedPlan) × (t ≡ insert (cache_name crypto codec text instance_uid) new state))

  write_entry-Effect :
      (calls : CacheCalls) (state : Cached) (instance_uid : String) (new : CachedPlan)
      (q : SitePlan)
      → ((write_entry crypto codec text calls state instance_uid new q).0 ≡ state)
        ⊎ ((write_entry crypto codec text calls state instance_uid new q).0
            ≡ insert (cache_name crypto codec text instance_uid) new state)
  unfolding write_entry
  write_entry-Effect calls state instance_uid new q = ground arith

  accept_plan-Effect :
      (calls : CacheCalls) (state : Cached) (e : Envelope) (instance_uid : String) (now minimum : ℕ)
      → Effect state instance_uid
          (accept_plan crypto codec text calls public_key site_uid state e instance_uid now
            minimum).0
  unfolding accept_plan
  accept_plan-Effect calls state e instance_uid now minimum =
      elim (Result-cases (verify crypto codec public_key e site_uid instance_uid minimum)) [
        | inr (bad, v) ↦ inl (rw (v, accept_plan) refl)
        | inl (q, v) ↦ elim (Option-cases (text.marshal_raw e.plan)) [
          | inl unwritten ↦ inl (rw (v, accept_plan, unwritten) refl)
          | inr (j, written) ↦
              elim (write_entry-Effect calls state instance_uid (entry_of e q j now) q) [
                | inl same ↦ inl (rw (v, accept_plan, written) same)
                | inr stored ↦ inr (entry_of e q j now, rw (v, accept_plan, written) stored)
              ]
        ]
      ]

  store-Effect :
      (calls : CacheCalls) (state : Cached) (e : Envelope) (instance_uid : String) (now : ℕ)
      → Effect state instance_uid
          (store crypto codec text calls public_key site_uid state e instance_uid now).0
  unfolding store
  store-Effect calls state e instance_uid now =
      by_minimum
        (minimum_revision crypto codec text
          (load crypto codec text calls.load_fails public_key site_uid state instance_uid))
        refl
    where
      by_minimum :
          (m : Cache ℕ)
          → minimum_revision crypto codec text
              (load crypto codec text calls.load_fails public_key site_uid state instance_uid)
            ≡ m
          → Effect state instance_uid
              (store crypto codec text calls public_key site_uid state e instance_uid now).0
      by_minimum (refused bad) h = inl (rw (h, store) refl)
      by_minimum (cached minimum) h =
          rw (h, store) (accept_plan-Effect calls state e instance_uid now minimum)

  -- A plan that is held can be read for no other instance, even one whose ConfigMap has the same name.
  held_for_one :
      (state : Cached) (one other : String) (p : SitePlan)
      (h : IsHeld crypto codec text public_key site_uid state one p)
      → other ≢ one
      → (e : CacheError) × (load_entry crypto codec text public_key site_uid h.entry other
          ≡ refused e)
        × (e ≢ not_found)
  unfolding load_entry
  held_for_one state one other p h d =
      let (raw, read, v) =
        load_entry_lem crypto codec text public_key site_uid h.entry one p
          (held_entry crypto codec text public_key site_uid state one p h) in
      let a = verify-IsAccepted crypto codec public_key _ site_uid one 1 p v in
      elim (Result-cases (
        verify crypto codec public_key (record { plan = raw; signature = h.entry.signature })
          site_uid other 1)) [
            | inl (r, w) ↦
                let b = verify-IsAccepted crypto codec public_key _ site_uid other 1 r w in
                let same : p ≡ r = ground (arith, a.decoded, b.decoded) in
                absurd (
                  d (
                    sym b.instance_of
                    ∙ ap (λ (x : SitePlan). x.instance_uid) (sym same)
                    ∙ a.instance_of))
            | inr (bad, w) ↦ (unverified bad, rw (read, load_entry, w) refl, λ z. ground arith)
          ]

  refused_minimum :
      (r : Cache SitePlan) (e : CacheError)
      → r ≡ refused e
      → e ≢ not_found
      → minimum_revision crypto codec text r ≡ refused e
  refused_minimum r e h d = rw h (by_error e d)
    where
      by_error :
          (e : CacheError)
          → e ≢ not_found
          → minimum_revision crypto codec text (refused e) ≡ refused e
      by_error not_found d = absurd (d refl)
      by_error call_failed d = refl
      by_error decode_cached d = refl
      by_error marshal_plan d = refl
      by_error changed_contents d = refl
      by_error (unverified bad) d = refl

  -- The plan of one instance outlasts the stores for another.
  store_other :
      (calls : CacheCalls) (state : Cached) (e : Envelope) (one other : String) (now : ℕ)
      (p : SitePlan)
      → IsHeld crypto codec text public_key site_uid state one p
      → other ≢ one
      → IsHeld crypto codec text public_key site_uid
          (store crypto codec text calls public_key site_uid state e other now).0
          one
          p
  unfolding load store
  store_other calls state e one other now p h d =
      elim (Bool-cases (cache_name crypto codec text other == cache_name crypto codec text one)) [
        | inl same ↦
            let (bad, unread, known) = held_for_one state one other p h d in
            let found : lookup (cache_name crypto codec text other) state ≡ some h.entry =
              ap (λ n. lookup n state) ((eq_iff _ _).0 same) ∙ h.found in
            rw (unchanged found bad unread known) h
        | inr differs ↦ elim (store-Effect calls state e other now) [
          | inl same ↦ rw same h
          | inr (new, written) ↦
              let found : lookup (cache_name crypto codec text one)
                    (insert (cache_name crypto codec text other) new state)
                  ≡ some h.entry =
                lookup-insert (cache_name crypto codec text other)
                  (cache_name crypto codec text one) new state
                ∙ rw differs h.found in
              rw written (record {
                entry = h.entry;
                found = found;
                labelled = h.labelled;
                loaded = rw found (held_entry crypto codec text public_key site_uid state one p h);
              })
        ]
      ]
    where
      unchanged :
          lookup (cache_name crypto codec text other) state ≡ some h.entry
          → (bad : CacheError)
          → load_entry crypto codec text public_key site_uid h.entry other ≡ refused bad
          → bad ≢ not_found
          → (store crypto codec text calls public_key site_uid state e other now).0 ≡ state
      unchanged found bad unread known = elim (Bool-cases calls.load_fails) [
        | inl failing ↦
            rw
              (
                refused_minimum
                    (load crypto codec text calls.load_fails public_key site_uid state other)
                    call_failed (rw failing refl) (λ z. ground arith),
                store,
              )
              refl
        | inr fine ↦
            rw
              (
                refused_minimum
                    (load crypto codec text calls.load_fails public_key site_uid state other) bad
                    (ap (λ b. load crypto codec text b public_key site_uid state other) fine
                      ∙ rw (found, load) unread)
                    known,
                store,
              )
              refl
      ]

  -- What stores make of the cache, for any instances, in any order and with any calls failing.
  pub data History (s : Cached) : Cached → Type 0 where
    start : History s s
    stores :
        {t : Cached} (calls : CacheCalls) (e : Envelope) (instance_uid : String) (now : ℕ)
        → History s t
        → IsCompact crypto codec text e
        → History s (store crypto codec text calls public_key site_uid t e instance_uid now).0

  -- From a cache that holds a plan for an instance, any stores, for any instances and with any failing
  -- calls, of envelopes whose plan is read back as it was written, lead to one that holds for the
  -- instance a plan of a higher revision, or the very same plan.
  pub revision_never_goes_back :
      (s t : Cached) (instance_uid : String) (p : SitePlan)
      → IsHeld crypto codec text public_key site_uid s instance_uid p
      → History s t
      → (q : SitePlan) × IsHeld crypto codec text public_key site_uid t instance_uid q
        × ((p.revision < q.revision) ⊎ (q ≡ p))
  revision_never_goes_back s _ instance_uid p h start = (p, h, inr refl)
  revision_never_goes_back s _ one p h (stores {t} calls e other now r compact) =
      let (q, held, above) = revision_never_goes_back s t one p h r in
      elim (Bool-cases (other == one)) [
        | inr differs ↦ (
          q,
          store_other calls t e one other now q held (λ z. ground (arith, eq_iff other one)),
          above,
        )
        | inl same ↦ rw ((eq_iff other one).0 same) (again t calls e now q held above compact)
      ]
    where
      again :
          (t : Cached) (calls : CacheCalls) (e : Envelope) (now : ℕ) (q : SitePlan)
          → IsHeld crypto codec text public_key site_uid t one q
          → (p.revision < q.revision) ⊎ (q ≡ p)
          → IsCompact crypto codec text e
          → (r : SitePlan) × IsHeld crypto codec text public_key site_uid
              (store crypto codec text calls public_key site_uid t e one now).0
              one
              r
            × ((p.revision < r.revision) ⊎ (r ≡ p))
      again t calls e now q held above compact =
          elim (store_step crypto codec text public_key site_uid calls t e one now q compact held) [
            | inl same ↦ (q, rw same held, above)
            | inr (r, held', _, lt) ↦ (r, held', inl (higher q r above lt))
          ]
        where
          higher :
              (q r : SitePlan)
              → (p.revision < q.revision) ⊎ (q ≡ p)
              → q.revision < r.revision
              → p.revision < r.revision
          higher q r (inl le) lt = omega arith
          higher q r (inr e) lt = subst (λ (x : SitePlan). x.revision < r.revision) e lt
