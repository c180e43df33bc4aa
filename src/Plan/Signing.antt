-- ===== src/Plan/Signing.antt =====
-- Signatures on plans (`Sign` and `Verify` of internal/plan/plan.go).
use mspsql.Base.{
  le→not_ltb, Option-cases, inl, inr, ℕ, ◌≤◌, String, true, ◌≡◌, some, length, eq_iff, eq_refl,
  arith,
}
use mspsql.Plan.{
  SitePlan, on_the_wire, Bytes, Envelope, Crypto, Codec, IsSound, ReadsAs, public_key_size,
  protocol_version, ok, sign, verify, check_plan,
}

module _ (crypto : Crypto) (codec : Codec SitePlan) where
  -- What an accepted envelope is known to hold.
  pub record IsAccepted (public_key : Bytes) (e : Envelope) (site_uid instance_uid : String)
      (minimum : ℕ) (p : SitePlan) : Type 0 where
    pub key_size : length public_key ≡ public_key_size
    pub signed :
        (s : Bytes) × (crypto.decode e.signature ≡ some s)
        × (crypto.verify public_key e.plan s ≡ true)
    pub decoded : codec.unmarshal e.plan ≡ some p
    pub protocol : p.protocol_version ≡ protocol_version
    pub site : p.site_uid ≡ site_uid
    pub instance_of : p.instance_uid ≡ instance_uid
    pub fresh : minimum ≤ p.revision

  -- A plan that `Verify` accepts has a signature that verifies under the key over the envelope's bytes,
  -- is what those bytes say, is of this protocol version, is meant for the site and the instance
  -- expected, and is at the minimum revision or above it.
  pub verify-IsAccepted :
      (public_key : Bytes) (e : Envelope) (site_uid instance_uid : String) (minimum : ℕ)
      (p : SitePlan)
      → verify crypto codec public_key e site_uid instance_uid minimum ≡ ok p
      → IsAccepted public_key e site_uid instance_uid minimum p
  unfolding verify check_plan
  verify-IsAccepted public_key e site_uid instance_uid minimum p h =
      elim (Option-cases (crypto.decode e.signature)) [
        | inl missing ↦ absurd (ground arith)
        | inr (s, found) ↦ elim (Option-cases (codec.unmarshal e.plan)) [
          | inl unread ↦ absurd (ground arith)
          | inr (q, read) ↦ record {
            key_size = ground arith;
            signed = (s, found, ground arith);
            decoded = ground arith;
            protocol = ground (arith, eq_iff p.protocol_version protocol_version);
            site = ground (arith, eq_iff p.site_uid site_uid);
            instance_of = ground (arith, eq_iff p.instance_uid instance_uid);
            fresh = ground arith;
          }
        ]
      ]

  -- The plan as `Sign` sends it.
  abbrev pub sent : SitePlan → SitePlan
  sent p = on_the_wire (record p { protocol_version = protocol_version })

  check_plan-sent :
      (p : SitePlan) (minimum : ℕ)
      → minimum ≤ p.revision
      → check_plan crypto codec (sent p) p.site_uid p.instance_uid minimum ≡ ok (sent p)
  unfolding check_plan
  check_plan-sent p minimum fresh =
      rw (eq_refl p.site_uid, eq_refl p.instance_uid, le→not_ltb minimum p.revision fresh)

  -- Where a signature under the key verifies and the plan's bytes are read as the plan less its two
  -- runtime fields: what the hub signs, a site accepts, at any minimum up to the plan's revision.
  pub verify-sign :
      (key : Bytes) (p : SitePlan) (e : Envelope) (minimum : ℕ)
      → IsSound crypto key
      → ReadsAs codec (record p { protocol_version = protocol_version }) (sent p)
      → length (crypto.public_key_of key) ≡ public_key_size
      → sign crypto codec key p ≡ ok e
      → minimum ≤ p.revision
      → verify crypto codec (crypto.public_key_of key) e p.site_uid p.instance_uid minimum
        ≡ ok (sent p)
  unfolding sign verify
  verify-sign key p e minimum sound reads size h fresh =
      elim (Option-cases (codec.canonical (record p { protocol_version = protocol_version }))) [
        | inl missing ↦ absurd (ground arith)
        | inr (payload, written) ↦ ground (
          arith,
          reads payload written,
          sound.verify-sign payload,
          sound.decode-encode payload,
          check_plan-sent p minimum fresh,
        )
      ]
