-- ===== src/Directive/Signing.antt =====
-- Signatures on directives (`Sign` and `Verify` of internal/directive/directive.go).
use mspsql.Base.{
  String, true, ◌≡◌, refl, Option-cases, inl, inr, length, eq_iff, eq_refl, arith, some,
}
use mspsql.Plan.{
  Bytes, Envelope, Crypto, Codec, IsSound, ReadsAs, public_key_size, protocol_version,
}
use mspsql.Directive.{Payload, signed, sign_directive, check_payload, verify_directive}

module _ (crypto : Crypto) (codec : Codec Payload) where
  -- What is known of a payload that is accepted for a site, an instance and an operation.
  pub record IsGenuine (public_key : Bytes) (e : Envelope)
      (site_uid instance_uid operation_uid : String) (p : Payload) : Type 0 where
    pub key_size : length public_key ≡ public_key_size
    pub signed_by :
        (s : Bytes) × (crypto.decode e.signature ≡ some s)
        × (crypto.verify public_key e.plan s ≡ true)
    pub decoded : codec.unmarshal e.plan ≡ some p
    pub protocol : p.protocol_version ≡ protocol_version
    pub site : p.site_uid ≡ site_uid
    pub instance_of : p.instance_uid ≡ instance_uid
    pub operation : p.operation_uid ≡ operation_uid

  -- A directive that a site accepts is signed under the hub's key, of this protocol version, and
  -- meant for this site, this instance and this operation.
  pub verify_directive-IsGenuine :
      (public_key : Bytes) (e : Envelope) (site_uid instance_uid operation_uid : String)
      (p : Payload)
      → verify_directive crypto codec public_key e site_uid instance_uid operation_uid ≡ signed p
      → IsGenuine public_key e site_uid instance_uid operation_uid p
  unfolding verify_directive check_payload
  verify_directive-IsGenuine public_key e site_uid instance_uid operation_uid p h =
      elim (Option-cases (crypto.decode e.signature)) [
        | inl missing ↦ absurd (ground arith)
        | inr (s, found) ↦ elim (Option-cases (codec.unmarshal e.plan)) [
          | inl unread ↦ absurd (ground arith)
          | inr (q, read) ↦ record {
            key_size = ground arith;
            signed_by = (s, found, ground arith);
            decoded = ground arith;
            protocol = ground (arith, eq_iff p.protocol_version protocol_version);
            site = ground (arith, eq_iff p.site_uid site_uid);
            instance_of = ground (arith, eq_iff p.instance_uid instance_uid);
            operation = ground (arith, eq_iff p.operation_uid operation_uid);
          }
        ]
      ]

  -- The payload as it is sent, with the bytes that JSON leaves of its spec.
  abbrev pub delivered : Payload → Bytes → Payload
  delivered p spec = record p { protocol_version = protocol_version; spec = spec }

  check_payload-delivered :
      (p : Payload) (spec : Bytes)
      → check_payload crypto codec (delivered p spec) p.site_uid p.instance_uid p.operation_uid
        ≡ signed (delivered p spec)
  unfolding check_payload
  check_payload-delivered p spec =
      rw (eq_refl p.site_uid, eq_refl p.instance_uid, eq_refl p.operation_uid) refl

  -- Where a signature under the key verifies and the payload's bytes are read as the payload, with some
  -- spec: what the hub signs, the site accepts for the payload's site, instance and operation.
  pub verify_directive-sign_directive :
      (key : Bytes) (p : Payload) (spec : Bytes) (e : Envelope)
      → IsSound crypto key
      → ReadsAs codec (record p { protocol_version = protocol_version }) (delivered p spec)
      → length (crypto.public_key_of key) ≡ public_key_size
      → sign_directive crypto codec key p ≡ signed e
      → verify_directive crypto codec
          (crypto.public_key_of key)
          e
          p.site_uid
          p.instance_uid
          p.operation_uid
        ≡ signed (delivered p spec)
  unfolding sign_directive verify_directive
  verify_directive-sign_directive key p spec e sound reads size h =
      elim (Option-cases (codec.canonical (record p { protocol_version = protocol_version }))) [
        | inl missing ↦ absurd (ground arith)
        | inr (payload, written) ↦ ground (
          arith,
          reads payload written,
          sound.verify-sign payload,
          sound.decode-encode payload,
          check_payload-delivered p spec,
        )
      ]
