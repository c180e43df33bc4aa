-- ===== src/Directive.antt =====
-- The signed directives (internal/directive/directive.go): `Payload`, `Sign`, `Verify`.
pub mod Signing
use mspsql.Base.{
  ℕ, String, Bool, ◌||◌, Option, none, some, length, nat_eq, not, ◌==◌, if◌then◌else◌,
}
use mspsql.Plan.{
  Bytes, Envelope, Crypto, Codec, private_key_size, public_key_size, protocol_version,
}

pub record Payload : Type 0 where
  pub protocol_version : String
  pub site_uid : String
  pub instance_uid : String
  pub object_uid : String
  pub operation_uid : String
  pub type : String
  pub primary : String
  pub backup_source : String
  pub backup_type : String
  pub deleting : Bool
  pub generated_at : ℕ
  pub spec : Bytes

pub data DirectiveError : Type 0 where
  invalid_private_key invalid_public_key incomplete_identity marshal_failed decode_signature
        invalid_signature decode_directive unsupported_protocol identity_mismatch :
      DirectiveError

pub data Signed (A : Type 0) : Type 0 where
  signed : A → Signed A
  refused : DirectiveError → Signed A

module _ (crypto : Crypto) (codec : Codec Payload) where
  unfoldable pub sign_directive : Bytes → Payload → Signed Envelope
  sign_directive private_key payload =
      if not (nat_eq (length private_key) private_key_size)
      then refused invalid_private_key
      else if payload.site_uid == ""
          || payload.instance_uid == ""
          || payload.object_uid == ""
          || payload.operation_uid == ""
          || payload.type == ""
      then refused incomplete_identity
      else elim (codec.canonical (record payload { protocol_version = protocol_version })) [
        | none ↦ refused marshal_failed
        | some encoded ↦
            signed (record {
              plan = encoded;
              signature = crypto.encode (crypto.sign private_key encoded);
            })
      ]

  -- The checks on the decoded payload.
  unfoldable pub check_payload : Payload → String → String → String → Signed Payload
  check_payload payload site_uid instance_uid operation_uid =
      if not (payload.protocol_version == protocol_version)
      then refused unsupported_protocol
      else if not (payload.site_uid == site_uid)
          || not (payload.instance_uid == instance_uid)
          || not (payload.operation_uid == operation_uid)
      then refused identity_mismatch
      else signed payload

  unfoldable pub verify_directive : Bytes → Envelope → String → String → String → Signed Payload
  verify_directive public_key envelope site_uid instance_uid operation_uid =
      if not (nat_eq (length public_key) public_key_size)
      then refused invalid_public_key
      else elim (crypto.decode envelope.signature) [
        | none ↦ refused decode_signature
        | some signature ↦
            if not (crypto.verify public_key envelope.plan signature)
            then refused invalid_signature
            else elim (codec.unmarshal envelope.plan) [
              | none ↦ refused decode_directive
              | some payload ↦ check_payload payload site_uid instance_uid operation_uid
            ]
      ]
