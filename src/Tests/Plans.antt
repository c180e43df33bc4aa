-- ===== src/Tests/Plans.antt =====
-- Signed plans and directives at concrete inputs.
use mspsql.Base.{ℕ, zero, suc, Bool, false, ◌≡◌, refl, some, none, arith, [], ◌∷◌, nat_eq}
use mspsql.Plan.{
  SitePlan, Bytes, Envelope, Crypto, Codec, IsSound, ok, sign, verify, check_plan, protocol_version,
}
use mspsql.Plan.Signing.{IsAccepted, sent, verify-IsAccepted, verify-sign}
use mspsql.Directive.{Payload, signed, sign_directive, verify_directive, check_payload}
use mspsql.Directive.Signing.{
  IsGenuine, delivered, verify_directive-IsGenuine, verify_directive-sign_directive,
}
use mspsql.Tests.Samples.{site_spec, postgres_spec, credentials}

abbrev pub repeat : ℕ → Bytes
repeat zero = []
repeat (suc n) = 0 ∷ repeat n

abbrev pub is_mark : Bytes → Bool
is_mark [] = false
is_mark (x ∷ s) = nat_eq x 5

-- A toy scheme: the signature of any message is a mark that verifies under any key.
abbrev pub crypto : Crypto
crypto = record {
  public_key_of = λ key. repeat 32;
  sign = λ key m. 5 ∷ [];
  verify = λ key m s. is_mark s;
  encode = λ s. "signature";
  decode = λ text. some (5 ∷ []);
}

abbrev pub site_plan : SitePlan
site_plan = record {
  protocol_version = protocol_version;
  site_uid = "site";
  instance_uid = "instance";
  hub_namespace = "db";
  hub_name = "db";
  revision = 7;
  generated_at = 3;
  site = site_spec "a";
  postgres = postgres_spec;
  tde = record { enabled = false; vault = none };
  tde_key_creator = false;
  backup = none;
  credentials = credentials;
  member_addresses =
      ("etcd-a-0", "10.0.0.1")
      ∷ ("etcd-b-0", "10.0.0.2")
      ∷ ("postgres-a-0", "10.0.0.3")
      ∷ ("postgres-b-0", "10.0.0.4")
      ∷ [];
  address_candidates = [];
  address_migration = none;
  credential_rotation = none;
  required_capabilities = [];
  runtime_credential_version = 0;
  runtime_certificate_hashes = [];
  restore = none;
  upgrade = none;
  major_upgrade = none;
  deletion = none;
}

-- A plan is its revision, and the rest is always the same.
abbrev pub plan_codec : Codec SitePlan
plan_codec = record {
  canonical = λ p. some (p.revision ∷ []);
  unmarshal = λ b. elim b [ [] ↦ none | r ∷ _ ↦ some (record site_plan { revision = r }) ];
}

abbrev pub envelope : ℕ → Envelope
envelope revision = record { plan = revision ∷ []; signature = "signature" }

signed_plan : sign crypto plan_codec (repeat 64) site_plan ≡ ok (envelope 7)
unfolding sign
signed_plan = refl

sound : IsSound crypto (repeat 64)
sound = record { verify-sign = λ m. refl; decode-encode = λ m. refl }

accepted : verify crypto plan_codec (repeat 32) (envelope 7) "site" "instance" 7 ≡ ok site_plan
unfolding verify check_plan
accepted = refl

verify-sign_example :
    verify crypto plan_codec (crypto.public_key_of (repeat 64)) (envelope 7) "site" "instance" 7
    ≡ ok (sent crypto plan_codec site_plan)
verify-sign_example =
    verify-sign crypto plan_codec (repeat 64) site_plan (envelope 7) 7 sound (λ w e. ground arith)
      refl signed_plan (omega arith)

verify-IsAccepted_example :
    IsAccepted crypto plan_codec (repeat 32) (envelope 7) "site" "instance" 7 site_plan
verify-IsAccepted_example =
    verify-IsAccepted crypto plan_codec (repeat 32) (envelope 7) "site" "instance" 7 site_plan
      accepted

abbrev pub payload : Payload
payload = record {
  protocol_version = protocol_version;
  site_uid = "site";
  instance_uid = "instance";
  object_uid = "object";
  operation_uid = "operation";
  type = "Backup";
  primary = "";
  backup_source = "";
  backup_type = "full";
  deleting = false;
  generated_at = 3;
  spec = [];
}

abbrev pub payload_codec : Codec Payload
payload_codec = record { canonical = λ p. some (1 ∷ []); unmarshal = λ b. some payload }

signed_directive : sign_directive crypto payload_codec (repeat 64) payload ≡ signed (envelope 1)
unfolding sign_directive
signed_directive = refl

genuine :
    verify_directive crypto payload_codec (repeat 32) (envelope 1) "site" "instance" "operation"
    ≡ signed payload
unfolding verify_directive check_payload
genuine = refl

verify_directive-IsGenuine_example :
    IsGenuine crypto payload_codec (repeat 32) (envelope 1) "site" "instance" "operation" payload
verify_directive-IsGenuine_example =
    verify_directive-IsGenuine crypto payload_codec (repeat 32) (envelope 1) "site" "instance"
      "operation" payload genuine

verify_directive-sign_directive_example :
    verify_directive crypto payload_codec
      (crypto.public_key_of (repeat 64))
      (envelope 1)
      "site"
      "instance"
      "operation"
    ≡ signed (delivered crypto payload_codec payload [])
verify_directive-sign_directive_example =
    verify_directive-sign_directive crypto payload_codec (repeat 64) payload [] (envelope 1) sound
      (λ w e. refl) refl signed_directive
