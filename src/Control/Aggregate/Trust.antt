-- ===== src/Control/Aggregate/Trust.antt =====
-- When sites are taken to share a CA bundle.
use mspsql.Base.{
  String, false, ◌≡◌, ◌⊎◌, inl, inr, some, List, [], ◌∷◌, All, Bool-cases, Option-cases, eq_iff,
  arith, ◌==◌,
}
use mspsql.Api.Meta.{ConditionApi}
use mspsql.Api.Common.{SiteRevisionStatus}
use mspsql.Control.Aggregate.{common, common_trust, true_message_of}

module _ (api : ConditionApi) (type : String) where
  -- A site reports the condition as True, with the fingerprint or with no text.
  abbrev pub Shares : String → SiteRevisionStatus → Type 0
  Shares fingerprint s =
      (true_message_of api type s ≡ some fingerprint) ⊎ (true_message_of api type s ≡ some "")

  abbrev IsFrom : String → String → Type 0
  IsFrom start fingerprint = (start == "") ≡ false → start ≡ fingerprint

  common_trust-IsFrom :
      (start fingerprint : String) (sites : List SiteRevisionStatus)
      → common_trust api type start sites ≡ common fingerprint
      → IsFrom start fingerprint × All (Shares fingerprint) sites
  unfolding common_trust
  common_trust-IsFrom start fingerprint [] h = (λ named. ground (arith, h), tt)
  common_trust-IsFrom start fingerprint (s ∷ sites) h =
      elim (Option-cases (true_message_of api type s)) [
        | inl silent ↦ absurd (ground (arith, silent, h))
        | inr (message, told) ↦ elim (Bool-cases (start == "")) [
          | inl unset_so ↦
              let (from, rest) =
                common_trust-IsFrom message fingerprint sites
                  (rw (told, common_trust, unset_so) at h) in
              (
                λ named. absurd (ground (arith, unset_so, named)),
                (
                  elim (Bool-cases (message == "")) [
                    | inl empty ↦ inr (rw ((eq_iff message "").0 empty) at told)
                    | inr full ↦ inl (rw (from full) at told)
                  ],
                  rest,
                ),
              )
          | inr set ↦ elim (Bool-cases (message == start)) [
            | inl same ↦
                let (from, rest) =
                  common_trust-IsFrom start fingerprint sites
                    (rw (told, common_trust, set, same) at h) in
                (from, (inl (ground (arith, told, eq_iff message start, same, from set)), rest))
            | inr differs ↦ absurd (ground (arith, told, set, differs, h))
          ]
        ]
      ]

  -- Where the loop over the sites finds one CA bundle, every site reports the condition as True, with the
  -- bundle's fingerprint, or with no text at all.
  pub common_trust-Shares :
      (fingerprint : String) (sites : List SiteRevisionStatus)
      → common_trust api type "" sites ≡ common fingerprint
      → All (Shares fingerprint) sites
  common_trust-Shares fingerprint sites h = (common_trust-IsFrom "" fingerprint sites h).1
