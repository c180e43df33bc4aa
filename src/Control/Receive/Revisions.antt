-- ===== src/Control/Receive/Revisions.antt =====
-- The revisions that the server records for a site, against the one that it wants.
use mspsql.Base.{
  ℕ, String, Bool, false, ◌≡◌, refl, ◌∙◌, ◌≤◌, inl, inr, List, [], ◌∷◌, Bool-cases, nat_eq,
  nat_eq_iff, arith,
}
use mspsql.Api.Meta.{ConditionApi}
use mspsql.Api.Common.{SiteRevisionStatus}
use mspsql.Control.{HubText, Report}
use mspsql.Control.Record.{
  PlanAcknowledgement, PlanProgress, PlanResult, stamped, acknowledge, take_summary, take_summaries,
  observe_topology, take_progress, take_reports, take_result,
}

-- A site has acknowledged and applied no revision beyond the desired one.
pub record IsWithin (s : SiteRevisionStatus) : Type 0 where
  pub acknowledged : s.acknowledged_revision ≤ s.desired_revision
  pub applied : s.applied_revision ≤ s.desired_revision

-- Two statuses with the same revisions.
pub record SameRevisions (s t : SiteRevisionStatus) : Type 0 where
  pub desired : s.desired_revision ≡ t.desired_revision
  pub acknowledged : s.acknowledged_revision ≡ t.acknowledged_revision
  pub applied : s.applied_revision ≡ t.applied_revision

SameRevisions-refl : (s : SiteRevisionStatus) → SameRevisions s s
SameRevisions-refl s = record { desired = refl; acknowledged = refl; applied = refl }

SameRevisions-trans :
    (s t u : SiteRevisionStatus) → SameRevisions s t → SameRevisions t u → SameRevisions s u
SameRevisions-trans s t u h k = record {
  desired = h.desired ∙ k.desired;
  acknowledged = h.acknowledged ∙ k.acknowledged;
  applied = h.applied ∙ k.applied;
}

IsWithin-SameRevisions : (s t : SiteRevisionStatus) → SameRevisions s t → IsWithin t → IsWithin s
IsWithin-SameRevisions s t same h = record {
  acknowledged = omega (arith, same.desired, same.acknowledged, h.acknowledged);
  applied = omega (arith, same.desired, same.applied, h.applied);
}

pub stamped-IsWithin :
    (generation : ℕ) (s : SiteRevisionStatus) → IsWithin s → IsWithin (stamped generation s)
stamped-IsWithin generation s h = record { acknowledged = h.acknowledged; applied = h.applied }

module _ (api : ConditionApi) (text : HubText) where
  pub acknowledge-IsWithin :
      (ack : PlanAcknowledgement) (s : SiteRevisionStatus)
      → IsWithin s
      → IsWithin (acknowledge api text ack s).0
  unfolding acknowledge
  acknowledge-IsWithin ack s h = record {
    acknowledged = ground (arith, h.acknowledged, nat_eq_iff ack.revision s.desired_revision);
    applied = ground (arith, h.applied);
  }

  take_summary-SameRevisions :
      (entry : String × String) (s : SiteRevisionStatus) (seen : Bool)
      → SameRevisions (take_summary api text entry (s, seen)).0 s
  unfolding take_summary
  take_summary-SameRevisions (key, value) s seen = record {
    desired = ground arith;
    acknowledged = ground arith;
    applied = ground arith;
  }

  take_summaries-SameRevisions :
      (entries : List (String × String)) (acc : SiteRevisionStatus × Bool)
      → SameRevisions (take_summaries api text entries acc).0 acc.0
  unfolding take_summaries
  take_summaries-SameRevisions [] acc = SameRevisions-refl acc.0
  take_summaries-SameRevisions (entry ∷ entries) acc =
      SameRevisions-trans _ (take_summary api text entry acc).0 acc.0
        (take_summaries-SameRevisions entries (take_summary api text entry acc))
        (take_summary-SameRevisions entry acc.0 acc.1)

  observe_topology-SameRevisions :
      (p : PlanProgress) (now : ℕ) (s : SiteRevisionStatus)
      → SameRevisions (observe_topology api text p now s) s
  observe_topology-SameRevisions p now s = record {
    desired = ground arith;
    acknowledged = ground arith;
    applied = ground arith;
  }

  take_progress-SameRevisions :
      (p : PlanProgress) (now : ℕ) (s : SiteRevisionStatus)
      → SameRevisions (take_progress api text p now s).0 s
  unfolding take_progress
  take_progress-SameRevisions p now s =
      let taken = take_summaries api text p.summaries (record s { phase = p.phase }, false) in
      let summed = take_summaries-SameRevisions p.summaries (record s { phase = p.phase }, false) in
      elim (Bool-cases (nat_eq p.revision s.desired_revision)) [
        | inr stale ↦ rw stale (SameRevisions-refl s)
        | inl current ↦ rw current (
            SameRevisions-trans _ taken.0 s (observe_topology-SameRevisions p now taken.0) (record {
              desired = summed.desired;
              acknowledged = summed.acknowledged;
              applied = summed.applied;
            }))
      ]

  pub take_progress-IsWithin :
      (p : PlanProgress) (now : ℕ) (s : SiteRevisionStatus)
      → IsWithin s
      → IsWithin (take_progress api text p now s).0
  take_progress-IsWithin p now s = IsWithin-SameRevisions _ s (take_progress-SameRevisions p now s)

  take_reports-SameRevisions :
      (reports : List Report) (s : SiteRevisionStatus)
      → SameRevisions (take_reports api text reports s) s
  unfolding take_reports
  take_reports-SameRevisions [] s = SameRevisions-refl s
  take_reports-SameRevisions (r ∷ reports) s = record {
    desired = (take_reports-SameRevisions reports _).desired;
    acknowledged = (take_reports-SameRevisions reports _).acknowledged;
    applied = (take_reports-SameRevisions reports _).applied;
  }

  abbrev with_result : PlanResult → SiteRevisionStatus → SiteRevisionStatus
  with_result result s = record s { applied_revision = result.applied_revision; phase = "Ready" }

  pub take_result-IsWithin :
      (result : PlanResult) (s : SiteRevisionStatus)
      → IsWithin s
      → IsWithin (take_result api text result s).0
  unfolding take_result
  take_result-IsWithin result s h =
      elim (Bool-cases (nat_eq result.applied_revision s.desired_revision)) [
        | inr stale ↦ rw stale h
        | inl current ↦ rw current (
            IsWithin-SameRevisions _ (with_result result s)
              (take_reports-SameRevisions result.conditions (with_result result s))
              (record {
                acknowledged = h.acknowledged;
                applied =
                    ground
                      (arith, (nat_eq_iff result.applied_revision s.desired_revision).0 current);
              }))
      ]
