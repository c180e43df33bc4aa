-- ===== src/Api/Meta.antt =====
-- Object metadata and status conditions, as `k8s.io/apimachinery` declares them.
use mspsql.Base.{ℕ, String, Bool, true, false, Option, some, List, ◌≡◌, ◌==◌, if◌then◌else◌}

-- The fields of `metav1.Condition` that this code reads. Its time stamp is not modelled.
pub data ConditionStatus : Type 0 where
  condition_true condition_false condition_unknown : ConditionStatus

pub record Condition : Type 0 where
  pub type : String
  pub status : ConditionStatus
  pub observed_generation : ℕ
  pub reason : String
  pub message : String

abbrev pub is_true : ConditionStatus → Bool
is_true condition_true = true
is_true _ = false

abbrev pub is_false : ConditionStatus → Bool
is_false condition_false = true
is_false _ = false

pub record ObjectMeta : Type 0 where
  pub name : String
  pub namespace : String
  pub uid : String
  pub generation : ℕ
  pub deletion_timestamp : Option ℕ
  pub labels : List (String × String)

-- `meta.FindStatusCondition` and `meta.SetStatusCondition` of `k8s.io/apimachinery`, with what
-- they document: setting a condition replaces the one of its type and leaves the others.
pub record ConditionApi : Type 0 where
  pub find_status_condition : List Condition → String → Option Condition
  pub set_status_condition : List Condition → Condition → List Condition
  pub find-set :
      (cs : List Condition) (c : Condition) (t : String)
      → find_status_condition (set_status_condition cs c) t
        ≡ (if c.type == t then some c else find_status_condition cs t)
