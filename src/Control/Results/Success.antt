-- ===== src/Control/Results/Success.antt =====
-- When a directive counts as done, and what that leaves on its owner.
use mspsql.Base.{Bool, true, false, ◌≡◌, ◌&&◌, ◌||◌, not, List, [], ◌∷◌, all, any, arith}
use mspsql.Control.{Report}
use mspsql.Control.Results.{is_success, says_true, succeeded_from, directive_succeeded}

abbrev pub is_no_failure : Report → Bool
is_no_failure r = not (is_success r) || says_true r

succeeded_from_lem :
    (found : Bool) (reports : List Report)
    → succeeded_from found reports
      ≡ ((found || any is_success reports) && all is_no_failure reports)
unfolding succeeded_from
succeeded_from_lem found [] = ground arith
succeeded_from_lem found (r ∷ reports) =
    let passed = succeeded_from_lem true reports in
    let other = succeeded_from_lem found reports in ground (arith, passed, other)

-- A directive has succeeded exactly when it reports a condition Succeeded, and each such condition is
-- True.
pub directive_succeeded_lem :
    (reports : List Report)
    → directive_succeeded reports ≡ (any is_success reports && all is_no_failure reports)
unfolding directive_succeeded
directive_succeeded_lem reports = succeeded_from_lem false reports
