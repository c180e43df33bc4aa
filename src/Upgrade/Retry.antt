-- ===== src/Upgrade/Retry.antt =====
-- The delay before the next post-upgrade backup (`postUpgradeBackupRetryDelay`).
use mspsql.Base.{
  ℕ, zero, suc, ◌+◌, ◌-◌, ◌*◌, ◌%◌, ◌≤◌, String, true, false, ltb, leb, if◌then◌else◌, arith,
}

-- In nanoseconds.
abbrev pub second : ℕ
second = 1_000_000_000

abbrev pub post_upgrade_backup_retry_base : ℕ
post_upgrade_backup_retry_base = 60 * second

abbrev pub post_upgrade_backup_retry_max : ℕ
post_upgrade_backup_retry_max = 1800 * second

-- The loop, by the rounds left; it breaks at the maximum.
double_until_max : ℕ → ℕ → ℕ
double_until_max zero delay = delay
double_until_max (suc rounds) delay = elim (leb post_upgrade_backup_retry_max (delay * 2)) [
  | true ↦ post_upgrade_backup_retry_max
  | false ↦ double_until_max rounds (delay * 2)
]

-- `hash` is `fnv.New32a` over the operation's UID and the attempt's low byte.
unfoldable pub post_upgrade_backup_retry_delay : (String → ℕ → ℕ) → String → ℕ → ℕ
unfolding double_until_max
post_upgrade_backup_retry_delay hash operation attempt =
    let attempt' = if ltb attempt 1 then 1 else attempt in
    let delay = double_until_max (attempt' - 1) post_upgrade_backup_retry_base in
    let jitter = (hash operation (attempt' % 256) % 60) * second in
    if ltb post_upgrade_backup_retry_max (delay + jitter)
    then post_upgrade_backup_retry_max
    else delay + jitter

double_until_max_bounds :
    (rounds delay : ℕ)
    → post_upgrade_backup_retry_base ≤ delay
    → delay ≤ post_upgrade_backup_retry_max
    → (delay ≤ double_until_max rounds delay)
      × (double_until_max rounds delay ≤ post_upgrade_backup_retry_max)
unfolding double_until_max
double_until_max_bounds zero delay low high = omega arith
double_until_max_bounds (suc rounds) delay low high =
    ground (arith, double_until_max_bounds rounds (delay * 2))

-- Whatever the hash, a retry waits at least the base delay of one minute and at most thirty minutes.
pub post_upgrade_backup_retry_delay_bounds :
    (hash : String → ℕ → ℕ) (operation : String) (attempt : ℕ)
    → (post_upgrade_backup_retry_base ≤ post_upgrade_backup_retry_delay hash operation attempt)
      × (post_upgrade_backup_retry_delay hash operation attempt ≤ post_upgrade_backup_retry_max)
unfolding post_upgrade_backup_retry_delay
post_upgrade_backup_retry_delay_bounds hash operation attempt =
    ground (arith, double_until_max_bounds (attempt - 1) post_upgrade_backup_retry_base)
