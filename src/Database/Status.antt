-- ===== src/Database/Status.antt =====
-- The text of `DeploymentStatus` in the database (src/deploy/ledger.rs).
use solodock.Base.{String, ◌≡◌, refl, Bool, true, false, text_eq, if◌then◌else◌, Result, ok, err}
use solodock.Database.Deployments.{DeploymentStatus, LedgerError}

unfoldable pub as_str : DeploymentStatus → String
as_str DeploymentStatus.queued = "queued"
as_str DeploymentStatus.running = "running"
as_str DeploymentStatus.succeeded = "succeeded"
as_str DeploymentStatus.no_op = "no_op"
as_str DeploymentStatus.failed = "failed"
as_str DeploymentStatus.rolled_back = "rolled_back"
as_str DeploymentStatus.needs_attention = "needs_attention"
as_str DeploymentStatus.interrupted = "interrupted"

unfoldable pub parse : String → Result LedgerError DeploymentStatus
parse value =
    if text_eq value "queued"
    then ok DeploymentStatus.queued
    else if text_eq value "running"
    then ok DeploymentStatus.running
    else if text_eq value "succeeded"
    then ok DeploymentStatus.succeeded
    else if text_eq value "no_op"
    then ok DeploymentStatus.no_op
    else if text_eq value "failed"
    then ok DeploymentStatus.failed
    else if text_eq value "rolled_back"
    then ok DeploymentStatus.rolled_back
    else if text_eq value "needs_attention"
    then ok DeploymentStatus.needs_attention
    else if text_eq value "interrupted"
    then ok DeploymentStatus.interrupted
    else err LedgerError.corrupt

-- What is written is read back.
pub parse-as_str : (v : DeploymentStatus) → parse (as_str v) ≡ ok v
unfolding parse as_str
parse-as_str DeploymentStatus.queued = refl
parse-as_str DeploymentStatus.running = refl
parse-as_str DeploymentStatus.succeeded = refl
parse-as_str DeploymentStatus.no_op = refl
parse-as_str DeploymentStatus.failed = refl
parse-as_str DeploymentStatus.rolled_back = refl
parse-as_str DeploymentStatus.needs_attention = refl
parse-as_str DeploymentStatus.interrupted = refl

-- `is_terminal`.
unfoldable pub is_terminal : DeploymentStatus → Bool
is_terminal DeploymentStatus.queued = false
is_terminal DeploymentStatus.running = false
is_terminal _ = true

-- `status IN ('queued','running')`, in the SQL of the ledger and in its unique index.
unfoldable pub is_open : DeploymentStatus → Bool
is_open DeploymentStatus.queued = true
is_open DeploymentStatus.running = true
is_open _ = false
