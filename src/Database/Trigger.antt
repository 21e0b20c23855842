-- ===== src/Database/Trigger.antt =====
-- The text of `DeploymentTrigger` in the database (src/deploy/ledger.rs).
use solodock.Base.{String, ◌≡◌, refl, text_eq, if◌then◌else◌, Result, ok, err}
use solodock.Database.Deployments.{DeploymentTrigger, LedgerError}

unfoldable pub as_str : DeploymentTrigger → String
as_str DeploymentTrigger.manual = "manual"
as_str DeploymentTrigger.rollback = "rollback"
as_str DeploymentTrigger.poll = "poll"

unfoldable pub parse : String → Result LedgerError DeploymentTrigger
parse value =
    if text_eq value "manual"
    then ok DeploymentTrigger.manual
    else if text_eq value "rollback"
    then ok DeploymentTrigger.rollback
    else if text_eq value "poll"
    then ok DeploymentTrigger.poll
    else err LedgerError.corrupt

-- What is written is read back.
pub parse-as_str : (v : DeploymentTrigger) → parse (as_str v) ≡ ok v
unfolding parse as_str
parse-as_str DeploymentTrigger.manual = refl
parse-as_str DeploymentTrigger.rollback = refl
parse-as_str DeploymentTrigger.poll = refl
