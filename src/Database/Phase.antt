-- ===== src/Database/Phase.antt =====
-- The text of `DeploymentPhase` in the database (src/deploy/ledger.rs).
use solodock.Base.{String, ◌≡◌, refl, text_eq, if◌then◌else◌, Result, ok, err}
use solodock.Database.Deployments.{DeploymentPhase, LedgerError}

unfoldable pub as_str : DeploymentPhase → String
as_str DeploymentPhase.queued = "queued"
as_str DeploymentPhase.resolving = "resolving"
as_str DeploymentPhase.preparing = "preparing"
as_str DeploymentPhase.pulling = "pulling"
as_str DeploymentPhase.applying = "applying"
as_str DeploymentPhase.verifying = "verifying"
as_str DeploymentPhase.committing = "committing"
as_str DeploymentPhase.rolling_back = "rolling_back"
as_str DeploymentPhase.verifying_rollback = "verifying_rollback"
as_str DeploymentPhase.terminal = "terminal"

unfoldable pub parse : String → Result LedgerError DeploymentPhase
parse value =
    if text_eq value "queued"
    then ok DeploymentPhase.queued
    else if text_eq value "resolving"
    then ok DeploymentPhase.resolving
    else if text_eq value "preparing"
    then ok DeploymentPhase.preparing
    else if text_eq value "pulling"
    then ok DeploymentPhase.pulling
    else if text_eq value "applying"
    then ok DeploymentPhase.applying
    else if text_eq value "verifying"
    then ok DeploymentPhase.verifying
    else if text_eq value "committing"
    then ok DeploymentPhase.committing
    else if text_eq value "rolling_back"
    then ok DeploymentPhase.rolling_back
    else if text_eq value "verifying_rollback"
    then ok DeploymentPhase.verifying_rollback
    else if text_eq value "terminal"
    then ok DeploymentPhase.terminal
    else err LedgerError.corrupt

-- What is written is read back.
pub parse-as_str : (v : DeploymentPhase) → parse (as_str v) ≡ ok v
unfolding parse as_str
parse-as_str DeploymentPhase.queued = refl
parse-as_str DeploymentPhase.resolving = refl
parse-as_str DeploymentPhase.preparing = refl
parse-as_str DeploymentPhase.pulling = refl
parse-as_str DeploymentPhase.applying = refl
parse-as_str DeploymentPhase.verifying = refl
parse-as_str DeploymentPhase.committing = refl
parse-as_str DeploymentPhase.rolling_back = refl
parse-as_str DeploymentPhase.verifying_rollback = refl
parse-as_str DeploymentPhase.terminal = refl
