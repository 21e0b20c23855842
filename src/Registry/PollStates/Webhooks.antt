-- ===== src/Registry/PollStates/Webhooks.antt =====
-- `accept_webhook` (src/registry/poll_state.rs): the transaction that remembers the nonce of a delivery
-- and wakes the poller. `format_time` of src/db/mod.rs stands on the time crate: it is a parameter, the
-- stored text of an instant in nanoseconds.
use solodock.Base.{
  ℕ, zero, suc, ◌+◌, String, Bool, true, false, ◌&&◌, none, some, List, [], ◌∷◌, ◌++◌, ◌==◌, ltb,
  leb, if◌then◌else◌, all,
}
use solodock.Base.Text.{same}
use solodock.Base.Table.{count_where}
use solodock.Database.{Uuid, Time, Database, PollState, WebhookReplay, AuditEvent, AuditMetadata}
use solodock.Registry.PollStates.Rows.{upsert, woken, rewoken}
use solodock.Registry.PollStates.Store.{get}

pub data WebhookAccept : Type 0 where
  accepted coalesced ignored_disabled replay : WebhookAccept

-- `time::Duration::minutes(10)`, in nanoseconds.
abbrev pub ten_minutes : ℕ
ten_minutes = 600000000000

-- The primary key of `webhook_replays`.
unfoldable pub has_nonce : Uuid → Uuid → List ℕ → WebhookReplay → Bool
has_nonce app revision nonce row =
    row.app_id == app && row.secret_revision == revision && same row.nonce_sha256 nonce

abbrev pub is_expired : Time → WebhookReplay → Bool
is_expired now row = ltb row.expires_at now

-- The row that expires first.
abbrev pub is_earliest : List WebhookReplay → WebhookReplay → Bool
is_earliest rows row = all (λ other. leb row.expires_at other.expires_at) rows

abbrev pub remove_first : (WebhookReplay → Bool) → List WebhookReplay → List WebhookReplay
remove_first p [] = []
remove_first p (row ∷ rows) = if p row then rows else row ∷ remove_first p rows

-- `DELETE … WHERE rowid IN (SELECT … WHERE expires_at < ? ORDER BY expires_at LIMIT n)`.
unfoldable pub purge : ℕ → Time → List WebhookReplay → List WebhookReplay
purge zero now rows = rows
purge (suc n) now rows =
    purge n now (remove_first (λ row. is_expired now row && is_earliest rows row) rows)

-- `sequence > processed`.
abbrev pub is_pending : PollState → Bool
is_pending state = ltb state.webhook_processed_sequence state.webhook_sequence

unfoldable pub pending : Uuid → Database → Bool
unfolding get
pending app db = elim (get app db) [ none ↦ false | some state ↦ is_pending state ]

unfoldable pub audit_action : WebhookAccept → String
audit_action WebhookAccept.accepted = "registry_recheck_requested"
audit_action WebhookAccept.coalesced = "registry_recheck_coalesced"
audit_action WebhookAccept.ignored_disabled = "registry_recheck_ignored_disabled"
audit_action WebhookAccept.replay = ""

-- The statements after the insert of the nonce: the wake, and the action that is audited.
unfoldable pub wake : Uuid → String → Bool → Time → Database → Database × WebhookAccept
unfolding upsert woken rewoken pending
wake app generation false now db = (db, WebhookAccept.ignored_disabled)
wake app generation true now db = (
  record db {
    poll_states = upsert app (woken app generation now) (rewoken generation now) db.poll_states;
  },
  if pending app db then WebhookAccept.coalesced else WebhookAccept.accepted,
)

unfoldable pub webhook_audit : Uuid → Uuid → WebhookAccept → Time → AuditEvent
unfolding audit_action
webhook_audit app request_id action now = record {
  actor = "webhook";
  request_id = request_id;
  action = audit_action action;
  target_id = app;
  outcome = "accepted";
  metadata = AuditMetadata.empty;
  created_at = now;
}

module _ (format_time : ℕ → Time) where
  unfoldable pub replay_row : Uuid → Uuid → List ℕ → Uuid → ℕ → WebhookReplay
  replay_row app revision nonce request_id now = record {
    app_id = app;
    secret_revision = revision;
    nonce_sha256 = nonce;
    received_at = format_time now;
    expires_at = format_time (now + ten_minutes);
    request_id = request_id;
  }

  -- A duplicate rolls the transaction back, the purge included.
  unfoldable pub accept_webhook :
      Uuid → Uuid → List ℕ → Uuid → String → Bool → ℕ → Database → Database × WebhookAccept
  accept_webhook app revision nonce request_id generation enabled now db =
      let now_text = format_time now in
      let kept = purge 100 now_text db.replays in
      if count_where (has_nonce app revision nonce) kept == 0
      then (let row = replay_row app revision nonce request_id now in
          let (woken_db, action) =
            wake app generation enabled now_text (record db { replays = kept ++ row ∷ [] }) in
          (
            record woken_db {
              audit_events =
                  woken_db.audit_events ++ webhook_audit app request_id action now_text ∷ [];
            },
            action,
          ))
      else (db, WebhookAccept.replay)
