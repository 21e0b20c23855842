-- ===== src/Deploy/Ledger/Audit.antt =====
-- At most one `deployment_terminal` audit event for a deployment (src/deploy/ledger.rs).
use solodock.Deploy.Ledger.Branches.{create_outcome, is_open_row-has_id}
use solodock.Deploy.Ledger.Journal.{
  mark_rollback_observed, mark_rollback_started, mark_effect_observed, mark_effect_started,
}
use solodock.Deploy.Ledger.Numbering.{present-after}
use solodock.Database.Status.{is_open, is_terminal}
use solodock.Deploy.Ledger.Transactions.{
  terminal_audit, add_queued, interrupt_nonterminal, record_transition, update_one, set_health,
  transition, resolved, create, conclude,
}
use solodock.Deploy.Ledger.Effects.{free-absent}
use solodock.Deploy.Ledger.Change.{step-Change, IsSound, updated, inserted, kept, Change}
use solodock.Base.Table.{
  find_where_sound, find_where, count_where-update_none, count_where_mono, count_where-update_le,
  count_where-append, count_where,
}
use solodock.Base.{
  Option-cases, inr, String, Option, ==_iff, inl, ◌∙◌, true, false, after, Bool-cases, arith, [],
  ◌∷◌, ◌++◌, ◌==◌, List, Bool, ◌<◌, ℕ, ◌≡◌, refl,
}
use solodock.Database.{
  AuditMetadata, DeploymentTrigger, DeploymentStatus, DeploymentPhase, empty_database, AuditEvent,
  Uuid, Time, Database, Deployment,
}
use solodock.Deploy.Ledger.Rows.{advance, is_open_row, has_id}
use solodock.Deploy.Ledger.Calls.{
  observes_rollback, starts_rollback, observes_effect, starts_effect, sets_health, resolves,
  transitions_to, creates, Call, interrupts, step, run,
}

-- The event says that this deployment has ended.
abbrev pub is_about : Uuid → AuditEvent → Bool
is_about id event = elim event.metadata [
  | AuditMetadata.empty ↦ false
  | AuditMetadata.deployment other _ _ _ ↦ other == id
]

abbrev pub audits : Uuid → Database → ℕ
audits id db = count_where (is_about id) db.audit_events

-- No event yet, or one and the deployment is there and has ended.
pub data IsAudited (id : Uuid) (db : Database) : Type 0 where
  silent : audits id db ≡ 0 → IsAudited id db
  reported :
      audits id db ≡ 1
      → 0 < count_where (has_id id) db.deployments
      → count_where (is_open_row id) db.deployments ≡ 0
      → IsAudited id db

-- What a call does to the events: nothing, or one event for a deployment that was open and is not.
data Reports (db next : Database) : Type 0 where
  quiet : next.audit_events ≡ db.audit_events → Reports db next
  speaks :
      (id : Uuid) (event : AuditEvent)
      → ((other : Uuid) → is_about other event ≡ (id == other))
      → 0 < count_where (is_open_row id) db.deployments
      → count_where (is_open_row id) next.deployments ≡ 0
      → next.audit_events ≡ db.audit_events ++ event ∷ []
      → Reports db next

open_before :
    (p : Deployment → Bool) (f : Deployment → Deployment) (sound : IsSound p f) (id : Uuid)
    (r : Deployment)
    → p r ≡ true
    → is_open_row id (f r) ≡ true
    → is_open_row id r ≡ true
unfolding is_open_row
open_before p f sound id r k l = ground (arith, sound.keeps_id r, sound.opens_none r k)

closed_stays :
    (id : Uuid) (rows next : List Deployment)
    → Change rows next
    → 0 < count_where (has_id id) rows
    → count_where (is_open_row id) rows ≡ 0
    → count_where (is_open_row id) next ≡ 0
unfolding is_open_row
closed_stays id rows next (kept e) there h = rw e h
closed_stays id rows next (inserted row free q e) there h = rw e (
    ground (
      arith,
      free-absent id row rows free there,
      h,
      count_where-append (is_open_row id) rows (row ∷ []),
    ))
closed_stays id rows next (updated p f sound e) there h = rw e (
    omega (
      arith,
      h,
      count_where-update_le p (is_open_row id) f rows (λ r k l. open_before p f sound id r k l),
    ))

kept-IsAudited :
    (id : Uuid) (db next : Database)
    → Change db.deployments next.deployments
    → audits id next ≡ audits id db
    → IsAudited id db
    → IsAudited id next
kept-IsAudited id db next change e (silent a) = silent (e ∙ a)
kept-IsAudited id db next change e (reported a there closed) =
    reported (e ∙ a) (present-after id _ _ change there) (closed_stays id _ _ change there closed)

own-IsAudited :
    (id : Uuid) (db next : Database) (event : AuditEvent)
    → Change db.deployments next.deployments
    → is_about id event ≡ true
    → 0 < count_where (is_open_row id) db.deployments
    → count_where (is_open_row id) next.deployments ≡ 0
    → next.audit_events ≡ db.audit_events ++ event ∷ []
    → IsAudited id db
    → IsAudited id next
own-IsAudited id db next event change own was closed e (silent a) =
    reported
      (rw e (ground (arith, own, a, count_where-append (is_about id) db.audit_events (event ∷ []))))
      (present-after id _ _ change (
        omega (
          arith,
          was,
          count_where_mono (is_open_row id) (has_id id) db.deployments (is_open_row-has_id id),
        )))
      closed
own-IsAudited id db next event change own was closed e (reported a there gone) =
    absurd (omega arith)

foreign_count :
    (id : Uuid) (db next : Database) (event : AuditEvent)
    → is_about id event ≡ false
    → next.audit_events ≡ db.audit_events ++ event ∷ []
    → audits id next ≡ audits id db
foreign_count id db next event other e =
    rw e (ground (arith, other, count_where-append (is_about id) db.audit_events (event ∷ [])))

Reports-IsAudited :
    (id : Uuid) (db next : Database)
    → Change db.deployments next.deployments
    → Reports db next
    → IsAudited id db
    → IsAudited id next
Reports-IsAudited id db next change (quiet e) v = kept-IsAudited id db next change (rw e refl) v
Reports-IsAudited id db next change (speaks other event about was closed e) v =
    elim (Bool-cases (other == id)) [
      | inl own ↦
          let same = (==_iff other id).0 own in
          own-IsAudited id db next event change (about id ∙ own) (rw same at was)
            (rw same at closed) e v
      | inr foreign ↦
          kept-IsAudited id db next change (foreign_count id db next event (about id ∙ foreign) e) v
    ]

advance_closes :
    (id : Uuid) (phase : DeploymentPhase) (status : DeploymentStatus) (code : Option String)
    (now : Time) (r : Deployment)
    → is_terminal status ≡ true
    → is_open_row id (advance phase status code now r) ≡ false
unfolding is_open_row advance is_terminal is_open
advance_closes id phase status code now r t = ground arith

-- The event of `conclude` is about the deployment whose row it reads.
conclude-Reports :
    (id : Uuid) (status : DeploymentStatus) (code : Option String) (now : Time) (db next : Database)
    → next.audit_events ≡ db.audit_events
    → 0 < count_where (is_open_row id) db.deployments
    → count_where (is_open_row id) next.deployments ≡ 0
    → Reports db (after db (conclude id status code now next))
unfolding conclude
conclude-Reports id status code now db next e was closed =
    elim (Option-cases (find_where (has_id id) next.deployments)) [
      | inl missing ↦ rw missing (quiet refl)
      | inr (row, found) ↦
          let own =
            (==_iff row.id id).0 (find_where_sound (has_id id) next.deployments row found) in
          rw found (speaks id (terminal_audit row status code now) (λ o. rw own) was closed (rw e))
    ]

transition-Reports :
    (id : Uuid) (phase : DeploymentPhase) (status : DeploymentStatus) (outcome : String)
    (code : Option String) (now : Time) (db : Database)
    → Reports db (after db (transition id phase status outcome code now db))
unfolding transition
transition-Reports id phase status outcome code now db =
    elim (Bool-cases (count_where (is_open_row id) db.deployments == 1)) [
      | inl e ↦ elim (Bool-cases (is_terminal status)) [
        | inl t ↦
            rw (e, t)
              (conclude-Reports id status code now db
                (record_transition id phase status outcome code now db) refl
                (omega (arith, (==_iff (count_where (is_open_row id) db.deployments) 1).0 e))
                (count_where-update_none (is_open_row id) (advance phase status code now)
                  db.deployments (λ r. advance_closes id phase status code now r t)))
        | inr o ↦ rw (e, o) (quiet refl)
      ]
      | inr e ↦ rw e (quiet refl)
    ]

update_one-Reports :
    (p : Deployment → Bool) (f : Deployment → Deployment) (db : Database)
    → Reports db (after db (update_one p f db))
update_one-Reports p f db = elim (Bool-cases (count_where p db.deployments == 1)) [
  | inl e ↦ rw e (quiet refl)
  | inr e ↦ rw e (quiet refl)
]

create-Reports :
    (id app : Uuid) (trigger : DeploymentTrigger) (revision : Uuid) (from target of : Option Uuid)
    (request : Uuid) (now : Time) (db : Database)
    → Reports db (step db (now, creates id app trigger revision from target of request))
unfolding step create add_queued
create-Reports id app t r f g o q now db = elim (create_outcome id app t r f g o q now db) [
  | inl (e, _) ↦ rw e (quiet refl)
  | inr (e, _, _, _) ↦ rw e (quiet refl)
]

step-Reports : (db : Database) (now : Time) (c : Call) → Reports db (step db (now, c))
unfolding step resolved set_health mark_effect_started mark_effect_observed mark_rollback_started
    mark_rollback_observed interrupt_nonterminal
step-Reports db now (creates id app t r f g o q) = create-Reports id app t r f g o q now db
step-Reports db now (transitions_to id p s o c) = transition-Reports id p s o c now db
step-Reports db now (resolves id c p s d m f) = update_one-Reports _ _ db
step-Reports db now (sets_health id p r) = quiet refl
step-Reports db now (starts_effect id c s) = update_one-Reports _ _ db
step-Reports db now (observes_effect id c) = update_one-Reports _ _ db
step-Reports db now (starts_rollback id c) = update_one-Reports _ _ db
step-Reports db now (observes_rollback id c) = update_one-Reports _ _ db
step-Reports db now interrupts = quiet refl

run-IsAudited_from :
    (id : Uuid) (cs : List (Time × Call)) (db : Database)
    → IsAudited id db
    → IsAudited id (run db cs)
unfolding run
run-IsAudited_from id [] db v = v
run-IsAudited_from id ((now, c) ∷ cs) db v =
    run-IsAudited_from id cs (step db (now, c))
      (Reports-IsAudited id _ _ (step-Change db now c) (step-Reports db now c) v)

-- In every database that the ledger's calls make of an empty one, a deployment has no
-- `deployment_terminal` event, or one event, and then it is there and is not open.
pub run-IsAudited : (id : Uuid) (cs : List (Time × Call)) → IsAudited id (run empty_database cs)
run-IsAudited id cs = run-IsAudited_from id cs empty_database (silent refl)
