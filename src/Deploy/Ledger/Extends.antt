-- ===== src/Deploy/Ledger/Extends.antt =====
-- How each call of the ledger extends the log of transitions (src/deploy/ledger.rs).
use solodock.Deploy.Ledger.Journal.{
  mark_rollback_observed, mark_rollback_started, mark_effect_observed, mark_effect_started,
}
use solodock.Deploy.Ledger.Uniqueness.{violates-ids}
use solodock.Database.Status.{is_terminal}
use solodock.Base.Table.{count_where_mono, count_where-append, find_where, count_where}
use solodock.Deploy.Ledger.Transactions.{
  update_one, set_health, resolved, interrupt_nonterminal, suppress_target, terminal_audit,
  record_transition, transition, create, conclude,
}
use solodock.Base.{
  Bool, ==_refl, arith, ==_iff, ◌+◌, inr, true, inl, ◌==◌, [], ◌++◌, Option-cases, Option,
  Bool-cases, ◌∷◌, ◌<◌, after, List, ◌≡◌, refl,
}
use solodock.Database.{DeploymentTransition, Uuid, Time, Database, Deployment}
use solodock.Deploy.Ledger.Rows.{violates_unique, max_seq, is_open_row, new_deployment, has_id}
use solodock.Deploy.Ledger.Calls.{
  interrupts, observes_rollback, starts_rollback, observes_effect, starts_effect, sets_health,
  resolves, transitions_to, creates, Call, step,
}

abbrev pub HasRow : Uuid → List Deployment → Type 0
HasRow id rows = 0 < count_where (has_id id) rows

-- What a call does to the log.
pub data Extends (db next : Database) : Type 0 where
  same : next.transitions ≡ db.transitions → Extends db next
  opened :
      (t : DeploymentTransition)
      → t.seq ≡ 1
      → count_where (has_id t.deployment_id) db.deployments ≡ 0
      → HasRow t.deployment_id next.deployments
      → next.transitions ≡ db.transitions ++ t ∷ []
      → Extends db next
  continued :
      (t : DeploymentTransition)
      → t.seq ≡ max_seq t.deployment_id db.transitions + 1
      → HasRow t.deployment_id db.deployments
      → next.transitions ≡ db.transitions ++ t ∷ []
      → Extends db next

has_own : (id : Uuid) (r : Deployment) → has_id id r ≡ true → 0 < count_where (has_id id) (r ∷ [])
has_own id r h = ground arith

create-Extends :
    (id app : Uuid) (trigger : _) (revision : Uuid) (from target of : Option Uuid) (request : Uuid)
    (now : Time) (db : Database)
    → Extends db (step db (now, creates id app trigger revision from target of request))
unfolding step create new_deployment
create-Extends id app t r f g o q now db =
    elim (Bool-cases (count_where (violates_unique id app) db.deployments == 0)) [
      | inl e ↦
          elim (Option-cases (
            find_where (has_id id)
              (db.deployments ++ new_deployment id app t r f g o q now ∷ []))) [
                | inl missing ↦ rw (e, missing) (same refl)
                | inr (row, found) ↦
                    rw (e, found)
                      (opened _ refl (violates-ids id app db.deployments (ground arith))
                        (omega (
                          arith,
                          count_where-append (has_id id) db.deployments
                              (new_deployment id app t r f g o q now ∷ []),
                          has_own id _ (==_refl id),
                        ))
                        refl)
              ]
      | inr e ↦ rw e (same refl)
    ]

conclude-Extends :
    (id : Uuid) (status : _) (code : _) (now : Time) (db next : Database)
    → Extends db next
    → ((other : Database)
        → Extends db
            (record other { transitions = next.transitions; deployments = next.deployments }))
    → Extends db (after db (conclude id status code now next))
unfolding conclude
conclude-Extends id status code now db next extends any =
    elim (Option-cases (find_where (has_id id) next.deployments)) [
      | inl missing ↦ rw missing (same refl)
      | inr (row, found) ↦ rw found (
          any (record next {
            audit_events = next.audit_events ++ terminal_audit row status code now ∷ [];
            poll_states = suppress_target row status now next.poll_states;
          }))
    ]

is_open_row-id : (id : Uuid) (r : Deployment) → is_open_row id r ≡ true → has_id id r ≡ true
unfolding is_open_row
is_open_row-id id r h = ground arith

open-HasRow :
    (id : Uuid) (rows : List Deployment)
    → (count_where (is_open_row id) rows == 1) ≡ true
    → HasRow id rows
open-HasRow id rows h =
    let one_row = (==_iff (count_where (is_open_row id) rows) 1).0 h in
    omega (arith, one_row, count_where_mono (is_open_row id) (has_id id) rows (is_open_row-id id))

transition-Extends :
    (id : Uuid) (phase : _) (status : _) (outcome : _) (code : _) (now : Time) (db : Database)
    → Extends db (after db (transition id phase status outcome code now db))
unfolding transition
transition-Extends id phase status outcome code now db =
    elim (Bool-cases (count_where (is_open_row id) db.deployments == 1)) [
      | inl e ↦
          let extends : (other : Database)
              → Extends db (record other {
                transitions = (record_transition id phase status outcome code now db).transitions;
                deployments = (record_transition id phase status outcome code now db).deployments;
              }) =
            λ other. continued _ refl (open-HasRow id db.deployments e) refl in
          elim (Bool-cases (is_terminal status)) [
            | inl t ↦
                rw (e, t)
                  (conclude-Extends id status code now db
                    (record_transition id phase status outcome code now db) (extends db) extends)
            | inr o ↦ rw (e, o) (extends db)
          ]
      | inr e ↦ rw e (same refl)
    ]

interrupt-Extends : (now : Time) (db : Database) → Extends db (interrupt_nonterminal now db).0
unfolding interrupt_nonterminal
interrupt-Extends now db = same refl

update_one-Extends :
    (p : Deployment → Bool) (f : Deployment → Deployment) (db : Database)
    → Extends db (after db (update_one p f db))
update_one-Extends p f db = elim (Bool-cases (count_where p db.deployments == 1)) [
  | inl e ↦ rw e (same refl)
  | inr e ↦ rw e (same refl)
]

-- Every call extends the log in one of the three ways.
pub step-Extends : (db : Database) (now : Time) (c : Call) → Extends db (step db (now, c))
unfolding step resolved set_health mark_effect_started mark_effect_observed mark_rollback_started
    mark_rollback_observed
step-Extends db now (creates id app t r f g o q) = create-Extends id app t r f g o q now db
step-Extends db now (transitions_to id p s o c) = transition-Extends id p s o c now db
step-Extends db now (resolves id c p s d m f) = update_one-Extends _ _ db
step-Extends db now (sets_health id p r) = same refl
step-Extends db now (starts_effect id c s) = update_one-Extends _ _ db
step-Extends db now (observes_effect id c) = update_one-Extends _ _ db
step-Extends db now (starts_rollback id c) = update_one-Extends _ _ db
step-Extends db now (observes_rollback id c) = update_one-Extends _ _ db
step-Extends db now interrupts = interrupt-Extends now db
