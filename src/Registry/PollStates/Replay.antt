-- ===== src/Registry/PollStates/Replay.antt =====
-- No delivery is accepted twice while its nonce is remembered (src/registry/poll_state.rs).
use solodock.Base.Text.{same_iff}
use solodock.Registry.PollStates.Rows.{of_app, PollObservation}
use solodock.Registry.PollStates.Store.{
  mark_webhook_processed, clear_suppression_if_target, remove_app_operational,
  try_initialize_generation, suppress, retain_apps, publish,
}
use solodock.Base.Table.{
  find_where-append_none, find_where-delete, find_where-append, count_where-found, count_where,
  find_where,
}
use solodock.Base.{
  ◌∙◌, ==_refl, ==_iff, zero, suc, ◌&&◌, not, ltb, ◌==◌, ◌+◌, suc, after, Option, any, String, All,
  ℕ, List, Bool, true, false, none, some, [], ◌∷◌, ◌≡◌, ◌≤◌, ◌≢◌, refl, inl, inr, Bool-cases, arith,
}
use solodock.Database.{Uuid, Time, Database, WebhookReplay}
use solodock.Registry.PollStates.Webhooks.{
  is_earliest, ten_minutes, is_expired, remove_first, replay_row, wake, purge, WebhookAccept,
  accept_webhook, has_nonce,
}
use solodock.Registry.PollStates.Calls.{Call, step, run}

-- The nonce is remembered by a row that expires at `until` or later.
abbrev pub Remembers : Uuid → Uuid → List ℕ → Time → List WebhookReplay → Type 0
Remembers app revision nonce until rows =
    (row : WebhookReplay) × (find_where (has_nonce app revision nonce) rows ≡ some row)
    × (row.app_id ≡ app)
    × (until ≤ row.expires_at)

find_where-remove_first :
    (p q : WebhookReplay → Bool) (rows : List WebhookReplay) (row : WebhookReplay)
    → find_where q rows ≡ some row
    → p row ≡ false
    → find_where q (remove_first p rows) ≡ some row
find_where-remove_first p q [] row e h = cc
find_where-remove_first p q (r ∷ rows) row e h =
    ground (arith, find_where-remove_first p q rows row)

-- A row that has not expired outlives a purge.
find_where-purge :
    (n : ℕ) (now : Time) (q : WebhookReplay → Bool) (rows : List WebhookReplay)
    (row : WebhookReplay)
    → find_where q rows ≡ some row
    → now ≤ row.expires_at
    → find_where q (purge n now rows) ≡ some row
unfolding purge
find_where-purge zero now q rows row e h = e
find_where-purge (suc n) now q rows row e h =
    find_where-purge n now q _ row
      (find_where-remove_first (λ r. is_expired now r && is_earliest rows r) q rows row e
        (ground arith))
      h

wake-replays :
    (app : Uuid) (generation : String) (enabled : Bool) (now : Time) (db : Database)
    → (wake app generation enabled now db).0.replays ≡ db.replays
unfolding wake
wake-replays app generation false now db = refl
wake-replays app generation true now db = refl

-- What `retains` and `removes` must not do for the application to stay.
abbrev pub keeps_app : Uuid → Call → Bool
keeps_app app (Call.retains ids) = any (λ id. app == id) ids
keeps_app app (Call.removes other) = not (app == other)
keeps_app app _ = true

module _ (format_time : ℕ → Time) (app revision : Uuid) (nonce : List ℕ) where
  has_nonce-retained :
      (ids : List Uuid) (s : WebhookReplay)
      → has_nonce app revision nonce s ≡ true
      → any (λ id. app == id) ids ≡ true
      → not (any (λ id. s.app_id == id) ids) ≡ false
  unfolding has_nonce
  has_nonce-retained ids s hit k =
      let e = (==_iff s.app_id app).0 (ground arith) in rw e (rw k refl)

  has_nonce-removed :
      (other : Uuid) (s : WebhookReplay)
      → has_nonce app revision nonce s ≡ true
      → not (app == other) ≡ true
      → (s.app_id == other) ≡ false
  unfolding has_nonce
  has_nonce-removed other s hit k = ground (arith, ==_iff s.app_id app)

  has_nonce-replay_row :
      (request_id : Uuid) (now : ℕ)
      → has_nonce app revision nonce (replay_row format_time app revision nonce request_id now)
        ≡ true
  unfolding has_nonce replay_row
  has_nonce-replay_row request_id now =
      ground (arith, same_iff nonce nonce, ==_refl app, ==_refl revision)

  remembered→replay :
      (request_id : Uuid) (generation : String) (enabled : Bool) (now : ℕ) (until : Time)
      (db : Database)
      → Remembers app revision nonce until db.replays
      → format_time now ≤ until
      → accept_webhook format_time app revision nonce request_id generation enabled now db
        ≡ (db, WebhookAccept.replay)
  unfolding accept_webhook
  remembered→replay request_id generation enabled now until db (row, e, a, le) h =
      let there =
        find_where-purge 100 (format_time now) (has_nonce app revision nonce) db.replays row e
          (omega arith) in
      elim (Bool-cases (
        count_where (has_nonce app revision nonce) (purge 100 (format_time now) db.replays) == 0)) [
          | inl none_left ↦ absurd (
              ground (
                arith,
                count_where-found (has_nonce app revision nonce)
                    (purge 100 (format_time now) db.replays) row there,
              ))
          | inr some_left ↦ rw some_left refl
        ]

  -- Another delivery, whatever its answer, forgets nothing that has not expired.
  accept-Remembers :
      (other other_revision : Uuid) (other_nonce : List ℕ) (request_id : Uuid) (generation : String)
      (enabled : Bool) (now : ℕ) (until : Time) (db : Database)
      → Remembers app revision nonce until db.replays
      → format_time now ≤ until
      → Remembers app revision nonce until
          (accept_webhook format_time other other_revision other_nonce request_id generation enabled
            now db).0.replays
  unfolding accept_webhook
  accept-Remembers other other_revision other_nonce request_id generation enabled now until db
        (row, e, a, le) h =
      let there =
        find_where-purge 100 (format_time now) (has_nonce app revision nonce) db.replays row e
          (omega arith) in
      elim (Bool-cases (
        count_where (has_nonce other other_revision other_nonce)
          (purge 100 (format_time now) db.replays)
        == 0)) [
          | inl fresh ↦ rw fresh (
              rw (wake-replays other generation enabled (format_time now) _) (
                row,
                find_where-append (has_nonce app revision nonce)
                    (purge 100 (format_time now) db.replays)
                    (replay_row format_time other other_revision other_nonce request_id now ∷ [])
                    row there,
                a,
                le,
              ))
          | inr seen ↦ rw seen (row, e, a, le)
        ]

  publish-replays :
      (other : Uuid) (value : PollObservation) (now : Time) (db : Database)
      → (after db (publish other value now db)).replays ≡ db.replays
  unfolding publish
  publish-replays other value now db = elim (Bool-cases (ltb 5 value.transient_failures)) [
    | inl h ↦ rw h refl
    | inr h ↦ rw h refl
  ]

  suppress-replays :
      (other : Uuid) (target : String) (deployment : Uuid) (now : Time) (db : Database)
      → (after db (suppress other target deployment now db)).replays ≡ db.replays
  unfolding suppress
  suppress-replays other target deployment now db =
      elim (Bool-cases (count_where (of_app other) db.poll_states == 1)) [
        | inl h ↦ rw h refl
        | inr h ↦ rw h refl
      ]

  initialize-replays :
      (other : Uuid) (observed : Option String) (generation : String) (due now : Time)
      (db : Database)
      → (try_initialize_generation other observed generation due now db).0.replays ≡ db.replays
  unfolding try_initialize_generation
  initialize-replays other (some observed) generation due now db = refl
  initialize-replays other none generation due now db =
      elim (Bool-cases (count_where (of_app other) db.poll_states == 0)) [
        | inl h ↦ rw h refl
        | inr h ↦ rw h refl
      ]

  step-Remembers :
      (db : Database) (now : ℕ) (call : Call) (until : Time)
      → Remembers app revision nonce until db.replays
      → keeps_app app call ≡ true
      → format_time now ≤ until
      → Remembers app revision nonce until (step format_time db (now, call)).replays
  unfolding step retain_apps remove_app_operational clear_suppression_if_target
      mark_webhook_processed
  step-Remembers db now (Call.publishes other value) until r k h =
      rw (publish-replays other value (format_time now) db) r
  step-Remembers db now (Call.initializes other observed generation due) until r k h =
      rw (initialize-replays other observed generation due (format_time now) db) r
  step-Remembers db now (Call.suppresses other target deployment) until r k h =
      rw (suppress-replays other target deployment (format_time now) db) r
  step-Remembers db now (Call.clears other target) until r k h = r
  step-Remembers db now (Call.marks other generation captured) until r k h = r
  step-Remembers db now
        (Call.accepts other other_revision other_nonce request_id generation enabled) until r k h =
      accept-Remembers other other_revision other_nonce request_id generation enabled now until db r
        h
  step-Remembers db now (Call.retains ids) until (row, e, a, le) k h =
      (row, find_where-delete _ _ db.replays row e (λ s hit. has_nonce-retained ids s hit k), a, le)
  step-Remembers db now (Call.removes other) until (row, e, a, le) k h = (
    row,
    find_where-delete _ _ db.replays row e (λ s hit. has_nonce-removed other s hit k),
    a,
    le,
  )

  run-Remembers :
      (cs : List (ℕ × Call)) (db : Database) (until : Time)
      → Remembers app revision nonce until db.replays
      → All (λ (c : ℕ × Call). (keeps_app app c.1 ≡ true) × (format_time c.0 ≤ until)) cs
      → Remembers app revision nonce until (run format_time db cs).replays
  unfolding run
  run-Remembers [] db until r hs = r
  run-Remembers ((now, c) ∷ cs) db until r ((k, h), hs) =
      run-Remembers cs (step format_time db (now, c)) until (step-Remembers db now c until r k h) hs

  accepted→Remembers :
      (request_id : Uuid) (generation : String) (enabled : Bool) (now : ℕ) (db : Database)
      → (accept_webhook format_time app revision nonce request_id generation enabled now db).1
        ≢ WebhookAccept.replay
      → Remembers app revision nonce
          (format_time (now + ten_minutes))
          (accept_webhook format_time app revision nonce request_id generation enabled now
            db).0.replays
  unfolding accept_webhook replay_row
  accepted→Remembers request_id generation enabled now db ne =
      elim (Bool-cases (
        count_where (has_nonce app revision nonce) (purge 100 (format_time now) db.replays) == 0)) [
          | inl fresh ↦ rw fresh (
              rw (wake-replays app generation enabled (format_time now) _) (
                replay_row format_time app revision nonce request_id now,
                find_where-append_none (has_nonce app revision nonce)
                      (purge 100 (format_time now) db.replays)
                      (replay_row format_time app revision nonce request_id now ∷ [])
                      ((==_iff _ _).0 fresh)
                    ∙ rw (has_nonce-replay_row request_id now) refl,
                refl,
                omega arith,
              ))
          | inr seen ↦ absurd (rw seen at ne refl)
        ]

  -- A delivery that was not a replay at the instant `now` is one when the same application, secret
  -- revision and nonce come again at an instant `later`, whatever else the two deliveries carry and
  -- whatever calls came between: the answer is `replay` and the database does not change. Each of
  -- these instants is stored as a text that is not above that of `now` plus ten minutes, and no call
  -- between removes the application.
  pub replay_refused :
      (request_id again : Uuid) (generation generation' : String) (enabled enabled' : Bool)
      (now later : ℕ) (cs : List (ℕ × Call)) (db : Database)
      → (accept_webhook format_time app revision nonce request_id generation enabled now db).1
        ≢ WebhookAccept.replay
      → All
          (λ (c : ℕ × Call).
            (keeps_app app c.1 ≡ true) × (format_time c.0 ≤ format_time (now + ten_minutes)))
          cs
      → format_time later ≤ format_time (now + ten_minutes)
      → let last =
          run format_time
            (accept_webhook format_time app revision nonce request_id generation enabled now db).0
            cs in
        accept_webhook format_time app revision nonce again generation' enabled' later last
        ≡ (last, WebhookAccept.replay)
  replay_refused request_id again generation generation' enabled enabled' now later cs db ne hs h =
      remembered→replay again generation' enabled' later _ _
        (run-Remembers cs _ _ (accepted→Remembers request_id generation enabled now db ne) hs) h
