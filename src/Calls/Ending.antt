-- ===== src/Calls/Ending.antt =====
-- end-call.use-case.ts: what an end of a call answers.
use ethixweb_ai_csr.Common.{
  ◌≤◌, ◌≡◌, ◌≢◌, refl, sym, inl, inr, Bool, true, false, Bool-cases, List, length, filter, Option,
  none, some, Option-cases, String, arith, subst,
}
use ethixweb_ai_csr.Calls.{
  in_progress, Call, Database, EndCallCommand, status_eq, is_valid_transition, is_row, find_by_id,
  find_by_telephony_call_sid, answered, ended_row, Update, updated, lost, no_call, update_status,
  resolve_lost_race, settle_update, write_end, read_end, end_call, TranscriptRow, Insert,
  persist_transcript_best_effort, persisted,
}
use ethixweb_ai_csr.Calls.Rows.{
  valid_from, invalid_from, status_eq_iff, update_status_lem, update_status_lost,
  update_status_ends, commit-answer, commit-settle_update, going_valid,
}

resolve_lost_race_lem :
    (c : EndCallCommand) (found : Option Call) (call : Call)
    → ((r : Call) → found ≡ some r → status_eq r.status in_progress ≡ false)
    → resolve_lost_race c found ≡ answered call
    → call.status ≡ c.status
unfolding resolve_lost_race
resolve_lost_race_lem c none call ended e = ground arith
resolve_lost_race_lem c (some r) call ended e = elim (Bool-cases (status_eq r.status c.status)) [
  | inl same ↦ ground (arith, status_eq_iff r.status c.status same)
  | inr differ ↦ ground (arith, invalid_from r.status c.status differ (ended r refl))
]

settle_update_lem :
    (c : EndCallCommand) (id : String) (db : Database) (u : Update) (call : Call)
    → (u ≡ updated call → call.status ≡ c.status)
    → ((r : Call)
        → u ≡ lost
        → find_by_id c.tenant_id id db ≡ some r
        → status_eq r.status in_progress ≡ false)
    → (settle_update c id (db, u)).1 ≡ answered call
    → call.status ≡ c.status
unfolding settle_update
settle_update_lem c id db (updated r) call at_once later e = at_once (ground arith)
settle_update_lem c id db lost call at_once later e =
    resolve_lost_race_lem c (find_by_id c.tenant_id id db) call (λ r found. later r refl found) e
settle_update_lem c id db no_call call at_once later e = ground arith

write_end_lem :
    (c : EndCallCommand) (read : Call) (rows : List TranscriptRow × Bool) (db : Database)
    (call : Call)
    → length (filter (is_row c.tenant_id read.id) db.calls) ≤ 1
    → (write_end c read rows db).1 ≡ answered call
    → call.status ≡ c.status
unfolding write_end
write_end_lem c read (rows, usable) db call single e =
    let u = update_status c read.id read.status db in
    elim (Bool-cases (status_eq read.status c.status)) [
      | inl same ↦
          ground
            (arith, commit-answer rows db (answered read), status_eq_iff read.status c.status same)
      | inr differ ↦ elim (Bool-cases (is_valid_transition read.status c.status)) [
        | inl valid ↦ elim (Bool-cases usable) [
          | inl good ↦
              let start = valid_from read.status c.status differ valid in
              settle_update_lem c read.id u.0 u.1 call
                (λ done. update_status_lem c read.id read.status db call single done)
                (λ r missed found.
                  subst (λ s. status_eq r.status s ≡ false) start
                    (update_status_lost c read.id read.status db r missed found))
                (ground (
                  arith,
                  commit-answer rows (settle_update c read.id u).0 (settle_update c read.id u).1,
                ))
          | inr bad ↦ ground arith
        ]
        | inr invalid ↦ ground arith
      ]
    ]

-- Whatever other requests do between its read and its write, an end of a call that is answered at all
-- is answered with a call in the status that was asked for, as long as the primary key keeps ids
-- unique.
pub end_call_answers :
    (c : EndCallCommand) (saving : Insert) (between : Database → Database) (db : Database)
    (call : Call)
    → ((id : String) → length (filter (is_row c.tenant_id id) (between db).calls) ≤ 1)
    → (end_call c saving between db).1 ≡ answered call
    → call.status ≡ c.status
unfolding end_call read_end
end_call_answers c saving between db call single e =
    elim (Option-cases (find_by_telephony_call_sid c.tenant_id c.telephony_call_sid db)) [
      | inl absent ↦ ground arith
      | inr (read, found) ↦
          write_end_lem c read (persist_transcript_best_effort c read.id saving db) (between db)
            call (single read.id) (ground arith)
    ]

write_end_ends :
    (c : EndCallCommand) (call : Call) (rows : List TranscriptRow) (db : Database)
    → find_by_id c.tenant_id call.id db ≡ some call
    → call.status ≡ in_progress
    → c.status ≢ in_progress
    → ((write_end c call (rows, true) db).1 ≡ answered (ended_row c call call))
      × (find_by_id c.tenant_id call.id (write_end c call (rows, true) db).0
          ≡ some (ended_row c call call))
unfolding write_end find_by_id
write_end_ends c call rows db found going target =
    let (moves, valid) = going_valid call.status c.status going target in
    let (done, row) = update_status_ends c call.id db call found going in
    let (reply, calls) =
      commit-settle_update c call.id rows (update_status c call.id in_progress db).0
        (update_status c call.id in_progress db).1 (ended_row c call call) done in
    (ground (arith, reply), ground (arith, calls, row))

persist_inserts :
    (c : EndCallCommand) (id : String) (db : Database)
    → (persist_transcript_best_effort c id Insert.inserts db).1 ≡ true
unfolding persist_transcript_best_effort persisted
persist_inserts c id db = refl

-- Ending a call that is in progress, with no other request in between and no error of the database:
-- the answer is the call with the status, the reason if one is given, the time and the duration of
-- the request, and the row is that of the answer from then on.
pub end_call_ends :
    (c : EndCallCommand) (db : Database) (call : Call)
    → find_by_telephony_call_sid c.tenant_id c.telephony_call_sid db ≡ some call
    → find_by_id c.tenant_id call.id db ≡ some call
    → call.status ≡ in_progress
    → c.status ≢ in_progress
    → ((end_call c Insert.inserts (λ db'. db') db).1 ≡ answered (ended_row c call call))
      × (find_by_id c.tenant_id call.id (end_call c Insert.inserts (λ db'. db') db).0
          ≡ some (ended_row c call call))
unfolding end_call read_end
end_call_ends c db call by_sid by_id going target =
    let rows = persist_transcript_best_effort c call.id Insert.inserts db in
    rw by_sid (
      subst
        (λ usable.
          ((write_end c call (rows.0, usable) db).1 ≡ answered (ended_row c call call))
          × (find_by_id c.tenant_id call.id (write_end c call (rows.0, usable) db).0
              ≡ some (ended_row c call call)))
        (sym (persist_inserts c call.id db)) (write_end_ends c call rows.0 db by_id going target))
