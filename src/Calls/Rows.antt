-- ===== src/Calls/Rows.antt =====
-- prisma-call.repository.ts and call-lifecycle.ts: the statuses, and what an update does to the rows.
use ethixweb_ai_csr.Common.{
  ◌≤◌, ◌≡◌, ◌≢◌, refl, ◌⊎◌, inl, inr, true, false, Bool-cases, List, length, filter, some,
  Option-cases, String, arith, any, find, find-map, find-any-false, find-any-true, find-some,
  any_of_find, ◌&&◌, map,
}
use ethixweb_ai_csr.Calls.{
  CallStatus, in_progress, completed, abandoned, Call, Database, EndCallCommand, status_eq,
  is_valid_transition, allowed_transitions, is_row, find_by_id, Answer, answered, ended_row,
  swap_row, Update, updated, lost, no_call, reread, update_row, update_status, commit,
  settle_update, TranscriptRow, illegal_transition,
}

-- An end of a call has passed its check on the status that it read.
pub valid_from :
    (start target : CallStatus)
    → status_eq start target ≡ false
    → is_valid_transition start target ≡ true
    → start ≡ in_progress
unfolding is_valid_transition allowed_transitions
valid_from in_progress target ne v = refl
valid_from completed target ne v = ground arith
valid_from abandoned target ne v = ground arith

pub invalid_from :
    (start target : CallStatus)
    → status_eq start target ≡ false
    → status_eq start in_progress ≡ false
    → is_valid_transition start target ≡ false
unfolding is_valid_transition allowed_transitions
invalid_from in_progress target ne v = ground arith
invalid_from completed target ne v = ground arith
invalid_from abandoned target ne v = ground arith

pub status_eq_iff : (s t : CallStatus) → status_eq s t ≡ true → s ≡ t
status_eq_iff in_progress in_progress e = refl
status_eq_iff completed completed e = refl
status_eq_iff abandoned abandoned e = refl
status_eq_iff in_progress completed e = ground arith
status_eq_iff in_progress abandoned e = ground arith
status_eq_iff completed in_progress e = ground arith
status_eq_iff completed abandoned e = ground arith
status_eq_iff abandoned in_progress e = ground arith
status_eq_iff abandoned completed e = ground arith

pub swap_row-is_row :
    (c : EndCallCommand) (id : String) (from_status : CallStatus) (existing : Call) (t u : String)
    (r : Call)
    → is_row t u (swap_row c id from_status existing r) ≡ is_row t u r
unfolding swap_row ended_row
swap_row-is_row c id from_status existing t u r = ground arith

pub commit-calls :
    (rows : List TranscriptRow) (db : Database) (a : Answer)
    → (commit rows (db, a)).0.calls ≡ db.calls
unfolding commit
commit-calls rows db a = ground arith

pub update_status-calls :
    (c : EndCallCommand) (id : String) (from_status : CallStatus) (db : Database)
    → ((update_status c id from_status db).0 ≡ db)
      ⊎ ((existing : Call) × ((update_status c id from_status db).0.calls
            ≡ map (swap_row c id from_status existing) db.calls))
unfolding update_status update_row
update_status-calls c id from_status db = elim (Option-cases (find_by_id c.tenant_id id db)) [
  | inl absent ↦ inl (ground arith)
  | inr (existing, e) ↦
      elim (Bool-cases
        (any (λ r. is_row c.tenant_id id r && status_eq r.status from_status) db.calls)) [
          | inl hit ↦ inr (existing, ground arith)
          | inr miss ↦ inl (ground arith)
        ]
]

pub settle_update-calls :
    (c : EndCallCommand) (id : String) (db : Database) (u : Update)
    → (settle_update c id (db, u)).0 ≡ db
unfolding settle_update
settle_update-calls c id db (updated call) = refl
settle_update-calls c id db lost = refl
settle_update-calls c id db no_call = refl

pub swap_row-ended :
    (c : EndCallCommand) (id : String) (existing r : Call)
    → status_eq r.status in_progress ≡ false
    → swap_row c id in_progress existing r ≡ r
unfolding swap_row
swap_row-ended c id existing r e = ground arith

pub swap_row-status :
    (c : EndCallCommand) (id : String) (from_status : CallStatus) (existing r : Call)
    → is_row c.tenant_id id r ≡ true
    → status_eq r.status from_status ≡ true
    → (swap_row c id from_status existing r).status ≡ c.status
unfolding swap_row ended_row
swap_row-status c id from_status existing r row same = ground arith

pub update_status_lem :
    (c : EndCallCommand) (id : String) (from_status : CallStatus) (db : Database) (call : Call)
    → length (filter (is_row c.tenant_id id) db.calls) ≤ 1
    → (update_status c id from_status db).1 ≡ updated call
    → call.status ≡ c.status
unfolding update_status update_row reread find_by_id
update_status_lem c id from_status db call single e =
    elim (Option-cases (find (is_row c.tenant_id id) db.calls)) [
      | inl absent ↦ ground arith
      | inr (existing, found) ↦
          let q = λ (r : Call). status_eq r.status from_status in
          let row = find-some (is_row c.tenant_id id) db.calls existing found in
          elim (Bool-cases (any (λ r. is_row c.tenant_id id r && q r) db.calls)) [
            | inl hit ↦
                let swapped =
                  find-map (is_row c.tenant_id id) (swap_row c id from_status existing) db.calls
                    existing (swap_row-is_row c id from_status existing c.tenant_id id) found in
                let same =
                  find-any-true (is_row c.tenant_id id) q db.calls existing single found hit in
                ground (arith, swapped, swap_row-status c id from_status existing existing row same)
            | inr miss ↦ ground arith
          ]
    ]

pub update_status_lost :
    (c : EndCallCommand) (id : String) (from_status : CallStatus) (db : Database) (r : Call)
    → (update_status c id from_status db).1 ≡ lost
    → find_by_id c.tenant_id id (update_status c id from_status db).0 ≡ some r
    → status_eq r.status from_status ≡ false
unfolding update_status update_row reread find_by_id
update_status_lost c id from_status db r e found =
    elim (Option-cases (find (is_row c.tenant_id id) db.calls)) [
      | inl absent ↦ ground arith
      | inr (existing, there) ↦
          let q = λ (r : Call). status_eq r.status from_status in
          elim (Bool-cases (any (λ r. is_row c.tenant_id id r && q r) db.calls)) [
            | inl hit ↦ ground arith
            | inr miss ↦ ground (arith, find-any-false (is_row c.tenant_id id) q db.calls r)
          ]
    ]

pub commit-answer :
    (rows : List TranscriptRow) (db : Database) (a : Answer) → (commit rows (db, a)).1 ≡ a
unfolding commit
commit-answer rows db (answered call) = refl
commit-answer rows db (Answer.call_not_found id) = refl
commit-answer rows db (Answer.constraint_violation id) = refl
commit-answer rows db (Answer.no_call_to_update id) = refl
commit-answer rows db (illegal_transition s t) = refl
commit-answer rows db Answer.transaction_aborted = refl

pub update_status_ends :
    (c : EndCallCommand) (id : String) (db : Database) (call : Call)
    → find_by_id c.tenant_id id db ≡ some call
    → call.status ≡ in_progress
    → ((update_status c id in_progress db).1 ≡ updated (ended_row c call call))
      × (find_by_id c.tenant_id id (update_status c id in_progress db).0
          ≡ some (ended_row c call call))
unfolding update_status update_row reread find_by_id swap_row
update_status_ends c id db call found going =
    let row = find-some (is_row c.tenant_id id) db.calls call found in
    let p = is_row c.tenant_id id in
    let hit =
      any_of_find p (λ r. status_eq r.status in_progress) db.calls call found (rw going refl) in
    let swapped =
      find-map p (swap_row c id in_progress call) db.calls call
        (swap_row-is_row c id in_progress call c.tenant_id id) found in
    (ground (arith, row, hit, swapped), ground (arith, row, hit, swapped))

pub going_valid :
    (start target : CallStatus)
    → start ≡ in_progress
    → target ≢ in_progress
    → (status_eq start target ≡ false) × (is_valid_transition start target ≡ true)
unfolding is_valid_transition allowed_transitions
going_valid in_progress in_progress going ne = absurd (ne refl)
going_valid in_progress completed going ne = (refl, refl)
going_valid in_progress abandoned going ne = (refl, refl)
going_valid completed target going ne = ground arith
going_valid abandoned target going ne = ground arith

pub commit-settle_update :
    (c : EndCallCommand) (id : String) (rows : List TranscriptRow) (db : Database) (u : Update)
    (r : Call)
    → u ≡ updated r
    → ((commit rows (settle_update c id (db, u))).1 ≡ answered r)
      × ((commit rows (settle_update c id (db, u))).0.calls ≡ db.calls)
unfolding commit settle_update
commit-settle_update c id rows db u r e = (rw e refl, rw e refl)
