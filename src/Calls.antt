-- ===== src/Calls.antt =====
-- apps/core-api/src/modules/calls: domain/call-lifecycle.ts and call.entity.ts, application/start-call.use-case.ts
-- and end-call.use-case.ts, and the writes of infrastructure/prisma-call.repository.ts.
-- The two tables are lists of rows. Times are milliseconds; row ids are given by the database.
pub mod Starting
mod Rows
pub mod Ending
pub mod Races
use ethixweb_ai_csr.Common.{
  ℕ, zero, suc, ◌+◌, ◌-◌, ◌/◌, ◌≡◌, Bool, true, false, ◌&&◌, List, [], ◌∷◌, ◌++◌, Option, none,
  some, String, map, find, any, length, filter, str_eq, or_default, if◌then◌else◌, ◌==◌,
}

pub data CallStatus : Type 0 where
  in_progress completed abandoned : CallStatus

pub data CallDirection : Type 0 where
  inbound outbound : CallDirection

pub record Call : Type 0 where
  pub id : String
  pub tenant_id : String
  pub business_id : String
  pub customer_id : Option String
  pub direction : CallDirection
  pub from_number : String
  pub to_number : String
  pub telephony_call_sid : String
  pub status : CallStatus
  pub end_reason : Option String
  pub duration_seconds : Option ℕ
  pub started_at : ℕ
  pub ended_at : Option ℕ

pub record TranscriptTurn : Type 0 where
  pub turn_index : ℕ
  pub speaker : String
  pub text : String
  pub confidence : Option ℕ
  pub offset_ms : Option ℕ

pub record TranscriptRow : Type 0 where
  pub tenant_id : String
  pub call_id : String
  pub turn_index : ℕ
  pub speaker : String
  pub text : String
  pub offset_ms : ℕ
  pub confidence : Option ℕ

pub record Database : Type 0 where
  pub calls : List Call
  pub transcripts : List TranscriptRow

-- `===` on statuses.
abbrev pub status_eq : CallStatus → CallStatus → Bool
status_eq in_progress in_progress = true
status_eq completed completed = true
status_eq abandoned abandoned = true
status_eq _ _ = false

-- `ALLOWED_TRANSITIONS`
unfoldable pub allowed_transitions : CallStatus → List CallStatus
allowed_transitions in_progress = completed ∷ abandoned ∷ []
allowed_transitions completed = []
allowed_transitions abandoned = []

-- `assertValidCallStatusTransition`: whether it does not throw.
unfoldable pub is_valid_transition : CallStatus → CallStatus → Bool
unfolding allowed_transitions
is_valid_transition start target =
    if status_eq start target
    then true
    else any (λ s. status_eq s target) (allowed_transitions start)

unfoldable pub is_terminal_call_status : CallStatus → Bool
unfolding allowed_transitions
is_terminal_call_status status = length (allowed_transitions status) == 0

-- The repository's `where` clauses.
abbrev pub is_row : String → String → Call → Bool
is_row tenant_id id c = str_eq c.id id && str_eq c.tenant_id tenant_id

unfoldable pub find_by_id : String → String → Database → Option Call
find_by_id tenant_id id db = find (is_row tenant_id id) db.calls

unfoldable pub find_by_telephony_call_sid : String → String → Database → Option Call
find_by_telephony_call_sid tenant_id sid db =
    find (λ c. str_eq c.telephony_call_sid sid && str_eq c.tenant_id tenant_id) db.calls

pub record StartCallCommand : Type 0 where
  pub tenant_id : String
  pub business_id : String
  pub customer_id : Option String
  pub direction : CallDirection
  pub from_number : String
  pub to_number : String
  pub telephony_call_sid : String
  pub started_at : ℕ

unfoldable pub new_row : String → StartCallCommand → Call
new_row id c = record {
  id = id;
  tenant_id = c.tenant_id;
  business_id = c.business_id;
  customer_id = c.customer_id;
  direction = c.direction;
  from_number = c.from_number;
  to_number = c.to_number;
  telephony_call_sid = c.telephony_call_sid;
  status = in_progress;
  end_reason = none;
  duration_seconds = none;
  started_at = c.started_at;
  ended_at = none;
}

-- `create`; `none` is `CallAlreadyExistsError`, on the unique index over all tenants.
unfoldable pub create : String → StartCallCommand → Database → Option (Database × Call)
unfolding new_row
create id c db =
    if any (λ r. str_eq r.telephony_call_sid c.telephony_call_sid) db.calls
    then none
    else some (record db { calls = db.calls ++ new_row id c ∷ [] }, new_row id c)

-- What a use-case returns or throws.
pub data Answer : Type 0 where
  answered : Call → Answer
  call_not_found constraint_violation no_call_to_update : String → Answer
  illegal_transition : CallStatus → CallStatus → Answer
  transaction_aborted : Answer

refetched : String → Option Call → Answer
refetched sid none = constraint_violation sid
refetched sid (some existing) = answered existing

started : StartCallCommand → Database → Option (Database × Call) → Database × Answer
unfolding refetched
started c db (some (db', call)) = (db', answered call)
started c db none = (
  db,
  refetched c.telephony_call_sid (find_by_telephony_call_sid c.tenant_id c.telephony_call_sid db),
)

-- `StartCallUseCase.execute`
unfoldable pub start_call : String → StartCallCommand → Database → Database × Answer
unfolding started create
start_call id c db = started c db (create id c db)

-- `durationSeconds`; the subtraction that stops at 0 is the `max`.
unfoldable pub duration_seconds_of : ℕ → ℕ → ℕ
duration_seconds_of started_at ended_at = (ended_at + 500 - started_at) / 1000

pub record EndCallCommand : Type 0 where
  pub tenant_id : String
  pub telephony_call_sid : String
  pub status : CallStatus
  pub end_reason : Option String
  pub ended_at : ℕ
  pub transcript : Option (List TranscriptTurn)

-- A field that is undefined is not written.
given_or : Option String → Option String → Option String
given_or none old = old
given_or (some new) old = some new

-- The row as the update leaves it; `existing` is the row that `updateStatus` reads first.
unfoldable pub ended_row : EndCallCommand → Call → Call → Call
unfolding duration_seconds_of given_or
ended_row c existing r = record r {
  status = c.status;
  end_reason = given_or c.end_reason r.end_reason;
  duration_seconds = some (duration_seconds_of existing.started_at c.ended_at);
  ended_at = some c.ended_at;
}

-- `updateMany` with the compare-and-swap on the status that was read.
unfoldable pub swap_row : EndCallCommand → String → CallStatus → Call → Call → Call
unfolding ended_row
swap_row c id from_status existing r =
    if is_row c.tenant_id id r && status_eq r.status from_status then ended_row c existing r else r

-- What `updateStatus` returns or throws.
pub data Update : Type 0 where
  updated : Call → Update
  lost : Update
  no_call : Update

reread : String → Option Call → Update
reread id none = no_call
reread id (some r) = updated r

update_row : EndCallCommand → String → CallStatus → Option Call → Database → Database × Update
unfolding reread swap_row
update_row c id from_status none db = (db, no_call)
update_row c id from_status (some existing) db =
    let db' = record db { calls = map (swap_row c id from_status existing) db.calls } in
    if any (λ r. is_row c.tenant_id id r && status_eq r.status from_status) db.calls
    then (db', reread id (find_by_id c.tenant_id id db'))
    else (db, lost)

unfoldable pub update_status : EndCallCommand → String → CallStatus → Database → Database × Update
unfolding update_row
update_status c id from_status db = update_row c id from_status (find_by_id c.tenant_id id db) db

transcript_row : String → String → TranscriptTurn → TranscriptRow
transcript_row tenant_id call_id turn = record {
  tenant_id = tenant_id;
  call_id = call_id;
  turn_index = turn.turn_index;
  speaker = turn.speaker;
  text = turn.text;
  offset_ms = or_default turn.offset_ms 0;
  confidence = turn.confidence;
}

-- The rows that `saveTranscript` inserts: none if the call has some.
unfoldable pub save_transcript :
    String → String → List TranscriptTurn → Database → List TranscriptRow
unfolding transcript_row
save_transcript tenant_id call_id turns db =
    if any (λ r. str_eq r.tenant_id tenant_id && str_eq r.call_id call_id) db.transcripts
    then []
    else map (transcript_row tenant_id call_id) turns

-- How the insert of the transcript goes; an error of the database aborts the transaction around it.
pub data Insert : Type 0 where
  inserts rejected_by_client rejected_by_database : Insert

-- The rows that `persistTranscriptBestEffort` inserts, and whether the transaction is still usable.
persisted : Insert → List TranscriptRow → List TranscriptRow × Bool
persisted inserts rows = (rows, true)
persisted rejected_by_client rows = ([], true)
persisted rejected_by_database [] = ([], true)
persisted rejected_by_database (r ∷ rows) = ([], false)

unfoldable pub persist_transcript_best_effort :
    EndCallCommand → String → Insert → Database → List TranscriptRow × Bool
unfolding persisted save_transcript
persist_transcript_best_effort c call_id saving db =
    persisted saving (save_transcript c.tenant_id call_id (or_default c.transcript []) db)

-- `resolveLostRace`
resolve_lost_race : EndCallCommand → Option Call → Answer
unfolding is_valid_transition
resolve_lost_race c none = call_not_found c.telephony_call_sid
resolve_lost_race c (some latest) =
    if status_eq latest.status c.status
    then answered latest
    else if is_valid_transition latest.status c.status
    then answered latest
    else illegal_transition latest.status c.status

-- An answer commits the rows of the transcript, and an exception rolls them back.
unfoldable pub commit : List TranscriptRow → Database × Answer → Database × Answer
commit rows (db, answered call) =
    (record db { transcripts = db.transcripts ++ rows }, answered call)
commit rows (db, a) = (db, a)

pub settle_update : EndCallCommand → String → Database × Update → Database × Answer
unfolding resolve_lost_race
settle_update c id (db, updated call) = (db, answered call)
settle_update c id (db, lost) = (db, resolve_lost_race c (find_by_id c.tenant_id id db))
settle_update c id (db, no_call) = (db, no_call_to_update id)

-- The rest of `execute` once the call has been read, on the database as it is by then.
unfoldable pub write_end :
    EndCallCommand → Call → List TranscriptRow × Bool → Database → Database × Answer
unfolding settle_update commit is_valid_transition
write_end c call (rows, usable) db =
    if status_eq call.status c.status
    then commit rows (db, answered call)
    else if is_valid_transition call.status c.status
    then (if usable
        then commit rows (settle_update c call.id (update_status c call.id call.status db))
        else (db, transaction_aborted))
    else (db, illegal_transition call.status c.status)

read_end :
    EndCallCommand → Insert → Option Call → Database → (Database → Database) → Database × Answer
unfolding write_end persist_transcript_best_effort
read_end c saving none db between = (between db, call_not_found c.telephony_call_sid)
read_end c saving (some call) db between =
    write_end c call (persist_transcript_best_effort c call.id saving db) (between db)

-- `EndCallUseCase.execute`; other requests act on the database between its read and its write.
unfoldable pub end_call :
    EndCallCommand → Insert → (Database → Database) → Database → Database × Answer
unfolding read_end
end_call c saving between db =
    read_end c saving (find_by_telephony_call_sid c.tenant_id c.telephony_call_sid db) db between
