-- ===== src/Calls/Races.antt =====
-- Calls that are started and ended by many requests at once.
use ethixweb_ai_csr.Common.{
  ◌≡◌, ap, ◌∙◌, ◌⊎◌, inl, inr, Bool, true, false, Bool-cases, List, [], ◌∷◌, some, String, arith,
  find, find-map, find-append, map,
}
use ethixweb_ai_csr.Calls.{
  in_progress, Call, Database, StartCallCommand, EndCallCommand, status_eq, is_valid_transition,
  allowed_transitions, is_row, find_by_id, new_row, create, started, start_call, answered, swap_row,
  update_status, settle_update, write_end, TranscriptRow, is_terminal_call_status,
}
use ethixweb_ai_csr.Calls.Rows.{
  valid_from, swap_row-is_row, update_status-calls, settle_update-calls, commit-calls,
  swap_row-ended,
}

-- What other requests do to the database: they start calls, and write the ends of calls that they have
-- read at any time before.
pub data Event : Type 0 where
  starts : String → StartCallCommand → Event
  writes : EndCallCommand → Call → List TranscriptRow × Bool → Event

pub apply : Event → Database → Database
apply (starts id c) db = (start_call id c db).0
apply (writes c call rows) db = (write_end c call rows db).0

pub run : List Event → Database → Database
run [] db = db
run (e ∷ es) db = run es (apply e db)

-- What the writing of an end does to the rows: nothing, or the compare-and-swap from `in_progress`.
write_end-calls :
    (c : EndCallCommand) (call : Call) (rows : List TranscriptRow × Bool) (db : Database)
    → ((write_end c call rows db).0.calls ≡ db.calls)
      ⊎ ((existing : Call) × ((write_end c call rows db).0.calls
            ≡ map (swap_row c call.id in_progress existing) db.calls))
unfolding write_end
write_end-calls c call (rows, usable) db =
    let updated_calls =
      settle_update-calls c call.id (update_status c call.id call.status db).0
        (update_status c call.id call.status db).1 in
    let kept =
      commit-calls rows (settle_update c call.id (update_status c call.id call.status db)).0
        (settle_update c call.id (update_status c call.id call.status db)).1 in
    elim (Bool-cases (status_eq call.status c.status)) [
      | inl same ↦ inl (ground (arith, commit-calls rows db (answered call)))
      | inr differ ↦ elim (Bool-cases (is_valid_transition call.status c.status)) [
        | inl valid ↦ elim (Bool-cases usable) [
          | inl good ↦ elim (update_status-calls c call.id call.status db) [
            | inl same ↦ inl (ground (arith, kept, updated_calls))
            | inr (existing, e) ↦ inr (
              existing,
              ground (arith, kept, updated_calls, valid_from call.status c.status differ valid),
            )
          ]
          | inr bad ↦ inl (ground arith)
        ]
        | inr invalid ↦ inl (ground arith)
      ]
    ]

apply_ended :
    (e : Event) (db : Database) (t id : String) (r : Call)
    → find (is_row t id) db.calls ≡ some r
    → status_eq r.status in_progress ≡ false
    → find (is_row t id) (apply e db).calls ≡ some r
unfolding apply start_call started create
apply_ended (starts i c) db t id r found done =
    ground (arith, find-append (is_row t id) db.calls (new_row i c ∷ []) r found)
apply_ended (writes c call rows) db t id r found done = elim (write_end-calls c call rows db) [
  | inl same ↦ rw same found
  | inr (existing, e) ↦ rw e (
      find-map (is_row t id) (swap_row c call.id in_progress existing) db.calls r
        (swap_row-is_row c call.id in_progress existing t id) found
      ∙ ap some (swap_row-ended c call.id existing r done))
]

-- A call that has ended never changes again: however many requests start calls and write the ends of
-- calls that they have read at any time before, its row stays exactly what it is.
pub run_ended :
    (es : List Event) (db : Database) (t id : String) (r : Call)
    → find_by_id t id db ≡ some r
    → is_terminal_call_status r.status ≡ true
    → find_by_id t id (run es db) ≡ some r
unfolding run find_by_id is_terminal_call_status allowed_transitions
run_ended [] db t id r found done = found
run_ended (e ∷ es) db t id r found done =
    run_ended es (apply e db) t id r (apply_ended e db t id r found (ground arith)) done
