-- ===== src/Calls/Starting.antt =====
-- start-call.use-case.ts: how often a call is started.
use ethixweb_ai_csr.Common.{
  ◌≡◌, ◌∙◌, inl, inr, true, false, Bool-cases, List, [], ◌∷◌, ◌++◌, length, filter, ◌≤◌,
  length-filter_none, length-filter-append, some, String, arith, eq_iff, str_eq, any, find,
  any-append, find-append_none, find-none, ◌&&◌,
}
use ethixweb_ai_csr.Calls.{
  Call, Database, StartCallCommand, new_row, create, find_by_telephony_call_sid, answered,
  refetched, started, start_call,
}

started_again :
    (id' : String) (again : StartCallCommand) (db : Database) (call : Call)
    → any (λ r. str_eq r.telephony_call_sid again.telephony_call_sid) db.calls ≡ true
    → find_by_telephony_call_sid again.tenant_id again.telephony_call_sid db ≡ some call
    → start_call id' again db ≡ (db, answered call)
unfolding start_call started create refetched
started_again id' again db call taken found = ground arith

start_call_creates :
    (id : String) (c : StartCallCommand) (db : Database)
    → any (λ r. str_eq r.telephony_call_sid c.telephony_call_sid) db.calls ≡ false
    → start_call id c db
      ≡ (record db { calls = db.calls ++ new_row id c ∷ [] }, answered (new_row id c))
unfolding start_call started create
start_call_creates id c db free = ground arith

new_row_taken :
    (id : String) (c : StartCallCommand) (calls : List Call)
    → any (λ r. str_eq r.telephony_call_sid c.telephony_call_sid) (calls ++ new_row id c ∷ [])
      ≡ true
unfolding new_row
new_row_taken id c calls = ground (
  arith,
  any-append (λ r. str_eq r.telephony_call_sid c.telephony_call_sid) calls (new_row id c ∷ []),
  eq_iff c.telephony_call_sid c.telephony_call_sid,
)

new_row_found :
    (id : String) (c : StartCallCommand) (calls : List Call)
    → any (λ r. str_eq r.telephony_call_sid c.telephony_call_sid) calls ≡ false
    → find
        (λ r. str_eq r.telephony_call_sid c.telephony_call_sid && str_eq r.tenant_id c.tenant_id)
        (calls ++ new_row id c ∷ [])
      ≡ some (new_row id c)
unfolding new_row
new_row_found id c calls free =
    let p = λ (r : Call). str_eq r.telephony_call_sid c.telephony_call_sid in
    let q = λ (r : Call). str_eq r.tenant_id c.tenant_id in
    find-append_none (λ r. p r && q r) calls (new_row id c ∷ []) (find-none p q calls free)
    ∙ ground
        (arith, eq_iff c.telephony_call_sid c.telephony_call_sid, eq_iff c.tenant_id c.tenant_id)

-- The rows of one `telephony_call_sid`.
abbrev pub HasUniqueSids : Database → Type 0
HasUniqueSids db =
    (sid : String) → length (filter (λ r. str_eq r.telephony_call_sid sid) db.calls) ≤ 1

started_row_shown :
    (id : String) (c : StartCallCommand) (db : Database) (call : Call)
    → (start_call id c db).1 ≡ answered call
    → (any (λ r. str_eq r.telephony_call_sid c.telephony_call_sid) (start_call id c db).0.calls
        ≡ true)
      × (find_by_telephony_call_sid c.tenant_id c.telephony_call_sid (start_call id c db).0
          ≡ some call)
unfolding find_by_telephony_call_sid start_call started create refetched
started_row_shown id c db call e =
    elim (Bool-cases (any (λ r. str_eq r.telephony_call_sid c.telephony_call_sid) db.calls)) [
      | inl taken ↦ ground arith
      | inr free ↦ ground (arith, new_row_taken id c db.calls, new_row_found id c db.calls free)
    ]

-- Once a call has been started, starting one with the same `telephony_call_sid` for the same tenant
-- again, whatever else the second delivery says, answers with the call of the first and changes
-- nothing.
pub start_call_twice :
    (id id' : String) (c again : StartCallCommand) (db : Database) (call : Call)
    → again.tenant_id ≡ c.tenant_id
    → again.telephony_call_sid ≡ c.telephony_call_sid
    → (start_call id c db).1 ≡ answered call
    → start_call id' again (start_call id c db).0 ≡ ((start_call id c db).0, answered call)
start_call_twice id id' c again db call t k e =
    let (taken, found) = started_row_shown id c db call e in
    started_again id' again (start_call id c db).0 call (rw k taken) (rw t (rw k found))

start_call_other :
    (id : String) (c : StartCallCommand) (sid : String) (calls : List Call)
    → length (filter (λ r. str_eq r.telephony_call_sid sid) calls) ≤ 1
    → any (λ r. str_eq r.telephony_call_sid c.telephony_call_sid) calls ≡ false
    → length (filter (λ r. str_eq r.telephony_call_sid sid) (calls ++ new_row id c ∷ [])) ≤ 1
unfolding new_row
start_call_other id c sid calls h free =
    let p = λ (r : Call). str_eq r.telephony_call_sid sid in
    elim (Bool-cases (str_eq c.telephony_call_sid sid)) [
      | inl same ↦
          let none_yet =
            length-filter_none p calls (rw (← (eq_iff c.telephony_call_sid sid).0 same) free) in
          ground (arith, length-filter-append p calls (new_row id c ∷ []), none_yet)
      | inr differ ↦ ground (arith, length-filter-append p calls (new_row id c ∷ []))
    ]

-- Starting a call keeps the rows free of two with the same `telephony_call_sid`.
pub start_call-HasUniqueSids :
    (id : String) (c : StartCallCommand) (db : Database)
    → HasUniqueSids db
    → HasUniqueSids (start_call id c db).0
unfolding start_call started create
start_call-HasUniqueSids id c db h sid =
    elim (Bool-cases (any (λ r. str_eq r.telephony_call_sid c.telephony_call_sid) db.calls)) [
      | inl taken ↦ rw taken (h sid)
      | inr free ↦ rw free (start_call_other id c sid db.calls (h sid) free)
    ]
