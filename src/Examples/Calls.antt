-- ===== src/Examples/Calls.antt =====
-- The calls of one tenant, started and ended.
use ethixweb_ai_csr.Common.{
  ◌≤◌, ◌≡◌, refl, true, [], ◌∷◌, none, some, String, arith, length, filter,
}
use ethixweb_ai_csr.Calls.{
  CallStatus, in_progress, completed, abandoned, inbound, Call, Database, StartCallCommand,
  EndCallCommand, Insert, new_row, create, start_call, find_by_id, find_by_telephony_call_sid,
  answered, ended_row, duration_seconds_of, is_row, is_terminal_call_status, allowed_transitions,
}
use ethixweb_ai_csr.Calls.Starting.{start_call_twice}
use ethixweb_ai_csr.Calls.Ending.{end_call_answers, end_call_ends}
use ethixweb_ai_csr.Calls.Races.{starts, writes, run, run_ended}

abbrev rings : StartCallCommand
rings = record {
  tenant_id = "t";
  business_id = "b";
  customer_id = none;
  direction = inbound;
  from_number = "+1";
  to_number = "+2";
  telephony_call_sid = "CA1";
  started_at = 1000;
}

abbrev nothing : Database
nothing = record { calls = []; transcripts = [] }

rings_answered : (start_call "1" rings nothing).1 ≡ answered (new_row "1" rings)
unfolding start_call create
rings_answered = refl

start_call_twice_example :
    start_call "2" (record rings { from_number = "+9" }) (start_call "1" rings nothing).0
    ≡ ((start_call "1" rings nothing).0, answered (new_row "1" rings))
start_call_twice_example =
    start_call_twice "1" "2" rings (record rings { from_number = "+9" }) nothing (new_row "1" rings)
      refl refl rings_answered

abbrev going : Call
going = record {
  id = "1";
  tenant_id = "t";
  business_id = "b";
  customer_id = none;
  direction = inbound;
  from_number = "+1";
  to_number = "+2";
  telephony_call_sid = "CA1";
  status = in_progress;
  end_reason = none;
  duration_seconds = none;
  started_at = 1000;
  ended_at = none;
}

abbrev one_call : Database
one_call = record { calls = going ∷ []; transcripts = [] }

abbrev hang_up : CallStatus → EndCallCommand
hang_up status = record {
  tenant_id = "t";
  telephony_call_sid = "CA1";
  status = status;
  end_reason = some "hangup";
  ended_at = 62000;
  transcript = none;
}

going_by_sid : find_by_telephony_call_sid "t" "CA1" one_call ≡ some going
unfolding find_by_telephony_call_sid
going_by_sid = refl

going_by_id : find_by_id "t" "1" one_call ≡ some going
unfolding find_by_id
going_by_id = refl

duration_test : duration_seconds_of 1000 62000 ≡ 61
unfolding duration_seconds_of
duration_test = refl

one_call-single : (id : String) → length (filter (is_row "t" id) one_call.calls) ≤ 1
one_call-single id = ground arith

end_call_answers_example : (ended_row (hang_up completed) going going).status ≡ completed
end_call_answers_example =
    end_call_answers (hang_up completed) Insert.inserts (λ db. db) one_call
      (ended_row (hang_up completed) going going) one_call-single
      (end_call_ends (hang_up completed) one_call going going_by_sid going_by_id refl
        (λ e. ground arith)).0

abbrev dropped : Call
dropped = record going { status = abandoned }

abbrev ended_call : Database
ended_call = record { calls = dropped ∷ []; transcripts = [] }

dropped_by_id : find_by_id "t" "1" ended_call ≡ some dropped
unfolding find_by_id
dropped_by_id = refl

dropped_terminal : is_terminal_call_status abandoned ≡ true
unfolding is_terminal_call_status allowed_transitions
dropped_terminal = refl

run_ended_example :
    find_by_id "t" "1"
      (run (starts "2" rings ∷ writes (hang_up completed) going ([], true) ∷ []) ended_call)
    ≡ some dropped
run_ended_example =
    run_ended (starts "2" rings ∷ writes (hang_up completed) going ([], true) ∷ []) ended_call "t"
      "1" dropped dropped_by_id dropped_terminal
