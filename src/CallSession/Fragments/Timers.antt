-- ===== src/CallSession/Fragments/Timers.antt =====
-- call-session-orchestrator.ts: the timer of a hold, where it is armed, extended, fires and is cleared.
use ethixweb_ai_csr.Common.{
  String, ℕ, ◌+◌, ◌-◌, ◌≤◌, ◌∙◌, ◌≡◌, refl, sym, ap, subst, max, Bool, true, false, Bool-cases, inl,
  inr, Option, none, some, arith, is_some, if◌then◌else◌, leb, ltb,
}
use ethixweb_ai_csr.CallSession.{
  FinalTranscript, Session, handle_barge_in, on_call_end, ended_session,
}
use ethixweb_ai_csr.CallSession.Floor.{handle_barge_in-SameWords}
use ethixweb_ai_csr.CallSession.Fragments.Turned.{start_turn_cases}
use ethixweb_ai_csr.CallSession.Fragments.{
  start_turn, committed, commit_pending_fragment, due_or_not, arm_fragment_hold, extended,
  extend_hold_while_speaking, max_fragment_hold_ms, speaking_hold_extension_ms,
}

-- The hold is due 3.5 seconds after the last finalized transcript, or 11.5 seconds after it began, by the
-- later of the two.
abbrev pub IsDueBy : Option ℕ → Option ℕ → Option ℕ → Type 0
IsDueBy none hold last_final = Unit
IsDueBy (some due) (some since) (some last) = due ≤ max (last + 3500) (since + 11500)
IsDueBy (some due) none last_final = ⊥
IsDueBy (some due) (some since) none = ⊥

pub record IsHeld (st : Session) : Type 0 where
  pub pending : is_some st.pending_fragment ≡ is_some st.fragment_coalesce_timer
  pub hold : is_some st.fragment_hold ≡ is_some st.fragment_coalesce_timer
  pub due : IsDueBy st.fragment_coalesce_timer st.fragment_hold st.last_final_transcript_at

pub IsHeld-same :
    (st st' : Session)
    → st'.pending_fragment ≡ st.pending_fragment
    → st'.fragment_coalesce_timer ≡ st.fragment_coalesce_timer
    → st'.fragment_hold ≡ st.fragment_hold
    → st'.last_final_transcript_at ≡ st.last_final_transcript_at
    → IsHeld st
    → IsHeld st'
IsHeld-same st st' pending timer hold last h = record {
  pending = rw (pending, timer) h.pending;
  hold = rw (hold, timer) h.hold;
  due = rw (timer, hold, last) h.due;
}

pub barged-IsHeld :
    (barges : Bool) (now : ℕ) (st : Session)
    → IsHeld st
    → IsHeld (if barges then handle_barge_in now st else st)
barged-IsHeld true now st h =
    let same = handle_barge_in-SameWords now st in
    IsHeld-same st (handle_barge_in now st) same.pending same.timer same.hold same.last_final h
barged-IsHeld false now st h = h

-- Nothing is held.
pub idle-IsHeld :
    (st : Session)
    → st.pending_fragment ≡ none
    → st.fragment_coalesce_timer ≡ none
    → st.fragment_hold ≡ none
    → IsHeld st
idle-IsHeld st pending timer hold = record {
  pending = rw (pending, timer) refl;
  hold = rw (hold, timer) refl;
  due = rw timer tt;
}

pub commit_pending_fragment-IsHeld :
    (now : ℕ) (st : Session)
    → st.fragment_coalesce_timer ≡ none
    → st.fragment_hold ≡ none
    → IsHeld (commit_pending_fragment now st)
unfolding commit_pending_fragment committed
commit_pending_fragment-IsHeld now st timer hold = by_pending st.pending_fragment
  where
    bare : Session
    bare = record st { pending_fragment = none }

    by_pending : (held : Option FinalTranscript) → IsHeld (committed held now bare)
    by_pending none = idle-IsHeld bare refl timer hold
    by_pending (some f) = elim (start_turn_cases f now bare) [
      | inl (goes, turned) ↦
          idle-IsHeld (start_turn f now bare) turned.pending (turned.timer ∙ timer)
            (turned.hold ∙ hold)
      | inr (stays, same) ↦ subst IsHeld (sym same) (idle-IsHeld bare refl timer hold)
    ]

pub arm_fragment_hold-IsHeld :
    (hold_ms now : ℕ) (st : Session)
    → hold_ms ≤ 3500
    → is_some st.pending_fragment ≡ true
    → st.last_final_transcript_at ≡ some now
    → IsHeld (arm_fragment_hold hold_ms now st)
unfolding arm_fragment_hold
arm_fragment_hold-IsHeld hold_ms now st short pending last = record {
  pending = pending;
  hold = refl;
  due = rw last (ground (arith, short));
}

pub lasting :
    (timer hold last : Option ℕ) (since due : ℕ)
    → timer ≡ some due
    → hold ≡ some since
    → IsDueBy timer hold last
    → (t : ℕ) × (last ≡ some t)
lasting none hold last since due e e' h = absurd (ground (arith, e))
lasting (some due') none last since due e e' h = absurd h
lasting (some due') (some since') none since due e e' h = absurd h
lasting (some due') (some since') (some t) since due e e' h = (t, refl)

pub extended-IsHeld :
    (hold timer : Option ℕ) (now : ℕ) (st : Session)
    → st.fragment_hold ≡ hold
    → st.fragment_coalesce_timer ≡ timer
    → IsHeld st
    → IsHeld (extended hold timer now st)
unfolding extended arm_fragment_hold
extended-IsHeld none timer now st e e' h = h
extended-IsHeld (some since) none now st e e' h = h
extended-IsHeld (some since) (some due) now st e e' h =
    elim (Bool-cases (ltb max_fragment_hold_ms (now - since))) [
      | inl long ↦ rw long h
      | inr short ↦
          let (t, last) =
            lasting st.fragment_coalesce_timer st.fragment_hold st.last_final_transcript_at since
              due e' e h.due in
          let armed : IsHeld (arm_fragment_hold speaking_hold_extension_ms now st) = record {
            pending = h.pending ∙ ap is_some e';
            hold = refl;
            due = rw (e, last) (ground (arith, short));
          } in
          rw short armed
    ]

pub extend_hold_while_speaking-IsHeld :
    (now : ℕ) (st : Session) → IsHeld st → IsHeld (extend_hold_while_speaking now st)
unfolding extend_hold_while_speaking
extend_hold_while_speaking-IsHeld now st h =
    extended-IsHeld st.fragment_hold st.fragment_coalesce_timer now st refl refl h

pub due_or_not-IsHeld :
    (timer : Option ℕ) (now : ℕ) (st : Session) → IsHeld st → IsHeld (due_or_not timer now st)
unfolding due_or_not
due_or_not-IsHeld none now st h = h
due_or_not-IsHeld (some due) now st h =
    let bare = record st { fragment_coalesce_timer = none; fragment_hold = none } in
    elim (Bool-cases (leb due now)) [
      | inl fires ↦ rw fires (commit_pending_fragment-IsHeld now bare refl refl)
      | inr waits ↦ rw waits h
    ]

pub on_call_end-IsHeld :
    (end_reason : String) (st : Session) → IsHeld st → IsHeld (on_call_end end_reason st)
unfolding on_call_end ended_session
on_call_end-IsHeld end_reason st h = elim (Bool-cases st.ended) [
  | inl over ↦ let same : on_call_end end_reason st ≡ st = rw over refl in subst IsHeld (sym same) h
  | inr running ↦
      idle-IsHeld (on_call_end end_reason st) (ground (arith, running)) (ground (arith, running))
        (ground (arith, running))
]
