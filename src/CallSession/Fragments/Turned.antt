-- ===== src/CallSession/Fragments/Turned.antt =====
-- call-session-orchestrator.ts: what the start of a turn changes.
use ethixweb_ai_csr.Common.{
  ℕ, ◌≡◌, refl, ap, ◌⊎◌, inl, inr, Bool, true, false, not, ◌&&◌, if◌then◌else◌, [], ◌∷◌, ◌++◌,
  is_some, arith, subst, sym,
}
use ethixweb_ai_csr.Conversation.Records.{Text}
use ethixweb_ai_csr.CallSession.{FinalTranscript, Session}
use ethixweb_ai_csr.CallSession.Floor.{handle_barge_in-SameWords, SameWords, SameWords-refl}
use ethixweb_ai_csr.CallSession.Fragments.{
  start_turn, begun, counted_apart, replay_if_nothing_follows,
}

-- A session that goes on: its conversation is there and has not ended.
pub record Goes (st : Session) : Type 0 where
  pub there : is_some st.conversation_id ≡ true
  pub running : st.ended ≡ false

-- A turn has been started, and what the words of the caller depend on is left alone besides.
pub record Turned (transcript : Text) (st st' : Session) : Type 0 where
  pub conversation_id : st'.conversation_id ≡ st.conversation_id
  pub ended : st'.ended ≡ st.ended
  pub last_final : st'.last_final_transcript_at ≡ st.last_final_transcript_at
  pub pending : st'.pending_fragment ≡ st.pending_fragment
  pub timer : st'.fragment_coalesce_timer ≡ st.fragment_coalesce_timer
  pub hold : st'.fragment_hold ≡ st.fragment_hold
  pub turns : st'.turns ≡ st.turns ++ transcript ∷ []

begun-Turned :
    (result : FinalTranscript) (now : ℕ) (st : Session)
    → Turned result.transcript st (begun result now st)
unfolding begun
begun-Turned result now st =
    let same = handle_barge_in-SameWords now (record st { turn_latency = true }) in
    record {
      conversation_id = same.conversation_id;
      ended = same.ended;
      last_final = same.last_final;
      pending = same.pending;
      timer = same.timer;
      hold = same.hold;
      turns = ap (λ t. t ++ result.transcript ∷ []) same.turns;
    }

-- A turn is started where the session goes on, and else nothing happens.
pub start_turn_cases :
    (result : FinalTranscript) (now : ℕ) (st : Session)
    → ((is_some st.conversation_id && not st.ended ≡ true)
        × Turned result.transcript st (start_turn result now st))
      ⊎ ((is_some st.conversation_id && not st.ended ≡ false) × (start_turn result now st ≡ st))
unfolding start_turn
start_turn_cases result now st = split (is_some st.conversation_id && not st.ended)
  where
    split :
        (goes : Bool)
        → ((goes ≡ true) × Turned result.transcript st (if goes then begun result now st else st))
          ⊎ ((goes ≡ false) × ((if goes then begun result now st else st) ≡ st))
    split true = inl (refl, begun-Turned result now st)
    split false = inr (refl, refl)

pub start_turn-Turned :
    (result : FinalTranscript) (now : ℕ) (st : Session)
    → Goes st
    → Turned result.transcript st (start_turn result now st)
start_turn-Turned result now st g = elim (start_turn_cases result now st) [
  | inl (goes, turned) ↦ turned
  | inr (stays, same) ↦
      absurd (let there = g.there in let running = g.running in ground (arith, stays))
]

counted_apart-SameWords :
    (transcript : Text) (st st' : Session)
    → Turned transcript st st'
    → SameWords st (counted_apart st st')
unfolding counted_apart
counted_apart-SameWords transcript st st' t = record {
  conversation_id = t.conversation_id;
  ended = t.ended;
  last_final = t.last_final;
  pending = t.pending;
  timer = t.timer;
  hold = t.hold;
  turns = refl;
}

replayed_same : (st : Session) → SameWords st (counted_apart st st)
unfolding counted_apart
replayed_same st = record {
  conversation_id = refl;
  ended = refl;
  last_final = refl;
  pending = refl;
  timer = refl;
  hold = refl;
  turns = refl;
}

-- A replay leaves the words that are held, and the turns on new words, as they are.
pub replay_if_nothing_follows-SameWords :
    (result : FinalTranscript) (finals_at_start deferrals now : ℕ) (st : Session)
    → SameWords st (replay_if_nothing_follows result finals_at_start deferrals now st)
unfolding replay_if_nothing_follows
replay_if_nothing_follows-SameWords result finals_at_start deferrals now st =
    let st' = start_turn result now st in
    let again : SameWords st (counted_apart st st') = elim (start_turn_cases result now st) [
      | inl (goes, turned) ↦ counted_apart-SameWords result.transcript st st' turned
      | inr (stays, same) ↦
          subst (λ x. SameWords st (counted_apart st x)) (sym same) (replayed_same st)
    ] in
    unless _ _ st (counted_apart st st') again
  where
    unless :
        (followed waits : Bool) (st st' : Session)
        → SameWords st st'
        → SameWords st (if followed then st else if waits then st else st')
    unless true waits st st' same = SameWords-refl st
    unless false true st st' same = SameWords-refl st
    unless false false st st' same = same
