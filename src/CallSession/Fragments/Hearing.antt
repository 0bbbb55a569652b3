-- ===== src/CallSession/Fragments/Hearing.antt =====
-- call-session-orchestrator.ts: what a commit, a barge-in and a further transcript do to the words of the caller.
use mathlib.Core.List.{append_assoc, append-nil}
use ethixweb_ai_csr.Common.{
  ℕ, ◌∙◌, ◌≡◌, refl, sym, ap, Bool, true, false, Bool-cases, inl, inr, List, [], ◌∷◌, ◌++◌, Option,
  none, some, if◌then◌else◌, without_space, concat, concat-append, without_space-append,
  without_space-trim_start, without_space-trim_end, trim_start, trim_end, ◌&&◌,
}
use ethixweb_ai_csr.Conversation.Records.{Text}
use ethixweb_ai_csr.CallSession.{FinalTranscript, Session, handle_barge_in}
use ethixweb_ai_csr.CallSession.Floor.{SameWords, SameWords-refl, handle_barge_in-SameWords}
use ethixweb_ai_csr.CallSession.Fragments.Turned.{Goes, Turned, start_turn-Turned}
use ethixweb_ai_csr.CallSession.Fragments.{
  Event, receives, hears_onset, fires_fragment_timer, fires_barge_in_timer, settles, replays,
  hears_words, says, sends_audio, stops, ends, join_fragments, joined, start_turn, committed,
  commit_pending_fragment, ends_with_digit, starts_with_digit,
}

abbrev pub pending_words : Option FinalTranscript → Text
pending_words none = []
pending_words (some f) = without_space f.transcript

-- What has been heard of the caller: the words of the turns, and those that are held.
abbrev pub words_of : Session → Text
words_of st = without_space (concat st.turns) ++ pending_words st.pending_fragment

pub join_fragments-without_space :
    (pending next : Text)
    → without_space (join_fragments pending next) ≡ without_space pending ++ without_space next
unfolding join_fragments
join_fragments-without_space pending next =
    let left = trim_end pending in
    let right = trim_start next in
    let both : without_space (left ++ right) ≡ without_space pending ++ without_space next =
      without_space-append left right
      ∙ ap (λ t. t ++ without_space right) (without_space-trim_end pending)
      ∙ ap (λ t. without_space pending ++ t) (without_space-trim_start next) in
    let spaced : without_space (left ++ (32 ∷ right)) ≡ without_space (left ++ right) =
      without_space-append left (32 ∷ right) ∙ sym (without_space-append left right) in
    elim (Bool-cases (ends_with_digit left && starts_with_digit right)) [
      | inl digits ↦ rw digits both
      | inr apart ↦ rw apart (
          without_space-trim_end (trim_start (left ++ (32 ∷ right)))
          ∙ without_space-trim_start (left ++ (32 ∷ right))
          ∙ spaced
          ∙ both)
    ]

-- The session goes on, and has heard these words besides.
pub record Hears (st st' : Session) (heard : Text) : Type 0 where
  pub goes : Goes st'
  pub words : words_of st' ≡ words_of st ++ heard

pub SameWords-Hears : (st st' : Session) → SameWords st st' → Goes st → Hears st st' []
SameWords-Hears st st' same g = record {
  goes = record { there = rw same.conversation_id g.there; running = rw same.ended g.running };
  words = rw (same.turns, same.pending) (sym (append-nil (words_of st)));
}

pub Hears-then :
    (st st' st'' : Session) (heard : Text)
    → Hears st st' heard
    → Hears st' st'' []
    → Hears st st'' heard
Hears-then st st' st'' heard h later = record {
  goes = later.goes;
  words = later.words ∙ append-nil (words_of st') ∙ h.words;
}

pub Turned-Hears :
    (transcript : Text) (st st' : Session)
    → Goes st
    → st.pending_fragment ≡ none
    → Turned transcript st st'
    → Hears st st' (without_space transcript)
Turned-Hears transcript st st' g held t = record {
  goes = record { there = rw t.conversation_id g.there; running = rw t.ended g.running };
  words =
      rw (t.turns, t.pending, held)
        (append-nil (without_space (concat (st.turns ++ transcript ∷ [])))
          ∙ ap without_space (concat-append st.turns transcript)
          ∙ without_space-append (concat st.turns) transcript
          ∙ ap (λ t. t ++ without_space transcript)
              (sym (append-nil (without_space (concat st.turns)))));
}

pub committed-Hears :
    (held : Option FinalTranscript) (now : ℕ) (st : Session)
    → Goes st
    → st.pending_fragment ≡ none
    → Hears st (committed held now st) (pending_words held)
unfolding committed
committed-Hears none now st g e = record { goes = g; words = sym (append-nil (words_of st)) }
committed-Hears (some f) now st g e =
    Turned-Hears f.transcript st (start_turn f now st) g e (start_turn-Turned f now st g)

-- A commit moves the words that are held into a turn.
pub commit_pending_fragment-Hears :
    (now : ℕ) (st : Session) → Goes st → Hears st (commit_pending_fragment now st) []
unfolding commit_pending_fragment
commit_pending_fragment-Hears now st g =
    let bare = record st { pending_fragment = none } in
    let h =
      committed-Hears st.pending_fragment now bare (record { there = g.there; running = g.running })
        refl in
    record {
      goes = h.goes;
      words =
          h.words
          ∙ ap (λ t. t ++ pending_words st.pending_fragment)
              (append-nil (without_space (concat st.turns)))
          ∙ sym (append-nil (words_of st));
    }

pub Hears-same :
    (st st' : Session)
    → Goes st
    → st'.conversation_id ≡ st.conversation_id
    → st'.ended ≡ st.ended
    → st'.turns ≡ st.turns
    → st'.pending_fragment ≡ st.pending_fragment
    → Hears st st' []
Hears-same st st' g id over turns pending = record {
  goes = record { there = rw id g.there; running = rw over g.running };
  words = rw (turns, pending) (sym (append-nil (words_of st)));
}

-- A session that keeps its words before it hears others.
pub Hears-after :
    (st st' st'' : Session) (heard : Text)
    → Hears st st' []
    → Hears st' st'' heard
    → Hears st st'' heard
Hears-after st st' st'' heard h later = record {
  goes = later.goes;
  words = later.words ∙ ap (λ t. t ++ heard) (h.words ∙ append-nil (words_of st));
}

pub barged-Hears :
    (barges : Bool) (now : ℕ) (st : Session)
    → Goes st
    → Hears st (if barges then handle_barge_in now st else st) []
barged-Hears true now st g =
    SameWords-Hears st (handle_barge_in now st) (handle_barge_in-SameWords now st) g
barged-Hears false now st g = SameWords-Hears st st (SameWords-refl st) g

pub joined-words :
    (held : Option FinalTranscript) (result : FinalTranscript)
    → pending_words (some (joined held result))
      ≡ pending_words held ++ without_space result.transcript
unfolding joined
joined-words none result = refl
joined-words (some f) result = join_fragments-without_space f.transcript result.transcript

-- What is held takes in what has been heard.
pub taken-Hears :
    (result : FinalTranscript) (st : Session)
    → Goes st
    → Hears st
        (record st {
          pending_fragment = some (joined st.pending_fragment result);
          fragment_coalesce_timer = none;
        })
        (without_space result.transcript)
taken-Hears result st g = record {
  goes = record { there = g.there; running = g.running };
  words =
      ap (λ t. without_space (concat st.turns) ++ t) (joined-words st.pending_fragment result)
      ∙ sym (
          append_assoc (without_space (concat st.turns)) (pending_words st.pending_fragment)
            (without_space result.transcript));
}

-- The transcript that an event brings.
abbrev pub heard_in : Event → Text
heard_in (receives result) = result.transcript
heard_in hears_onset = []
heard_in fires_fragment_timer = []
heard_in fires_barge_in_timer = []
heard_in settles = []
heard_in (hears_words text) = []
heard_in (says text) = []
heard_in (sends_audio bytes) = []
heard_in (stops own) = []
heard_in (ends end_reason) = []
heard_in (replays result finals_at_start deferrals) = []

abbrev pub received : List (ℕ × Event) → List Text
received [] = []
received ((now, e) ∷ es) = heard_in e ∷ received es

abbrev pub IsBeforeEnd : ℕ × Event → Type 0
IsBeforeEnd (now, ends end_reason) = ⊥
IsBeforeEnd (now, e) = Unit
