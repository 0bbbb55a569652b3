-- ===== src/Conversation/States.antt =====
-- domain/conversation-state.ts of apps/voice-orchestrator/src/modules/conversation
use ethixweb_ai_csr.Common.{ℕ, Bool, true, List, [], ◌∷◌, any, if◌then◌else◌, ◌==◌, length}

pub data ConversationState : Type 0 where
  greeting identifying qualifying emergency_check emergency_transfer confirming closing :
      ConversationState
  human_requested voicemail silence ended : ConversationState

-- The place of a state in `CONVERSATION_STATES`.
abbrev pub position : ConversationState → ℕ
position greeting = 0
position identifying = 1
position qualifying = 2
position emergency_check = 3
position emergency_transfer = 4
position confirming = 5
position closing = 6
position human_requested = 7
position voicemail = 8
position silence = 9
position ended = 10

-- `===` on states.
abbrev pub state_eq : ConversationState → ConversationState → Bool
state_eq s t = position s == position t

-- `ALLOWED_TRANSITIONS`
unfoldable pub allowed_transitions : ConversationState → List ConversationState
allowed_transitions greeting = identifying ∷ silence ∷ []
allowed_transitions identifying = qualifying ∷ silence ∷ []
allowed_transitions qualifying =
    emergency_check ∷ confirming ∷ human_requested ∷ voicemail ∷ silence ∷ []
allowed_transitions emergency_check = emergency_transfer ∷ qualifying ∷ []
allowed_transitions emergency_transfer = ended ∷ []
allowed_transitions confirming = closing ∷ qualifying ∷ []
allowed_transitions closing = ended ∷ []
allowed_transitions human_requested = ended ∷ []
allowed_transitions voicemail = ended ∷ []
allowed_transitions silence = qualifying ∷ voicemail ∷ []
allowed_transitions ended = []

-- `assertValidConversationTransition`: whether it does not throw.
unfoldable pub is_valid_transition : ConversationState → ConversationState → Bool
unfolding allowed_transitions
is_valid_transition start target =
    if state_eq start target then true else any (λ s. state_eq s target) (allowed_transitions start)

unfoldable pub is_terminal_state : ConversationState → Bool
unfolding allowed_transitions
is_terminal_state state = length (allowed_transitions state) == 0
