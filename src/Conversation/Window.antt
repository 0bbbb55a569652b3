-- ===== src/Conversation/Window.antt =====
-- domain/context-window.ts of apps/voice-orchestrator/src/modules/conversation
pub mod Summaries
pub mod Pairs
pub mod Requests
use ethixweb_ai_csr.Common.{
  ℕ, zero, suc, ◌+◌, ◌-◌, Bool, true, false, ◌&&◌, List, [], ◌∷◌, ◌++◌, Option, none, some, map,
  codes, filter, drop, take, get_elem?, length, leb, ltb, ◌==◌, if◌then◌else◌, decimal, behind,
  has_words, join_codes,
}
use ethixweb_ai_csr.Conversation.Records.{Text, AiRole, system, user, assistant, tool, AiMessage}

abbrev pub default_max_messages : ℕ
default_max_messages = 40

abbrev pub recent_keep : ℕ
recent_keep = 20

abbrev pub max_carried_summary_chars : ℕ
max_carried_summary_chars = 4000

abbrev pub summary_truncation_marker : Text
summary_truncation_marker = codes "[...earlier detail dropped to stay within the window] "

or_all : Text → Option Text → Text
or_all tail none = tail
or_all tail (some rest) = rest

-- The length of the text is compared, and the last 4000 characters of it are taken.
unfoldable pub cap_summary_length : Text → Text
unfolding or_all
cap_summary_length body =
    let tail = drop (length body - max_carried_summary_chars) body in
    if leb (length body) max_carried_summary_chars
    then body
    else summary_truncation_marker ++ or_all tail (behind tail (codes " | "))

abbrev pub is_tool : AiRole → Bool
is_tool system = false
is_tool user = false
is_tool assistant = false
is_tool tool = true

line_of : AiRole → Text → Text
line_of system content = content
line_of user content = codes "user: " ++ content
line_of assistant content = codes "assistant: " ++ content
line_of tool content = []

module _ {J : Type 0} where
  pub is_tool_at : Option (AiMessage J) → Bool
  is_tool_at none = false
  is_tool_at (some m) = is_tool m.role

  -- The loop stops at index 0, behind the end, and at any message that is no tool's result.
  unfoldable pub find_safe_cut_index : List (AiMessage J) → ℕ → ℕ
  unfolding is_tool_at
  find_safe_cut_index messages zero = zero
  find_safe_cut_index messages (suc index) =
      if is_tool_at (get_elem? messages (suc index))
      then find_safe_cut_index messages index
      else suc index

  summary_body : List (AiMessage J) → Text
  unfolding line_of
  summary_body dropped =
      cap_summary_length
        (join_codes (codes " | ") (filter has_words (map (λ m. line_of m.role m.content) dropped)))

  pub summary_of : List (AiMessage J) → AiMessage J
  unfolding summary_body
  summary_of dropped = record {
    role = system;
    content =
        (codes "[Earlier in this call — "
          ++ (decimal (length dropped)
              ++ codes " message(s) summarized to stay within the context window] "))
        ++ summary_body dropped;
    tool_call_id = none;
    tool_calls = [];
  }

  unfoldable pub compress_messages : ℕ → List (AiMessage J) → List (AiMessage J)
  unfolding summary_of find_safe_cut_index
  compress_messages max_messages messages =
      let cut_index = find_safe_cut_index messages (length messages - recent_keep) in
      if leb (length messages) max_messages
      then messages
      else if cut_index == 0
      then messages
      else summary_of (take cut_index messages) ∷ drop cut_index messages
