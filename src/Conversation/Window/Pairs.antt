-- ===== src/Conversation/Window/Pairs.antt =====
-- context-window.ts: what is kept of the calls of tools and of their results.
use ethixweb_ai_csr.Common.{
  ℕ, zero, suc, ◌-◌, ◌≤◌, ◌<◌, ◌≡◌, ◌⊎◌, inl, inr, Bool, true, false, Bool-cases, List, [], ◌∷◌,
  Option, none, some, String, arith, any, str_eq, drop, take, get_elem?, length, leb, ◌==◌,
  if◌then◌else◌,
}
use ethixweb_ai_csr.Conversation.Records.{AiMessage, AiToolCallRequest}
use ethixweb_ai_csr.Conversation.Window.{
  recent_keep, is_tool, is_tool_at, find_safe_cut_index, summary_of, compress_messages,
}

module _ {J : Type 0} where
  abbrev requests : String → List (AiToolCallRequest J) → Bool
  requests id calls = any (λ c. str_eq c.id id) calls

  abbrev answers_one : List (AiToolCallRequest J) → Option String → Bool
  answers_one calls none = false
  answers_one calls (some id) = requests id calls

  -- Each tool's result answers a request of the message that stands before the results it is among.
  abbrev pub IsPaired : List (AiToolCallRequest J) → List (AiMessage J) → Type 0
  IsPaired asked [] = Unit
  IsPaired asked (m ∷ ms) =
      if is_tool m.role
      then (answers_one asked m.tool_call_id ≡ true) × IsPaired asked ms
      else IsPaired m.tool_calls ms

  find_safe_cut_index-le :
      (messages : List (AiMessage J)) (n : ℕ) → find_safe_cut_index messages n ≤ n
  unfolding find_safe_cut_index
  find_safe_cut_index-le messages zero = omega arith
  find_safe_cut_index-le messages (suc n) = ground (arith, find_safe_cut_index-le messages n)

  find_safe_cut_index-is_tool_at :
      (messages : List (AiMessage J)) (n : ℕ)
      → 0 < find_safe_cut_index messages n
      → is_tool_at (get_elem? messages (find_safe_cut_index messages n)) ≡ false
  unfolding find_safe_cut_index
  find_safe_cut_index-is_tool_at messages zero h = absurd (omega arith)
  find_safe_cut_index-is_tool_at messages (suc n) h =
      elim (Bool-cases (is_tool_at (get_elem? messages (suc n)))) [
        | inl e ↦ rw e (find_safe_cut_index-is_tool_at messages n (rw e at h))
        | inr e ↦ rw e e
      ]

  -- From a message that is no tool's result on, the rest is paired by itself.
  IsPaired-drop :
      (asked other : List (AiToolCallRequest J)) (messages : List (AiMessage J)) (n : ℕ)
      → is_tool_at (get_elem? messages n) ≡ false
      → IsPaired asked messages
      → IsPaired other (drop n messages)
  unfolding is_tool_at
  IsPaired-drop asked other [] zero e h = h
  IsPaired-drop asked other [] (suc n) e h = h
  IsPaired-drop asked other (m ∷ ms) zero e h = rw e (rw e at h)
  IsPaired-drop asked other (m ∷ ms) (suc n) e h = elim (Bool-cases (is_tool m.role)) [
    | inl t ↦ IsPaired-drop asked other ms n e (rw t at h).1
    | inr t ↦ IsPaired-drop m.tool_calls other ms n e (rw t at h)
  ]

  -- Compression keeps the messages, or replaces those in front of a place by one summary; at least the
  -- last 20 are kept as they are.
  pub compress_messages_cases :
      (max_messages : ℕ) (messages : List (AiMessage J))
      → (compress_messages max_messages messages ≡ messages)
        ⊎ ((n : ℕ) × (compress_messages max_messages messages
              ≡ summary_of (take n messages) ∷ drop n messages)
            × (n ≤ length messages - recent_keep)
            × (is_tool_at (get_elem? messages n) ≡ false))
  unfolding compress_messages
  compress_messages_cases max_messages messages =
      let n = find_safe_cut_index messages (length messages - recent_keep) in
      let le = find_safe_cut_index-le messages (length messages - recent_keep) in
      elim (Bool-cases (leb (length messages) max_messages)) [
        | inl short ↦ inl (rw short)
        | inr long ↦ elim (Bool-cases (n == 0)) [
          | inl none_cut ↦ inl (rw (long, none_cut))
          | inr cut ↦ inr (
            n,
            rw (long, cut),
            le,
            find_safe_cut_index-is_tool_at messages (length messages - recent_keep) (ground arith),
          )
        ]
      ]

  -- Compression never orphans a tool's result: if every result in the messages answers a request of the
  -- message before it and its fellows, the same holds of the messages that are kept.
  pub compress_messages-IsPaired :
      (max_messages : ℕ) (messages : List (AiMessage J))
      → IsPaired [] messages
      → IsPaired [] (compress_messages max_messages messages)
  unfolding summary_of
  compress_messages-IsPaired max_messages messages h =
      elim (compress_messages_cases max_messages messages) [
        | inl same ↦ rw same h
        | inr (n, e, le, whole) ↦ rw e (IsPaired-drop [] [] messages n whole h)
      ]
