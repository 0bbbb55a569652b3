-- ===== src/Conversation/Window/Requests.antt =====
-- context-window.ts: the requests of the model that still wait for a result.
use ethixweb_ai_csr.Common.{
  ℕ, zero, suc, ◌≡◌, refl, inl, inr, Bool, false, ◌&&◌, List, [], ◌∷◌, ◌++◌, Option, none, some,
  String, str_eq, map, drop, get_elem?, if◌then◌else◌,
}
use ethixweb_ai_csr.Conversation.Records.{AiMessage}
use ethixweb_ai_csr.Conversation.Window.{is_tool, is_tool_at, summary_of, compress_messages}
use ethixweb_ai_csr.Conversation.Window.Pairs.{compress_messages_cases}

abbrev is_answer_to : String → Option String → Bool
is_answer_to id none = false
is_answer_to id (some given) = str_eq given id

module _ {J : Type 0} where
  -- The requests that wait after a message, or none where the model's provider would refuse the messages: a
  -- result has to answer the request that is next, and nothing but a result can stand before the last of
  -- them.
  abbrev pub awaiting : Option (List String) → AiMessage J → Option (List String)
  awaiting none m = none
  awaiting (some []) m = if is_tool m.role then none else some (map (λ call. call.id) m.tool_calls)
  awaiting (some (id ∷ ids)) m =
      if is_tool m.role && is_answer_to id m.tool_call_id then some ids else none

  abbrev pub requests_after : Option (List String) → List (AiMessage J) → Option (List String)
  requests_after waiting [] = waiting
  requests_after waiting (m ∷ ms) = requests_after (awaiting waiting m) ms

  -- Each request is followed by its result, in the order of the requests.
  abbrev pub IsAnswered : List (AiMessage J) → Type 0
  IsAnswered messages = requests_after (some []) messages ≡ some []

  pub requests_after-append :
      (waiting : Option (List String)) (ms : List (AiMessage J)) (m : AiMessage J)
      → requests_after waiting (ms ++ m ∷ []) ≡ awaiting (requests_after waiting ms) m
  requests_after-append waiting [] m = refl
  requests_after-append waiting (n ∷ ms) m = requests_after-append (awaiting waiting n) ms m

  requests_after-none : (ms : List (AiMessage J)) → requests_after none ms ≡ none
  requests_after-none [] = refl
  requests_after-none (m ∷ ms) = requests_after-none ms

  -- A message that is no result stands where no request waits.
  requests_after-drop :
      (waiting : Option (List String)) (messages : List (AiMessage J)) (n : ℕ)
      → is_tool_at (get_elem? messages n) ≡ false
      → requests_after waiting messages ≡ some []
      → IsAnswered (drop n messages)
  unfolding is_tool_at
  requests_after-drop waiting [] zero e h = refl
  requests_after-drop waiting [] (suc n) e h = refl
  requests_after-drop none (m ∷ ms) zero e h =
      absurd (let h' = rw (requests_after-none ms) at h in cc)
  requests_after-drop (some []) (m ∷ ms) zero e h = h
  requests_after-drop (some (id ∷ ids)) (m ∷ ms) zero e h =
      absurd (let h' = rw (e, requests_after-none ms) at h in cc)
  requests_after-drop waiting (m ∷ ms) (suc n) e h =
      requests_after-drop (awaiting waiting m) ms n e h

  pub compress_messages-IsAnswered :
      (max_messages : ℕ) (messages : List (AiMessage J))
      → IsAnswered messages
      → IsAnswered (compress_messages max_messages messages)
  unfolding summary_of
  compress_messages-IsAnswered max_messages messages h =
      elim (compress_messages_cases max_messages messages) [
        | inl same ↦ rw same h
        | inr (n, e, le, whole) ↦ rw e (requests_after-drop (some []) messages n whole h)
      ]
