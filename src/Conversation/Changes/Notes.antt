-- ===== src/Conversation/Changes/Notes.antt =====
-- interrupt-conversation.use-case.ts: the note on an interrupted answer.
use ethixweb_ai_csr.Common.{
  ◌≡◌, refl, sym, ap, ◌∙◌, inl, inr, Bool, true, false, Bool-cases, List, [], ◌∷◌, ◌++◌, arith, ltb,
  length, codes, starts_with, includes_codes, if◌then◌else◌, not, All,
}
use mathlib.Core.List.{reverse, reverse-reverse, append_assoc}
use ethixweb_ai_csr.Conversation.Records.{
  Text, AiRole, system, user, assistant, tool, AiMessage, Conversation,
}
use ethixweb_ai_csr.Conversation.Changes.{
  interruption_note, noted, annotate_back, annotate_reversed, annotate_interrupted_response,
}

starts_with_self : (part : Text) → starts_with part part ≡ true
unfolding starts_with
starts_with_self [] = refl
starts_with_self (p ∷ part) = ground (arith, starts_with_self part)

includes_codes-append : (front part : Text) → includes_codes (front ++ part) part ≡ true
unfolding includes_codes
includes_codes-append [] [] = refl
includes_codes-append [] (p ∷ part) = ground (arith, starts_with_self (p ∷ part))
includes_codes-append (c ∷ front) part = ground (arith, includes_codes-append front part)

-- A note that is put where it is not yet is put once.
noted_with : Text → Text → Text
noted_with note content =
    if includes_codes content note then content else content ++ (codes " " ++ note)

noted_with_once :
    (note content : Text) → noted_with note (noted_with note content) ≡ noted_with note content
unfolding noted_with
noted_with_once note content = elim (Bool-cases (includes_codes content note)) [
  | inl there ↦ rw (there, there) refl
  | inr new ↦ rw new (
      rw
        (ap (λ s. includes_codes s note) (sym (append_assoc content (codes " ") note))
          ∙ includes_codes-append (content ++ codes " ") note)
        refl)
]

noted_once : (content : Text) → noted (noted content) ≡ noted content
unfolding noted noted_with
noted_once content = noted_with_once interruption_note content

noted_words :
    (content : Text) → ltb 0 (length content) ≡ true → ltb 0 (length (noted content)) ≡ true
unfolding noted
noted_words [] h = cc
noted_words (c ∷ content) h = elim (Bool-cases (includes_codes (c ∷ content) interruption_note)) [
  | inl e ↦ rw e (ground arith)
  | inr e ↦ rw e (ground arith)
]

-- A message that is passed over: a result, a note of the system's, or a request without words.
abbrev pub passed_over : AiRole → Text → Bool
passed_over user content = false
passed_over assistant content = not (ltb 0 (length content))
passed_over system content = true
passed_over tool content = true

module _ {J : Type 0} where
  abbrev pub IsSilent : AiMessage J → Type 0
  IsSilent m = passed_over m.role m.content ≡ true

  annotate_back-silent :
      (r : AiRole) (m : AiMessage J) (ms rest : List (AiMessage J))
      → passed_over r m.content ≡ true
      → annotate_back r m ms rest ≡ m ∷ rest
  unfolding annotate_back
  annotate_back-silent user m ms rest h = cc
  annotate_back-silent assistant m ms rest h = ground arith
  annotate_back-silent system m ms rest h = refl
  annotate_back-silent tool m ms rest h = refl

  annotate_reversed-append :
      (after : List (AiMessage J)) (ms : List (AiMessage J))
      → All IsSilent after
      → annotate_reversed (after ++ ms) ≡ after ++ annotate_reversed ms
  unfolding annotate_reversed
  annotate_reversed-append [] ms h = refl
  annotate_reversed-append (m ∷ after) ms h =
      annotate_back-silent m.role m (after ++ ms) (annotate_reversed (after ++ ms)) h.0
      ∙ ap (λ t. m ∷ t) (annotate_reversed-append after ms h.1)

  annotate_reversed-assistant :
      (m : AiMessage J) (ms : List (AiMessage J))
      → m.role ≡ assistant
      → ltb 0 (length m.content) ≡ true
      → annotate_reversed (m ∷ ms) ≡ record m { content = noted m.content } ∷ ms
  unfolding annotate_reversed annotate_back
  annotate_reversed-assistant m ms role spoken = simp (role, spoken)

  annotate_reversed-user :
      (m : AiMessage J) (ms : List (AiMessage J))
      → m.role ≡ user
      → annotate_reversed (m ∷ ms) ≡ m ∷ ms
  unfolding annotate_reversed annotate_back
  annotate_reversed-user m ms role = simp role

  annotate_reversed-passed :
      (m : AiMessage J) (ms : List (AiMessage J))
      → IsSilent m
      → annotate_reversed (m ∷ ms) ≡ m ∷ annotate_reversed ms
  annotate_reversed-passed m ms h = annotate_reversed-append (m ∷ []) ms (h, tt)

  annotate_back_once :
      (r : AiRole) (m : AiMessage J) (ms : List (AiMessage J))
      → m.role ≡ r
      → annotate_reversed (annotate_reversed ms) ≡ annotate_reversed ms
      → annotate_reversed (annotate_back r m ms (annotate_reversed ms))
        ≡ annotate_back r m ms (annotate_reversed ms)
  unfolding annotate_back
  annotate_back_once user m ms role ih = annotate_reversed-user m ms role
  annotate_back_once system m ms role ih =
      annotate_reversed-passed m (annotate_reversed ms) (rw role refl) ∙ ap (λ t. m ∷ t) ih
  annotate_back_once tool m ms role ih =
      annotate_reversed-passed m (annotate_reversed ms) (rw role refl) ∙ ap (λ t. m ∷ t) ih
  annotate_back_once assistant m ms role ih = elim (Bool-cases (ltb 0 (length m.content))) [
    | inl spoken ↦ rw spoken (
        annotate_reversed-assistant (record m { content = noted m.content }) ms role
          (noted_words m.content spoken)
        ∙ ap (λ t. record m { content = t } ∷ ms) (noted_once m.content))
    | inr empty ↦ rw empty (
        annotate_reversed-passed m (annotate_reversed ms) (rw role (rw empty refl))
        ∙ ap (λ t. m ∷ t) ih)
  ]

  annotate_reversed_once :
      (ms : List (AiMessage J)) → annotate_reversed (annotate_reversed ms) ≡ annotate_reversed ms
  unfolding annotate_reversed
  annotate_reversed_once [] = refl
  annotate_reversed_once (m ∷ ms) = annotate_back_once m.role m ms refl (annotate_reversed_once ms)

  -- A repeated interruption changes nothing more.
  annotate_interrupted_response_twice :
      (c : Conversation J)
      → annotate_interrupted_response (annotate_interrupted_response c)
        ≡ annotate_interrupted_response c
  unfolding annotate_interrupted_response
  annotate_interrupted_response_twice c =
      ap (λ ms. record c { messages = reverse ms })
        (ap annotate_reversed (reverse-reverse (annotate_reversed (reverse c.messages)))
          ∙ annotate_reversed_once (reverse c.messages))
