-- ===== src/Conversation/Segments.antt =====
-- `findSpeechSegmentBoundary` and `looksLikeAbbreviation` of application/handle-turn.use-case.ts of
-- apps/voice-orchestrator/src/modules/conversation: where a segment of speech ends.
pub mod Bounds
use ethixweb_ai_csr.Common.{
  ℕ, zero, suc, ◌+◌, Bool, true, false, not, ◌&&◌, ◌||◌, List, [], ◌∷◌, ◌++◌, Option, none, some,
  map, codes, take, any, length, leb, ltb, ◌==◌, if◌then◌else◌, is_space, codes_eq,
}
use ethixweb_ai_csr.Conversation.Records.{Text}

abbrev pub min_speech_segment_chars : ℕ
min_speech_segment_chars = 40

abbrev pub min_first_segment_chars : ℕ
min_first_segment_chars = 16

abbrev pub max_speech_segment_chars : ℕ
max_speech_segment_chars = 220

is_mark : ℕ → Bool
is_mark c = c == 46 || c == 33 || c == 63

is_letter : ℕ → Bool
is_letter c = (leb 65 c && leb c 90) || (leb 97 c && leb c 122)

is_digit : ℕ → Bool
is_digit c = leb 48 c && leb c 57

-- `\w`
is_word_char : ℕ → Bool
unfolding is_letter is_digit
is_word_char c = is_letter c || is_digit c || c == 95

lower : ℕ → ℕ
lower c = if leb 65 c && leb c 90 then c + 32 else c

-- A text before a place is read backwards from there. `\b` before a letter: no word goes on.
word_starts : Text → Bool
unfolding is_word_char
word_starts [] = true
word_starts (c ∷ cs) = not (is_word_char c)

-- `\b[a-zA-Z]\.[a-zA-Z]\.$`, on the six characters before the place.
initials_end : Text → Bool
unfolding word_starts is_letter
initials_end (p ∷ b ∷ q ∷ a ∷ cs) =
    p == 46 && is_letter b && q == 46 && is_letter a && word_starts cs
initials_end cs = false

-- The letters of a word, ten at most, in their order.
letters : ℕ → Text → Text
unfolding is_letter lower
letters zero cs = []
letters (suc n) [] = []
letters (suc n) (c ∷ cs) = if is_letter c then letters n cs ++ (lower c ∷ []) else []

abbrev titles : List Text
titles = map codes ("mr" ∷ "mrs" ∷ "ms" ∷ "dr" ∷ "st" ∷ "vs" ∷ "etc" ∷ "approx" ∷ "jr" ∷ "sr" ∷ [])

title_ends : Text → Bool
unfolding letters
title_ends [] = false
title_ends (p ∷ cs) = p == 46 && any (codes_eq (letters 10 cs)) titles

-- `looksLikeAbbreviation`, on the text up to the boundary, backwards.
unfoldable pub looks_like_abbreviation : Text → Bool
unfolding initials_end title_ends
looks_like_abbreviation before = initials_end (take 6 before) || title_ends before

-- The character before a run of marks is a digit.
digit_before : Text → Bool
unfolding is_digit is_mark
digit_before [] = false
digit_before (c ∷ cs) = if is_mark c then digit_before cs else is_digit c

starts_with_digit : Text → Bool
unfolding is_digit
starts_with_digit [] = false
starts_with_digit (c ∷ cs) = is_digit c

-- `(?=\s|$)`
pauses : Text → Bool
pauses [] = true
pauses (c ∷ cs) = is_space c

-- Whether a sentence ends behind `c`, which stands behind `before` and in front of `cs`.
ends_sentence : Text → ℕ → Text → Bool
unfolding is_mark pauses digit_before starts_with_digit looks_like_abbreviation
ends_sentence before c cs =
    is_mark c
    && pauses cs
    && not (digit_before (c ∷ before) && starts_with_digit cs)
    && not (looks_like_abbreviation (c ∷ before))

-- The loop over the ends of sentences; `at` characters stand before.
sentence_boundary : ℕ → Text → ℕ → Text → Option ℕ
unfolding ends_sentence
sentence_boundary min_chars before at [] = none
sentence_boundary min_chars before at (c ∷ cs) =
    let rest = sentence_boundary min_chars (c ∷ before) (suc at) cs in
    if leb min_chars (suc at) && ends_sentence before c cs then some (suc at) else rest

starts_with_blank : Text → Bool
starts_with_blank [] = false
starts_with_blank (c ∷ cs) = c == 32

or_later : Option ℕ → Option ℕ → Option ℕ
or_later none here = here
or_later (some later) here = some later

-- `Math.max(window.lastIndexOf(", "), window.lastIndexOf("; "))`, or none for -1.
last_clause : ℕ → Text → Option ℕ
unfolding starts_with_blank or_later
last_clause at [] = none
last_clause at (c ∷ cs) =
    or_later (last_clause (suc at) cs)
      (if (c == 44 || c == 59) && starts_with_blank cs then some at else none)

clause_boundary : ℕ → Option ℕ → ℕ
clause_boundary min_chars none = max_speech_segment_chars
clause_boundary min_chars (some at) = if ltb min_chars at then at + 2 else max_speech_segment_chars

unfoldable pub find_speech_segment_boundary : Text → ℕ → Option ℕ
unfolding clause_boundary last_clause sentence_boundary
find_speech_segment_boundary buffer min_chars =
    if leb max_speech_segment_chars (length buffer)
    then some (clause_boundary min_chars (last_clause 0 (take max_speech_segment_chars buffer)))
    else sentence_boundary min_chars [] 0 buffer
