-- ===== src/CallSession/SpokenDigits.antt =====
-- `spokenDigitsOnly` and `isPartialNumberUtterance` of fragment-detector.ts of
-- apps/voice-runtime/src/modules/call-session/application, on code units.
use ethixweb_ai_csr.Common.{
  split_tokens, ℕ, zero, suc, Bool, false, not, ◌&&◌, ◌||◌, List, [], ◌∷◌, ◌++◌, Option, none, some,
  String, any, codes, leb, ltb, ◌==◌, if◌then◌else◌, trim_start, trim_end, codes_eq, filter, length,
}
use ethixweb_ai_csr.Conversation.Records.{Text}
use ethixweb_ai_csr.CallSession.Backchannel.{normalize_token}

-- `table[word]`
lookup_word : List (String × ℕ) → Text → Option ℕ
lookup_word [] word = none
lookup_word ((key, value) ∷ table) word =
    let rest = lookup_word table word in if codes_eq (codes key) word then some value else rest

-- The code units of the digits.
abbrev spoken_digits : List (String × ℕ)
spoken_digits =
    ("zero", 48)
    ∷ ("oh", 48)
    ∷ ("o", 48)
    ∷ ("one", 49)
    ∷ ("two", 50)
    ∷ ("three", 51)
    ∷ ("four", 52)
    ∷ ("five", 53)
    ∷ ("six", 54)
    ∷ ("seven", 55)
    ∷ ("eight", 56)
    ∷ ("nine", 57)
    ∷ []

-- The object inherits a member `constructor`, which `repeat` takes for the number 0.
abbrev repeaters : List (String × ℕ)
repeaters = ("double", 2) ∷ ("triple", 3) ∷ ("constructor", 0) ∷ []

repeat : ℕ → Text → Text
repeat zero s = []
repeat (suc n) s = s ++ repeat n s

is_digit : ℕ → Bool
is_digit c = leb 48 c && leb c 57

abbrev Digits : Type 0
Digits = Option (Text × ℕ)

-- A word that is no repeater, behind the digits that have been read.
with_digit : Option ℕ → Text → Text → ℕ → Digits
unfolding is_digit repeat
with_digit digit word digits count =
    if not (any (λ c. not (is_digit c)) word)
    then some (digits ++ repeat (if length word == 1 then count else 1) word, 1)
    else elim digit [ none ↦ none | some d ↦ some (digits ++ repeat count (d ∷ []), 1) ]

with_word : Text → Option ℕ → Text → ℕ → Digits
unfolding lookup_word with_digit
with_word word (some n) digits count = some (digits, n)
with_word word none digits count = with_digit (lookup_word spoken_digits word) word digits count

-- The digits so far and the count of the next one, with a further word.
read_word : Digits → Text → Digits
unfolding lookup_word with_word
read_word none raw = none
read_word (some (digits, count)) raw =
    let word = normalize_token raw in
    if codes_eq word []
    then some (digits, count)
    else with_word word (lookup_word repeaters word) digits count

read_words : Digits → List Text → Digits
read_words read [] = read
read_words read (raw ∷ words) = read_words (read_word read raw) words

completed_digits : Digits → Option Text
completed_digits none = none
completed_digits (some (digits, count)) =
    if not (codes_eq digits []) && count == 1 then some digits else none

unfoldable pub spoken_digits_only : List Text → Option Text
unfolding read_word read_words completed_digits
spoken_digits_only words = completed_digits (read_words (some ([], 1)) words)

is_partial : Option Text → Bool
is_partial none = false
is_partial (some digits) = let n = length digits in leb 2 n && not (n == 5 || n == 10 || n == 11)

unfoldable pub is_partial_number : List Text → Bool
unfolding is_partial
is_partial_number words = is_partial (spoken_digits_only words)

abbrev pub words_in : Text → List Text
words_in transcript =
    filter (λ word. not (codes_eq word [])) (split_tokens (trim_end (trim_start transcript)))

unfoldable pub is_partial_number_utterance : Text → Bool
is_partial_number_utterance transcript =
    ltb 0 (length (words_in transcript)) && is_partial_number (words_in transcript)
