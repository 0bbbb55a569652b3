-- ===== src/CallSession/Backchannel.antt =====
-- apps/voice-runtime/src/modules/call-session/application/backchannel-detector.ts, on code units.
use ethixweb_ai_csr.Common.{
  ℕ, ◌+◌, Bool, false, not, ◌&&◌, ◌||◌, List, [], ◌∷◌, map, any, codes, leb, ◌==◌, if◌then◌else◌,
  has_words, trim_start, trim_end, split_tokens, codes_eq, filter,
}
use ethixweb_ai_csr.Conversation.Records.{Text}

abbrev pub backchannel_words : List Text
backchannel_words =
    codes "yeah"
    ∷ codes "yep"
    ∷ codes "yup"
    ∷ codes "ok"
    ∷ codes "okay"
    ∷ codes "right"
    ∷ codes "sure"
    ∷ codes "alright"
    ∷ codes "mhm"
    ∷ codes "mmhmm"
    ∷ codes "uhhuh"
    ∷ codes "mm"
    ∷ codes "hmm"
    ∷ codes "hm"
    ∷ codes "huh"
    ∷ codes "uh"
    ∷ codes "oh"
    ∷ []

-- `toLowerCase` on a code unit, as far as its result has letters of ASCII: of the others, only the Kelvin
-- sign and the dotted capital I have a lower case with one.
unfoldable pub lower_code : ℕ → ℕ
lower_code c =
    if leb 65 c && leb c 90 then c + 32 else if c == 8490 then 107 else if c == 304 then 105 else c

is_letter_or_digit : ℕ → Bool
is_letter_or_digit c = (leb 97 c && leb c 122) || (leb 48 c && leb c 57)

unfoldable pub normalize_token : Text → Text
unfolding lower_code is_letter_or_digit
normalize_token token = filter is_letter_or_digit (map lower_code token)

is_backchannel_word : Text → Bool
is_backchannel_word word = any (codes_eq word) backchannel_words

all_backchannel : List Text → Bool
unfolding is_backchannel_word
all_backchannel [] = false
all_backchannel words = not (any (λ word. not (is_backchannel_word word)) words)

unfoldable pub is_pure_backchannel : Text → Bool
unfolding all_backchannel
is_pure_backchannel transcript =
    let trimmed = trim_end (trim_start transcript) in
    if has_words trimmed
    then all_backchannel
        (filter (λ word. not (codes_eq word [])) (map normalize_token (split_tokens trimmed)))
    else false
