-- ===== src/CallSession/FragmentDetector.antt =====
-- `fragmentStrength` of apps/voice-runtime/src/modules/call-session/application/fragment-detector.ts, on code
-- units.
use ethixweb_ai_csr.Common.{
  ℕ, suc, Bool, true, false, not, ◌&&◌, ◌||◌, List, [], ◌∷◌, ◌++◌, none, some, String, map, any,
  codes, leb, ltb, ◌==◌, if◌then◌else◌, codes_eq, filter, length, starts_with,
}
use ethixweb_ai_csr.Conversation.Records.{Text}
use ethixweb_ai_csr.CallSession.{FragmentStrength, strong, weak, finished}
use ethixweb_ai_csr.CallSession.Backchannel.{lower_code}
use ethixweb_ai_csr.CallSession.SpokenDigits.{words_in, spoken_digits_only, is_partial_number}

abbrev opening_words : List String
opening_words = "can" ∷ "could" ∷ "do" ∷ "does" ∷ "did" ∷ "will" ∷ "would" ∷ "should" ∷ "shall" ∷ []

abbrev trailing_words : List String
trailing_words =
    "my" ∷ "your" ∷ "his" ∷ "her" ∷ "our" ∷ "their" ∷ "the" ∷ "a" ∷ "an" ∷ "to" ∷ "of" ∷ "for"
    ∷ "in" ∷ "on" ∷ "at" ∷ "with" ∷ "about" ∷ "like" ∷ "and" ∷ "but" ∷ "or" ∷ "so" ∷ "um" ∷ "uh"
    ∷ "is" ∷ "was" ∷ "are" ∷ "am" ∷ "because" ∷ "if" ∷ "when" ∷ "where" ∷ "which" ∷ "by" ∷ "into"
    ∷ "than" ∷ "also" ∷ "as" ∷ "some" ∷ "any" ∷ "we" ∷ "it's" ∷ "its" ∷ "i'm" ∷ "im" ∷ "that's"
    ∷ "thats" ∷ "name's" ∷ "basically" ∷ []

abbrev before_my_name : List String
before_my_name =
    "hi" ∷ "hello" ∷ "hey" ∷ "okay" ∷ "ok" ∷ "so" ∷ "and" ∷ "yes" ∷ "yeah" ∷ "well" ∷ "um" ∷ "uh"
    ∷ "grace" ∷ "sure" ∷ []

abbrev ends_a_sentence : List String
ends_a_sentence = "on" ∷ "in" ∷ "at" ∷ "was" ∷ "are" ∷ "am" ∷ []

abbrev soft_trailing_words : List String
soft_trailing_words =
    "basically" ∷ "about" ∷ "for" ∷ "with" ∷ "like" ∷ "by" ∷ "into" ∷ "than" ∷ "as" ∷ "some" ∷ "any"
    ∷ "also" ∷ "we" ∷ "when" ∷ "where" ∷ "which" ∷ []

-- `set.has(word)`
is_one_of : List String → Text → Bool
is_one_of set word = any (λ member. codes_eq (codes member) word) set

is_lower_letter : ℕ → Bool
is_lower_letter c = leb 97 c && leb c 122

unfoldable pub normalize_word : Text → Text
unfolding is_lower_letter lower_code
normalize_word word = filter (λ c. is_lower_letter c || c == 39) (map lower_code word)

-- `/^[a-z]$/.test(word)`
is_lone_letter : Text → Bool
unfolding is_lower_letter
is_lone_letter (c ∷ []) = is_lower_letter c
is_lone_letter _ = false

-- `/^[a-z]$/i.test(token)`, where no letter but those of ASCII is a letter in another case.
is_lone_letter_of_a_case : Text → Bool
unfolding is_lower_letter
is_lone_letter_of_a_case (c ∷ []) = is_lower_letter c || (leb 65 c && leb c 90)
is_lone_letter_of_a_case _ = false

-- `/^[a-z']+[.!?]?$/i.test(token)`, where a first letter has been seen or not.
is_spoken_letter : Bool → Text → Bool
unfolding is_lower_letter
is_spoken_letter seen [] = seen
is_spoken_letter seen (c ∷ s) =
    let rest = is_spoken_letter true s in
    if is_lower_letter c || (leb 65 c && leb c 90) || c == 39
    then rest
    else seen && (c == 46 || c == 33 || c == 63) && codes_eq s []

is_for : Text → Bool
is_for (f ∷ o ∷ r ∷ []) = (f == 102 || f == 70) && (o == 111 || o == 79) && (r == 114 || r == 82)
is_for _ = false

-- `PHONETIC_SPELLING_PATTERN.test(transcript.trim())`
spells_phonetically : List Text → Bool
unfolding is_lone_letter_of_a_case is_for is_spoken_letter
spells_phonetically (letter ∷ preposition ∷ word ∷ []) =
    is_lone_letter_of_a_case letter && is_for preposition && is_spoken_letter false word
spells_phonetically _ = false

is_one_letter : List Text → Bool
unfolding is_lone_letter
is_one_letter (word ∷ []) = is_lone_letter (normalize_word word)
is_one_letter _ = false

-- Of words in the order from the last to the first.
begins_a_name : List Text → Bool
unfolding is_one_of
begins_a_name (last ∷ previous ∷ before) =
    codes_eq (normalize_word last) (codes "name")
    && codes_eq (normalize_word previous) (codes "my")
    && not (any (λ word. not (is_one_of before_my_name (normalize_word word))) before)
begins_a_name _ = false

is_spelling : List Text → Bool
is_spelling (last ∷ previous ∷ before) = length (normalize_word previous) == 1
is_spelling _ = false

-- The letters that stand alone at the end, with their number, and the words in front of them.
pub data Spelled : Type 0 where
  spelled : ℕ → Text → List Text → Spelled

letters_at_end : Spelled → List Text → Spelled
unfolding is_lone_letter
letters_at_end (spelled run letters before) [] = spelled run letters []
letters_at_end (spelled run letters before) (raw ∷ words) =
    let word = normalize_word raw in
    let further = letters_at_end (spelled (suc run) (word ++ letters) words) words in
    if is_lone_letter word then further else spelled run letters (raw ∷ words)

spells_on : ℕ → Spelled → Bool
spells_on count (spelled run letters before) =
    (leb 1 run && leb run 3 && ltb run count)
    || (leb 2 run
        && any (λ word. ltb (length letters) (length word) && starts_with word letters)
            (map normalize_word before))

-- `isSpellingInProgress`, of words in the order from the last to the first.
is_spelling_in_progress : List Text → Bool
unfolding letters_at_end spells_on
is_spelling_in_progress words = spells_on (length words) (letters_at_end (spelled 0 [] words) words)

is_lone_digit : List Text → Bool
is_lone_digit words = elim (spoken_digits_only words) [ none ↦ false | some d ↦ length d == 1 ]

trailing_strength : ℕ → Text → FragmentStrength
unfolding is_one_of
trailing_strength count last =
    if leb 5 count && is_one_of ends_a_sentence last
    then finished
    else if leb 5 count && is_one_of soft_trailing_words last
    then weak
    else strong

opening_strength : List Text → FragmentStrength
unfolding is_one_of
opening_strength [] = finished
opening_strength (first ∷ words) =
    if ltb 4 (length (first ∷ words))
    then finished
    else if is_one_of opening_words (normalize_word first)
    then weak
    else finished

-- The words, and again from the last to the first.
strength_of : List Text → List Text → FragmentStrength
unfolding spells_phonetically is_one_letter begins_a_name is_one_of is_spelling trailing_strength
    is_spelling_in_progress is_lone_digit opening_strength
strength_of words [] = finished
strength_of words (raw ∷ before) =
    let last = normalize_word raw in
    if spells_phonetically words || is_one_letter words || begins_a_name (raw ∷ before)
    then strong
    else if is_one_of trailing_words last && not (is_spelling (raw ∷ before))
    then trailing_strength (length words) last
    else if is_partial_number words || is_spelling_in_progress (raw ∷ before)
    then strong
    else if is_lone_digit words
    then weak
    else opening_strength words

backwards : List Text → List Text → List Text
backwards [] last = last
backwards (word ∷ words) last = backwards words (word ∷ last)

unfoldable pub fragment_strength : Text → FragmentStrength
unfolding strength_of backwards
fragment_strength transcript =
    strength_of (words_in transcript) (backwards (words_in transcript) [])
