-- ===== src/Emergency/Matching.antt =====
-- `matchesPattern`, `withinSpan` and `matchesShortage` of
-- apps/core-api/src/modules/emergency-rules/application/escalate-emergency.use-case.ts
use ethixweb_ai_csr.Common.{
  ℕ, ◌+◌, ◌-◌, Bool, true, false, not, ◌&&◌, ◌||◌, List, [], ◌∷◌, Option, none, some, String, leb,
  ltb, ◌==◌, if◌then◌else◌, length, drop, find, filter, every, codes, map,
}
use ethixweb_ai_csr.Emergency.Words.{Word, words, word_eq, has_word}

-- A hit of `withinSpan`: a word and its position.
pub record Hit : Type 0 where
  pub word : Word
  pub at : ℕ

unfoldable pub positioned : ℕ → List Word → List Hit
positioned at [] = []
positioned at (w ∷ ws) = record { word = w; at = at } ∷ positioned (at + 1) ws

-- `new Set(words)`, in the order of first occurrence.
unfoldable pub distinct : List Word → List Word
unfolding has_word
distinct [] = []
distinct (w ∷ ws) = let rest = distinct ws in if has_word rest w then rest else w ∷ rest

-- `counts`, a map from words to numbers.
abbrev pub Counts : Type 0
Counts = List (Word × ℕ)

unfoldable pub bump : Word → Counts → Counts
bump w [] = (w, 1) ∷ []
bump w ((v, n) ∷ m) = if word_eq v w then (v, n + 1) ∷ m else (v, n) ∷ bump w m

-- `remaining <= 0` deletes the word, and any other value replaces its count.
unfoldable pub drop_one : Word → Counts → Counts
drop_one w [] = []
drop_one w ((v, n) ∷ m) =
    if word_eq v w then (if leb (n - 1) 0 then m else (v, n - 1) ∷ m) else (v, n) ∷ drop_one w m

abbrev pub max_pattern_span : ℕ
max_pattern_span = 4

-- The inner loop: the hits from `left` on, and the counts of those up to the right one.
shrink : ℕ → ℕ → List Hit → Counts → Bool × List Hit × Counts
shrink size right_at [] counts = (false, [], counts)
shrink size right_at (left ∷ lefts) counts =
    let rest = shrink size right_at lefts (drop_one left.word counts) in
    if length counts == size
    then (if leb right_at (left.at + max_pattern_span) then (true, left ∷ lefts, counts) else rest)
    else (false, left ∷ lefts, counts)

-- The outer loop, over the hits to the right.
slide : ℕ → List Hit → List Hit → Counts → Bool
unfolding shrink bump drop_one
slide size [] lefts counts = false
slide size (right ∷ rights) lefts counts =
    let (found, lefts', counts') = shrink size right.at lefts (bump right.word counts) in
    let rest = slide size rights lefts' counts' in if found then true else rest

unfoldable pub within_span : List Word → List Word → Bool
unfolding slide positioned distinct
within_span haystack_words pattern_words =
    let needed = distinct pattern_words in
    let hits = filter (λ hit. has_word needed hit.word) (positioned 0 haystack_words) in
    if ltb (length needed) 2 then true else slide (length needed) hits hits []

-- `prefix.every((word, at) => words[at] === word)`
unfoldable pub begins_with : List Word → List Word → Bool
begins_with [] ws = true
begins_with (p ∷ ps) [] = false
begins_with (p ∷ ps) (w ∷ ws) = word_eq w p && begins_with ps ws

unfoldable pub not_a_shortage : List Word
not_a_shortage = map codes (
    "line" ∷ "lines" ∷ "leak" ∷ "leaks" ∷ "leaking" ∷ "damage" ∷ "bill" ∷ "meter" ∷ "softener"
    ∷ "heater" ∷ "heaters" ∷ "pressure" ∷ [])

unfoldable pub shortage_gap_words : List Word
shortage_gap_words =
    map codes ("running" ∷ "hot" ∷ "cold" ∷ "any" ∷ "more" ∷ "clean" ∷ "drinking" ∷ "fresh" ∷ [])

unfoldable pub absence_prefixes : List (List Word)
absence_prefixes =
    (codes "no" ∷ [])
    ∷ (codes "without" ∷ [])
    ∷ (codes "don" ∷ codes "t" ∷ codes "have" ∷ [])
    ∷ (codes "dont" ∷ codes "have" ∷ [])
    ∷ []

-- `words[0] ?? ""`
abbrev pub first_or_empty : List Word → Word
first_or_empty [] = []
first_or_empty (w ∷ ws) = w

-- The rest of the pattern at some point, and no word behind it that makes it about something else.
unfoldable pub shortage_here : List Word → List Word → Bool
shortage_here rest ws =
    begins_with rest ws && not (has_word not_a_shortage (first_or_empty (drop (length rest) ws)))

-- Behind the marker: with no word in between, or with one gap word.
unfoldable pub shortage_after : List Word → List Word → Bool
unfolding shortage_here
shortage_after rest after =
    shortage_here rest after
    || (has_word shortage_gap_words (first_or_empty after) && shortage_here rest (drop 1 after))

-- The loop over the positions at which the marker can stand; `ws` are the words from there on.
unfoldable pub matches_shortage : List Word → List Word → List Word → Bool
unfolding shortage_after
matches_shortage rest marker [] =
    begins_with marker [] && shortage_after rest (drop (length marker) [])
matches_shortage rest marker (w ∷ ws) =
    (begins_with marker (w ∷ ws) && shortage_after rest (drop (length marker) (w ∷ ws)))
    || matches_shortage rest marker ws

-- The marker of absence that a pattern starts with, if something follows it.
unfoldable pub absence_of : List Word → Option (List Word)
absence_of pattern_words =
    find (λ p. ltb (length p) (length pattern_words) && begins_with p pattern_words)
      absence_prefixes

matches_words : List Word → List Word → Option (List Word) → Bool
matches_words haystack pattern_words (some absence) =
    matches_shortage (drop (length absence) pattern_words) absence haystack
matches_words haystack pattern_words none =
    every (has_word haystack) pattern_words && within_span haystack pattern_words

unfoldable pub matches_pattern : String → String → Bool
unfolding matches_words absence_of matches_shortage begins_with within_span has_word words word_eq
matches_pattern haystack pattern =
    let pattern_words = words pattern in
    if length pattern_words == 0
    then false
    else matches_words (words haystack) pattern_words (absence_of pattern_words)
