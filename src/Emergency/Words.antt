-- ===== src/Emergency/Words.antt =====
-- `text.toLowerCase().match(/\w+/g) ?? []` of escalate-emergency.use-case.ts, over code points. Letters
-- outside ASCII are no word characters, and their lower case is not taken.
use ethixweb_ai_csr.Common.{
  ℕ, ◌+◌, ◌≡◌, refl, Bool, true, false, ◌&&◌, ◌||◌, List, [], ◌∷◌, String, arith, leb, ◌==◌,
  if◌then◌else◌, codes, ◌↔◌,
}

abbrev pub Word : Type 0
Word = List ℕ

unfoldable pub is_word_code : ℕ → Bool
is_word_code c =
    (leb b'0' c && leb c b'9')
    || (leb b'A' c && leb c b'Z')
    || (leb b'a' c && leb c b'z')
    || c == b'_'

unfoldable pub lower : ℕ → ℕ
lower c = if leb b'A' c && leb c b'Z' then c + 32 else c

-- A word that has come to its end, if it has a letter.
push : Word → List Word → List Word
push [] ws = ws
push (c ∷ w) ws = (c ∷ w) ∷ ws

extend : Bool → ℕ → Word → List Word → Word × List Word
unfolding push
extend true c w ws = (lower c ∷ w, ws)
extend false c w ws = ([], push w ws)

-- The word that a text begins with, possibly empty, and the words after it.
split : List ℕ → Word × List Word
unfolding extend is_word_code lower
split [] = ([], [])
split (c ∷ s) = let (w, ws) = split s in extend (is_word_code c) c w ws

unfoldable pub words : String → List Word
unfolding split push
words text = let (w, ws) = split (codes text) in push w ws

-- `a === b` on words.
unfoldable pub word_eq : Word → Word → Bool
word_eq [] [] = true
word_eq (a ∷ v) (b ∷ w) = a == b && word_eq v w
word_eq _ _ = false

pub word_eq_iff : (v w : Word) → (word_eq v w ≡ true) ↔ (v ≡ w)
unfolding word_eq
word_eq_iff [] [] = (λ e. refl, λ e. refl)
word_eq_iff [] (b ∷ w) = (λ e. cc, λ e. cc)
word_eq_iff (a ∷ v) [] = (λ e. cc, λ e. cc)
word_eq_iff (a ∷ v) (b ∷ w) = ground (arith, word_eq_iff v w)

-- `words.includes(w)`
unfoldable pub has_word : List Word → Word → Bool
has_word [] w = false
has_word (v ∷ ws) w = word_eq v w || has_word ws w

words_test :
    words "I can't SMELL-gas!"
    ≡ codes "i" ∷ codes "can" ∷ codes "t" ∷ codes "smell" ∷ codes "gas" ∷ []
unfolding words
words_test = refl
