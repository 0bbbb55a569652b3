-- ===== src/Common/Spaces.antt =====
-- Texts as lists of code units: white space at their ends, and what is left without any.
use Prim.Native.Nat.{ℕ}
use mathlib.Core.Path.{◌≡◌, refl, sym, ap, ◌∙◌}
use mathlib.Core.Logic.{inl, inr}
use mathlib.Core.Bool.{Bool, true, false, not}
use mathlib.Core.List.{List, [], ◌∷◌, ◌++◌, append_assoc, append-nil}
use ethixweb_ai_csr.Common.Tests.{if◌then◌else◌, Bool-cases}
use ethixweb_ai_csr.Common.Lists.{filter}
use ethixweb_ai_csr.Common.Codes.{is_space, has_words}

-- `s.trimStart()`
unfoldable pub trim_start : List ℕ → List ℕ
trim_start [] = []
trim_start (c ∷ cs) = if is_space c then trim_start cs else c ∷ cs

-- `s.trimEnd()`
unfoldable pub trim_end : List ℕ → List ℕ
unfolding has_words
trim_end [] = []
trim_end (c ∷ cs) = if has_words (c ∷ cs) then c ∷ trim_end cs else []

starts_blank : List ℕ → Bool
starts_blank [] = false
starts_blank (c ∷ s) = is_space c

-- A code unit in front of a text that has been split into its first token and the others.
in_front : Bool → Bool → ℕ → List ℕ × List (List ℕ) → List ℕ × List (List ℕ)
in_front true true c (token, tokens) = (token, tokens)
in_front true false c (token, tokens) = ([], token ∷ tokens)
in_front false _ c (token, tokens) = (c ∷ token, tokens)

split_from : List ℕ → List ℕ × List (List ℕ)
unfolding starts_blank in_front
split_from [] = ([], [])
split_from (c ∷ s) = in_front (is_space c) (starts_blank s) c (split_from s)

-- `s.split(/\s+/)`
unfoldable pub split_tokens : List ℕ → List (List ℕ)
unfolding split_from
split_tokens s = let (token, tokens) = split_from s in token ∷ tokens

abbrev pub without_space : List ℕ → List ℕ
without_space = filter (λ c. not (is_space c))

abbrev pub concat : List (List ℕ) → List ℕ
concat [] = []
concat (s ∷ ss) = s ++ concat ss

pub without_space-append :
    (xs ys : List ℕ) → without_space (xs ++ ys) ≡ without_space xs ++ without_space ys
without_space-append [] ys = refl
without_space-append (x ∷ xs) ys = elim (Bool-cases (is_space x)) [
  | inl blank ↦ rw blank (without_space-append xs ys)
  | inr word ↦ rw word (ap (λ t. x ∷ t) (without_space-append xs ys))
]

pub without_space_blank : (xs : List ℕ) → has_words xs ≡ false → without_space xs ≡ []
unfolding has_words
without_space_blank [] h = refl
without_space_blank (x ∷ xs) h = elim (Bool-cases (is_space x)) [
  | inl blank ↦ rw blank (without_space_blank xs (rw blank at h))
  | inr word ↦ absurd (let h' = rw word at h in cc)
]

pub concat-append : (ss : List (List ℕ)) (s : List ℕ) → concat (ss ++ s ∷ []) ≡ concat ss ++ s
concat-append [] s = append-nil s
concat-append (t ∷ ss) s =
    ap (λ x. t ++ x) (concat-append ss s) ∙ sym (append_assoc t (concat ss) s)

pub without_space-trim_start : (s : List ℕ) → without_space (trim_start s) ≡ without_space s
unfolding trim_start
without_space-trim_start [] = refl
without_space-trim_start (c ∷ cs) = elim (Bool-cases (is_space c)) [
  | inl blank ↦ rw blank (without_space-trim_start cs)
  | inr word ↦ let same : trim_start (c ∷ cs) ≡ c ∷ cs = rw word refl in ap without_space same
]

without_space-cons :
    (c : ℕ) (s t : List ℕ)
    → without_space s ≡ without_space t
    → without_space (c ∷ s) ≡ without_space (c ∷ t)
without_space-cons c s t e = elim (Bool-cases (is_space c)) [
  | inl blank ↦ rw blank e
  | inr word ↦ rw word (ap (λ u. c ∷ u) e)
]

pub without_space-trim_end : (s : List ℕ) → without_space (trim_end s) ≡ without_space s
unfolding trim_end
without_space-trim_end [] = refl
without_space-trim_end (c ∷ cs) = elim (Bool-cases (has_words (c ∷ cs))) [
  | inl spoken ↦
      let same : trim_end (c ∷ cs) ≡ c ∷ trim_end cs = rw spoken refl in
      ap without_space same ∙ without_space-cons c (trim_end cs) cs (without_space-trim_end cs)
  | inr blank ↦
      let same : trim_end (c ∷ cs) ≡ [] = rw blank refl in
      ap without_space same ∙ sym (without_space_blank (c ∷ cs) blank)
]
