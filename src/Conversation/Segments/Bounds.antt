-- ===== src/Conversation/Segments/Bounds.antt =====
-- `findSpeechSegmentBoundary` of handle-turn.use-case.ts: how long a segment is.
use ethixweb_ai_csr.Common.{
  ℕ, zero, suc, ◌+◌, ◌≤◌, ◌<◌, ◌≡◌, refl, inl, inr, Bool, true, false, Bool-cases, ◌&&◌, [], ◌∷◌,
  some, Option-cases, arith, leb, length, take,
}
use ethixweb_ai_csr.Conversation.Records.{Text}
use ethixweb_ai_csr.Conversation.Segments.{
  ends_sentence, sentence_boundary, starts_with_blank, or_later, last_clause, clause_boundary,
  find_speech_segment_boundary,
}

first_bounds :
    (min_chars at more n : ℕ) (ends : Bool)
    → (leb min_chars (suc at) && ends) ≡ true
    → some (suc at) ≡ some n
    → (min_chars ≤ n) × (n ≤ at + suc more)
first_bounds min_chars at more n ends here e = ground arith

sentence_boundary_bounds :
    (min_chars : ℕ) (before : Text) (at : ℕ) (cs : Text) (n : ℕ)
    → sentence_boundary min_chars before at cs ≡ some n
    → (min_chars ≤ n) × (n ≤ at + length cs)
unfolding sentence_boundary
sentence_boundary_bounds min_chars before at [] n e = absurd (ground (arith, e))
sentence_boundary_bounds min_chars before at (c ∷ cs) n e =
    let rest = sentence_boundary_bounds min_chars (c ∷ before) (suc at) cs n in
    elim (Bool-cases (leb min_chars (suc at) && ends_sentence before c cs)) [
      | inl here ↦
          first_bounds min_chars at (length cs) n (ends_sentence before c cs) here (rw here at e)
      | inr later ↦ let (low, high) = rest (rw later at e) in (low, omega (arith, high))
    ]

last_clause_bounds :
    (at : ℕ) (cs : Text) (n : ℕ) → last_clause at cs ≡ some n → n + 2 ≤ at + length cs
unfolding last_clause or_later starts_with_blank
last_clause_bounds at [] n e = absurd (ground (arith, e))
last_clause_bounds at (c ∷ []) n e = absurd (ground (arith, e))
last_clause_bounds at (c ∷ d ∷ cs) n e = ground (arith, last_clause_bounds (suc at) (d ∷ cs) n)

length-take : (n : ℕ) (cs : Text) → length (take n cs) ≤ n
length-take zero cs = omega arith
length-take (suc n) [] = omega arith
length-take (suc n) (c ∷ cs) = omega (arith, length-take n cs)

clause_boundary_bounds :
    (min_chars : ℕ) (cs : Text)
    → min_chars ≤ 220
    → length cs ≤ 220
    → (min_chars ≤ clause_boundary min_chars (last_clause 0 cs))
      × (clause_boundary min_chars (last_clause 0 cs) ≤ 220)
unfolding clause_boundary
clause_boundary_bounds min_chars cs le short = elim (Option-cases (last_clause 0 cs)) [
  | inl nowhere ↦ rw nowhere (omega arith)
  | inr (n, found) ↦ rw found (ground (arith, last_clause_bounds 0 cs n))
]

leb-true_le : (m n : ℕ) → leb m n ≡ true → m ≤ n
leb-true_le m n e = ground arith

some_number : (m n : ℕ) → some m ≡ some n → m ≡ n
some_number m n e = cc

leb-false_lt : (m n : ℕ) → leb m n ≡ false → n < m
leb-false_lt m n e = ground arith

-- A segment that is cut off while a completion comes in has at least the least length asked for, and at
-- most 220 characters, all of which are there; and once 220 characters are pending one is cut off.
pub find_speech_segment_boundary_bounds :
    (buffer : Text) (min_chars : ℕ)
    → min_chars ≤ 220
    → ((n : ℕ)
        → find_speech_segment_boundary buffer min_chars ≡ some n
        → (min_chars ≤ n) × (n ≤ 220) × (n ≤ length buffer))
      × (220 ≤ length buffer → (n : ℕ) × (find_speech_segment_boundary buffer min_chars ≡ some n))
unfolding find_speech_segment_boundary
find_speech_segment_boundary_bounds buffer min_chars le =
    elim (Bool-cases (leb 220 (length buffer))) [
      | inl long ↦
          let window = take 220 buffer in
          let bounds = clause_boundary_bounds min_chars window le (length-take 220 buffer) in
          (
            λ n e.
                let same =
                  some_number (clause_boundary min_chars (last_clause 0 window)) n (rw long at e) in
                let enough = leb-true_le 220 (length buffer) long in
                omega (arith, same, bounds, enough),
            λ _. (clause_boundary min_chars (last_clause 0 window), rw long refl),
          )
      | inr short ↦
          let lt = leb-false_lt 220 (length buffer) short in
          (
            λ n e.
                let (low, high) =
                  sentence_boundary_bounds min_chars [] 0 buffer n (rw short at e) in
                omega (arith, low, high, lt),
            λ h. absurd (omega (arith, h, lt)),
          )
    ]
