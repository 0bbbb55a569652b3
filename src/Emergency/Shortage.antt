-- ===== src/Emergency/Shortage.antt =====
-- `matchesShortage` of
-- apps/core-api/src/modules/emergency-rules/application/escalate-emergency.use-case.ts, against a
-- description of the sentences it accepts.
use ethixweb_ai_csr.Common.{
  ◌≡◌, refl, sym, ap, ◌⊎◌, inl, inr, ◌↔◌, true, false, ◌&&◌, not, List, [], ◌∷◌, ◌++◌, arith,
  length, drop, Bool-cases, subst,
}
use ethixweb_ai_csr.Emergency.Words.{Word, word_eq, word_eq_iff, has_word}
use ethixweb_ai_csr.Emergency.Matching.{
  begins_with, not_a_shortage, shortage_gap_words, first_or_empty, shortage_here, shortage_after,
  matches_shortage,
}

begins_with-append : (ps ws : List Word) → begins_with ps (ps ++ ws) ≡ true
unfolding begins_with
begins_with-append [] ws = refl
begins_with-append (p ∷ ps) ws = ground (arith, word_eq_iff p p, begins_with-append ps ws)

append_drop_of_begins_with :
    (ps ws : List Word) → begins_with ps ws ≡ true → ws ≡ ps ++ drop (length ps) ws
unfolding begins_with
append_drop_of_begins_with [] ws h = refl
append_drop_of_begins_with (p ∷ ps) [] h = ground arith
append_drop_of_begins_with (p ∷ ps) (w ∷ ws) h =
    ground (arith, word_eq_iff w p, append_drop_of_begins_with ps ws)

drop-length : (ps ws : List Word) → drop (length ps) (ps ++ ws) ≡ ws
drop-length [] ws = refl
drop-length (p ∷ ps) ws = drop-length ps ws

-- The words are the missing thing, and no word follows that makes it about something else.
abbrev Missing : List Word → List Word → Type 0
Missing rest ws =
    (post : List Word) × (ws ≡ rest ++ post)
    × (has_word not_a_shortage (first_or_empty post) ≡ false)

shortage_here_iff : (rest ws : List Word) → (shortage_here rest ws ≡ true) ↔ Missing rest ws
unfolding shortage_here
shortage_here_iff rest ws = (
  λ h. (drop (length rest) ws, ground (arith, append_drop_of_begins_with rest ws), ground arith),
  λ m.
      subst
        (λ v.
          (begins_with rest v
            && not (has_word not_a_shortage (first_or_empty (drop (length rest) v))))
          ≡ true)
        (sym m.1) (ground (arith, begins_with-append rest m.0, drop-length rest m.0, m.2)),
)

-- The same, with up to one gap word before it.
abbrev MissingAfter : List Word → List Word → Type 0
MissingAfter rest ws =
    Missing rest ws
    ⊎ ((gap : Word) × (ws' : List Word) × (ws ≡ gap ∷ ws')
        × (has_word shortage_gap_words gap ≡ true)
        × Missing rest ws')

gap_words-empty : has_word shortage_gap_words [] ≡ false
unfolding has_word shortage_gap_words word_eq
gap_words-empty = refl

shortage_after_iff : (rest ws : List Word) → (shortage_after rest ws ≡ true) ↔ MissingAfter rest ws
unfolding shortage_after
shortage_after_iff rest [] = (
  λ h. inl ((shortage_here_iff rest []).0 (ground (arith, gap_words-empty))),
  λ m. elim m [
    | inl here ↦ ground (arith, (shortage_here_iff rest []).1 here)
    | inr (gap, ws', e, g, here) ↦ ground arith
  ],
)
shortage_after_iff rest (w ∷ ws) = (
  λ h. elim (Bool-cases (shortage_here rest (w ∷ ws))) [
    | inl here ↦ inl ((shortage_here_iff rest (w ∷ ws)).0 here)
    | inr not_here ↦ inr (w, ws, refl, ground arith, (shortage_here_iff rest ws).0 (ground arith))
  ],
  λ m. elim m [
    | inl here ↦ ground (arith, (shortage_here_iff rest (w ∷ ws)).1 here)
    | inr (gap, ws', e, g, here) ↦ ground (arith, (shortage_here_iff rest ws').1 here)
  ],
)

-- Somewhere the marker stands, and behind it what is missing.
abbrev pub Tells : List Word → List Word → List Word → Type 0
Tells rest marker ws =
    (pre : List Word) × (after : List Word) × (ws ≡ pre ++ (marker ++ after))
    × MissingAfter rest after

Tells-here :
    (rest marker ws : List Word)
    → (begins_with marker ws && shortage_after rest (drop (length marker) ws)) ≡ true
    → Tells rest marker ws
Tells-here rest marker ws h = (
  [],
  drop (length marker) ws,
  append_drop_of_begins_with marker ws (ground arith),
  (shortage_after_iff rest (drop (length marker) ws)).0 (ground arith),
)

here_of_Tells :
    (rest marker after ws : List Word)
    → ws ≡ marker ++ after
    → MissingAfter rest after
    → (begins_with marker ws && shortage_after rest (drop (length marker) ws)) ≡ true
here_of_Tells rest marker after ws e m =
    subst (λ v. (begins_with marker v && shortage_after rest (drop (length marker) v)) ≡ true)
      (sym e)
      (ground (
        arith,
        begins_with-append marker after,
        drop-length marker after,
        (shortage_after_iff rest after).1 m,
      ))

Tells-empty :
    (rest marker pre after : List Word)
    → [] ≡ pre ++ (marker ++ after)
    → MissingAfter rest after
    → (begins_with marker [] && shortage_after rest (drop (length marker) [])) ≡ true
Tells-empty rest marker [] after e m = here_of_Tells rest marker after [] e m
Tells-empty rest marker (p ∷ pre) after e m = ground arith

Tells-cons :
    (rest marker : List Word) (w : Word) (ws pre after : List Word)
    → (w ∷ ws) ≡ pre ++ (marker ++ after)
    → MissingAfter rest after
    → ((begins_with marker (w ∷ ws) && shortage_after rest (drop (length marker) (w ∷ ws))) ≡ true)
      ⊎ Tells rest marker ws
Tells-cons rest marker w ws [] after e m = inl (here_of_Tells rest marker after (w ∷ ws) e m)
Tells-cons rest marker w ws (p ∷ pre) after e m = inr (pre, after, ground arith, m)

-- A sentence matches exactly if it holds, in this order and with
-- nothing between them, the marker, then at most one of the gap words, then the words of what is
-- missing, and the word that follows, if there is one, is none that makes it about something else.
pub matches_shortage_iff :
    (rest marker ws : List Word) → (matches_shortage rest marker ws ≡ true) ↔ Tells rest marker ws
unfolding matches_shortage
matches_shortage_iff rest marker [] =
    (λ h. Tells-here rest marker [] h, λ t. Tells-empty rest marker t.0 t.1 t.2 t.3)
matches_shortage_iff rest marker (w ∷ ws) = (
  λ h. elim (Bool-cases (matches_shortage rest marker ws)) [
    | inl later ↦
        let t = (matches_shortage_iff rest marker ws).0 later in
        (w ∷ t.0, t.1, ap (λ v. w ∷ v) t.2, t.3)
    | inr not_later ↦ Tells-here rest marker (w ∷ ws) (ground arith)
  ],
  λ t. elim (Tells-cons rest marker w ws t.0 t.1 t.2 t.3) [
    | inl here ↦ ground arith
    | inr later ↦ ground (arith, (matches_shortage_iff rest marker ws).1 later)
  ],
)
