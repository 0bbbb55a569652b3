-- ===== src/Conversation/Window/Summaries.antt =====
-- context-window.ts: the length of a summary.
use mathlib.Core.List.{append_assoc}
use ethixweb_ai_csr.Common.{
  ℕ, zero, suc, ◌-◌, ◌≤◌, ◌≡◌, refl, ap, ◌⊎◌, inl, inr, true, Bool-cases, Option-cases, none, some,
  [], ◌∷◌, ◌++◌, arith, leb, length, length-append, drop, behind, starts_with, codes,
}
use ethixweb_ai_csr.Conversation.Records.{Text}
use ethixweb_ai_csr.Conversation.Window.{summary_truncation_marker, or_all, cap_summary_length}

length-drop : (n : ℕ) (xs : Text) → length (drop n xs) ≡ length xs - n
length-drop zero xs = omega arith
length-drop (suc n) [] = omega arith
length-drop (suc n) (x ∷ xs) = omega (arith, length-drop n xs)

-- A text ends with another.
abbrev pub EndsWith : Text → Text → Type 0
EndsWith xs ys = (front : Text) × (xs ≡ front ++ ys)

drop-EndsWith : (n : ℕ) (xs : Text) → EndsWith xs (drop n xs)
drop-EndsWith zero xs = ([], refl)
drop-EndsWith (suc n) [] = ([], refl)
drop-EndsWith (suc n) (x ∷ xs) =
    let (front, e) = drop-EndsWith n xs in (x ∷ front, ap (λ t. x ∷ t) e)

starts_with-EndsWith :
    (s part : Text) → starts_with s part ≡ true → s ≡ part ++ drop (length part) s
unfolding starts_with
starts_with-EndsWith s [] e = refl
starts_with-EndsWith [] (p ∷ part) e = cc
starts_with-EndsWith (c ∷ s) (p ∷ part) e = ground (arith, starts_with-EndsWith s part)

behind-EndsWith : (s part rest : Text) → behind s part ≡ some rest → EndsWith s (part ++ rest)
unfolding behind
behind-EndsWith [] [] rest e = ([], ground arith)
behind-EndsWith [] (p ∷ part) rest e = absurd (ground (arith, e))
behind-EndsWith (c ∷ s) part rest e = elim (Bool-cases (starts_with (c ∷ s) part)) [
  | inl here ↦ ([], ground (arith, starts_with-EndsWith (c ∷ s) part here))
  | inr later ↦
      let (front, e') = behind-EndsWith s part rest (rw later at e) in
      (c ∷ front, ap (λ t. c ∷ t) e')
]

EndsWith-trans : (xs ys zs : Text) → EndsWith xs ys → EndsWith ys zs → EndsWith xs zs
EndsWith-trans xs ys zs (f, e) (g, e') = (f ++ g, simp (e, e', append_assoc))

length-EndsWith : (xs ys : Text) → EndsWith xs ys → length ys ≤ length xs
length-EndsWith xs ys (f, e) = omega (arith, ap length e, length-append f ys)

-- A carried summary has at most 4000 characters behind its marker. It is the text itself, or the end of
-- it: what follows a separator between two lines, or, where its last 4000 characters have none, those.
pub cap_summary_length_lem :
    (body : Text)
    → ((cap_summary_length body ≡ body) × (length body ≤ 4000))
      ⊎ ((kept : Text) × (cap_summary_length body ≡ summary_truncation_marker ++ kept)
          × (length kept ≤ 4000)
          × (EndsWith body (codes " | " ++ kept)
              ⊎ ((kept ≡ drop (length body - 4000) body) × (behind kept (codes " | ") ≡ none))))
unfolding cap_summary_length or_all
cap_summary_length_lem body =
    let tail = drop (length body - 4000) body in
    elim (Bool-cases (leb (length body) 4000)) [
      | inl short ↦ inl (rw short, ground arith)
      | inr long ↦ elim (Option-cases (behind tail (codes " | "))) [
        | inl nowhere ↦ inr (
          tail,
          rw (long, nowhere),
          omega (arith, length-drop (length body - 4000) body),
          inr (refl, nowhere),
        )
        | inr (kept, found) ↦
            let ends = behind-EndsWith tail (codes " | ") kept found in
            inr (
              kept,
              rw (long, found),
              omega (
                arith,
                length-drop (length body - 4000) body,
                length-EndsWith tail (codes " | " ++ kept) ends,
                length-append (codes " | ") kept,
              ),
              inl (
                  EndsWith-trans body tail (codes " | " ++ kept)
                    (drop-EndsWith (length body - 4000) body) ends),
            )
      ]
    ]
