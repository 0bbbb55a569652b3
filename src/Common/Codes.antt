-- ===== src/Common/Codes.antt =====
-- Texts as lists of code units: searches, white space, and `join`.
use Prim.Native.Nat.{ℕ}
use mathlib.Core.Path.{◌≡◌, refl, subst}
use mathlib.Core.Logic.{◌↔◌}
use native.Mathlib.Omega.{arith}
use mathlib.Core.Bool.{Bool, true, false, ◌&&◌, ◌||◌}
use mathlib.Core.Option.{Option, none, some}
use mathlib.Core.List.{List, [], ◌∷◌, ◌++◌}
use ethixweb_ai_csr.Common.Tests.{leb, ◌==◌, if◌then◌else◌}
use ethixweb_ai_csr.Common.Lists.{drop, length}

-- `s.startsWith(prefix)`, on code units.
unfoldable pub starts_with : List ℕ → List ℕ → Bool
starts_with s [] = true
starts_with [] (p ∷ prefix) = false
starts_with (c ∷ s) (p ∷ prefix) = (c == p) && starts_with s prefix

-- `s.includes(part)`
unfoldable pub includes_codes : List ℕ → List ℕ → Bool
unfolding starts_with
includes_codes [] part = starts_with [] part
includes_codes (c ∷ s) part = starts_with (c ∷ s) part || includes_codes s part

-- What stands behind the first `part`: `s.slice(s.indexOf(part) + part.length)`, or none for index -1.
unfoldable pub behind : List ℕ → List ℕ → Option (List ℕ)
unfolding starts_with
behind [] part = if starts_with [] part then some [] else none
behind (c ∷ s) part =
    if starts_with (c ∷ s) part then some (drop (length part) (c ∷ s)) else behind s part

-- `\s`, which is also what `trim` takes off.
abbrev pub is_space : ℕ → Bool
is_space c =
    (leb 9 c && leb c 13)
    || (c == 32)
    || (c == 160)
    || (c == 5760)
    || (leb 8192 c && leb c 8202)
    || (c == 8232)
    || (c == 8233)
    || (c == 8239)
    || (c == 8287)
    || (c == 12288)
    || (c == 65279)

-- `s.trim().length > 0`
unfoldable pub has_words : List ℕ → Bool
has_words [] = false
has_words (c ∷ s) = if is_space c then has_words s else true

-- `parts.join(separator)`, on code units.
unfoldable pub join_codes : List ℕ → List (List ℕ) → List ℕ
join_codes separator [] = []
join_codes separator (x ∷ []) = x
join_codes separator (x ∷ y ∷ xs) = x ++ (separator ++ join_codes separator (y ∷ xs))

-- `===` on texts.
unfoldable pub codes_eq : List ℕ → List ℕ → Bool
codes_eq [] [] = true
codes_eq [] (d ∷ ds) = false
codes_eq (c ∷ cs) [] = false
codes_eq (c ∷ cs) (d ∷ ds) = (c == d) && codes_eq cs ds

codes_eq_refl : (s : List ℕ) → codes_eq s s ≡ true
unfolding codes_eq
codes_eq_refl [] = refl
codes_eq_refl (c ∷ s) = ground (arith, codes_eq_refl s)

codes_eq_sound : (s t : List ℕ) → codes_eq s t ≡ true → s ≡ t
unfolding codes_eq
codes_eq_sound [] [] e = refl
codes_eq_sound [] (d ∷ t) e = cc
codes_eq_sound (c ∷ s) [] e = cc
codes_eq_sound (c ∷ s) (d ∷ t) e = ground (arith, codes_eq_sound s t)

pub codes_eq_iff : (s t : List ℕ) → (codes_eq s t ≡ true) ↔ (s ≡ t)
codes_eq_iff s t = (codes_eq_sound s t, λ e. subst (λ u. codes_eq s u ≡ true) e (codes_eq_refl s))
