-- ===== src/Common/Decimal.antt =====
-- `String(n)` for a natural number, as code units.
use Prim.Native.Nat.{ℕ, zero, suc, ◌+◌, ◌-◌, ◌*◌, ◌/◌, ◌%◌, ◌<◌}
use mathlib.Core.Path.{◌≡◌, refl, sym, ap, ◌∙◌}
use mathlib.Core.List.{List, [], ◌∷◌, ◌++◌}
use native.Mathlib.Omega.{arith}
use ethixweb_ai_csr.Common.Tests.{ltb, if◌then◌else◌}

-- The digits of `n`; the fuel is above the number of them.
digits : ℕ → ℕ → List ℕ
digits zero n = []
digits (suc fuel) n =
    let front = digits fuel (n / 10) in
    if ltb n 10 then (n + 48) ∷ [] else front ++ (n % 10 + 48) ∷ []

unfoldable pub decimal : ℕ → List ℕ
unfolding digits
decimal n = digits (suc n) n

-- The number that digits stand for, read from the left.
read_from : ℕ → List ℕ → ℕ
read_from acc [] = acc
read_from acc (c ∷ cs) = read_from (acc * 10 + (c - 48)) cs

read_from-append :
    (acc : ℕ) (xs : List ℕ) (c : ℕ)
    → read_from acc (xs ++ c ∷ []) ≡ read_from acc xs * 10 + (c - 48)
unfolding read_from
read_from-append acc [] c = refl
read_from-append acc (x ∷ xs) c = read_from-append (acc * 10 + (x - 48)) xs c

read_from-digits : (fuel n : ℕ) → n < fuel → read_from 0 (digits fuel n) ≡ n
unfolding digits read_from
read_from-digits zero n h = absurd (omega arith)
read_from-digits (suc fuel) n h =
    let front = digits fuel (n / 10) in
    let ih = read_from-digits fuel (n / 10) in
    ground (arith, ih, read_from-append 0 front (n % 10 + 48))

-- Different numbers have different texts.
pub decimal_injective : (m n : ℕ) → decimal m ≡ decimal n → m ≡ n
unfolding decimal
decimal_injective m n e =
    sym (read_from-digits (suc m) m (omega arith))
    ∙ ap (read_from 0) e
    ∙ read_from-digits (suc n) n (omega arith)
