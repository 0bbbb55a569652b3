-- ===== src/Common/Lists.antt =====
-- Lists measured by native numbers, and Boolean searches that run.
use Prim.Native.Nat.{ℕ, zero, suc, ◌+◌, ◌≤◌}
use mathlib.Core.Path.{◌≡◌, refl, sym, subst}
use mathlib.Core.Logic.{inl, inr}
use mathlib.Core.Bool.{Bool, true, false, ◌&&◌, ◌||◌}
use mathlib.Core.Option.{Option, none, some}
use mathlib.Core.List.{List, [], ◌∷◌, ◌++◌, map, Memᴰ}
use native.Mathlib.Omega.{arith}
use ethixweb_ai_csr.Common.Tests.{if◌then◌else◌, Bool-cases}

module _ {ℓ} {A : Type ℓ} where
  abbrev pub length : List A → ℕ
  length [] = 0
  length (x ∷ xs) = suc (length xs)

  abbrev pub get_elem? : List A → ℕ → Option A
  get_elem? [] i = none
  get_elem? (x ∷ xs) zero = some x
  get_elem? (x ∷ xs) (suc i) = get_elem? xs i

  abbrev pub drop : ℕ → List A → List A
  drop zero xs = xs
  drop (suc n) [] = []
  drop (suc n) (x ∷ xs) = drop n xs

  abbrev pub take : ℕ → List A → List A
  take zero xs = []
  take (suc n) [] = []
  take (suc n) (x ∷ xs) = x ∷ take n xs

  -- `xs.filter(p)`
  abbrev pub filter : (A → Bool) → List A → List A
  filter p [] = []
  filter p (x ∷ xs) = if p x then x ∷ filter p xs else filter p xs

  -- `xs.find(p)`
  abbrev pub find : (A → Bool) → List A → Option A
  find p [] = none
  find p (x ∷ xs) = if p x then some x else find p xs

  -- `xs.every(p)`
  abbrev pub every : (A → Bool) → List A → Bool
  every p [] = true
  every p (x ∷ xs) = p x && every p xs

  -- `xs.some(p)`
  abbrev pub any : (A → Bool) → List A → Bool
  any p [] = false
  any p (x ∷ xs) = p x || any p xs

  -- Every element satisfies `P`.
  abbrev pub All {κ} : (A → Type κ) → List A → Type κ
  All P [] = Unit
  All P (x ∷ xs) = P x × All P xs

  pub length-append : (xs ys : List A) → length (xs ++ ys) ≡ length xs + length ys
  length-append [] ys = omega arith
  length-append (x ∷ xs) ys = omega (arith, length-append xs ys)

  pub length-filter-le : (p : A → Bool) (xs : List A) → length (filter p xs) ≤ length xs
  length-filter-le p [] = omega arith
  length-filter-le p (x ∷ xs) = ground (arith, length-filter-le p xs)

  pub All-append {κ} : (P : A → Type κ) (xs ys : List A) → All P xs → All P ys → All P (xs ++ ys)
  All-append P [] ys h k = k
  All-append P (x ∷ xs) ys h k = (h.0, All-append P xs ys h.1 k)

  pub All-imp {κ κ'} :
      (P : A → Type κ) (Q : A → Type κ') (xs : List A) → ((x : A) → P x → Q x) → All P xs → All Q xs
  All-imp P Q [] f h = tt
  All-imp P Q (x ∷ xs) f h = (f x h.0, All-imp P Q xs f h.1)

  pub All-filter {κ} :
      (P : A → Type κ) (p : A → Bool) (xs : List A)
      → All P xs
      → All (λ x. P x × (p x ≡ true)) (filter p xs)
  All-filter P p [] h = tt
  All-filter P p (x ∷ xs) h = elim (Bool-cases (p x)) [
    | inl e ↦
        subst (λ b. All (λ x. P x × (p x ≡ true)) (if b then x ∷ filter p xs else filter p xs))
          (sym e) ((h.0, e), All-filter P p xs h.1)
    | inr e ↦
        subst (λ b. All (λ x. P x × (p x ≡ true)) (if b then x ∷ filter p xs else filter p xs))
          (sym e) (All-filter P p xs h.1)
  ]

  pub All-Mem : (xs : List A) → All (λ x. Memᴰ x xs) xs
  All-Mem [] = tt
  All-Mem (x ∷ xs) = (
    Memᴰ.head refl,
    All-imp (λ y. Memᴰ y xs) (λ y. Memᴰ y (x ∷ xs)) xs (λ y m. Memᴰ.tail m) (All-Mem xs),
  )

  pub find-append :
      (p : A → Bool) (xs ys : List A) (x : A) → find p xs ≡ some x → find p (xs ++ ys) ≡ some x
  find-append p [] ys x e = ground arith
  find-append p (y ∷ xs) ys x e = ground (arith, find-append p xs ys x)

  pub find-append_none :
      (p : A → Bool) (xs ys : List A) → find p xs ≡ none → find p (xs ++ ys) ≡ find p ys
  find-append_none p [] ys e = refl
  find-append_none p (y ∷ xs) ys e = ground (arith, find-append_none p xs ys)

  pub any-append : (p : A → Bool) (xs ys : List A) → any p (xs ++ ys) ≡ (any p xs || any p ys)
  any-append p [] ys = refl
  any-append p (x ∷ xs) ys = ground (arith, any-append p xs ys)

  -- What is found passes the test.
  pub find-some : (p : A → Bool) (xs : List A) (x : A) → find p xs ≡ some x → p x ≡ true
  find-some p [] x e = ground arith
  find-some p (y ∷ xs) x e = ground (arith, find-some p xs x)

  -- Where nothing passes, nothing is found that passes a further test too.
  pub find-none :
      (p q : A → Bool) (xs : List A) → any p xs ≡ false → find (λ x. p x && q x) xs ≡ none
  find-none p q [] e = refl
  find-none p q (x ∷ xs) e = ground (arith, find-none p q xs)

  -- What is found fails a further test, if all fail the two together.
  pub find-any-false :
      (p q : A → Bool) (xs : List A) (x : A)
      → find p xs ≡ some x
      → any (λ y. p y && q y) xs ≡ false
      → q x ≡ false
  find-any-false p q [] x e n = ground arith
  find-any-false p q (y ∷ xs) x e n = ground (arith, find-any-false p q xs x)

  filter_empty :
      (p q : A → Bool) (xs : List A) → length (filter p xs) ≤ 0 → any (λ y. p y && q y) xs ≡ false
  filter_empty p q [] h = refl
  filter_empty p q (x ∷ xs) h = ground (arith, filter_empty p q xs)

  -- What is found passes a further test, if it is the only one and something passes the two together.
  pub find-any-true :
      (p q : A → Bool) (xs : List A) (x : A)
      → length (filter p xs) ≤ 1
      → find p xs ≡ some x
      → any (λ y. p y && q y) xs ≡ true
      → q x ≡ true
  find-any-true p q [] x u e n = ground arith
  find-any-true p q (y ∷ xs) x u e n = ground (arith, find-any-true p q xs x, filter_empty p q xs)

  pub length-filter-append :
      (p : A → Bool) (xs ys : List A)
      → length (filter p (xs ++ ys)) ≡ length (filter p xs) + length (filter p ys)
  length-filter-append p [] ys = omega arith
  length-filter-append p (x ∷ xs) ys = ground (arith, length-filter-append p xs ys)

  pub length-filter_none :
      (p : A → Bool) (xs : List A) → any p xs ≡ false → length (filter p xs) ≡ 0
  length-filter_none p [] e = refl
  length-filter_none p (x ∷ xs) e = ground (arith, length-filter_none p xs)

module _ {ℓ} {A : Type ℓ} where
  -- A change that keeps what is tested keeps what is found, changed.
  pub find-map :
      (p : A → Bool) (f : A → A) (xs : List A) (x : A)
      → ((y : A) → p (f y) ≡ p y)
      → find p xs ≡ some x
      → find p (map f xs) ≡ some (f x)
  find-map p f [] x keeps e = ground arith
  find-map p f (y ∷ xs) x keeps e = ground (arith, keeps y, find-map p f xs x keeps)

  pub length-filter-map :
      (p : A → Bool) (f : A → A) (xs : List A)
      → ((y : A) → p (f y) ≡ p y)
      → length (filter p (map f xs)) ≡ length (filter p xs)
  length-filter-map p f [] keeps = refl
  length-filter-map p f (y ∷ xs) keeps = ground (arith, keeps y, length-filter-map p f xs keeps)

module _ {ℓ} {A : Type ℓ} where
  -- What is found, and passes a further test, shows that something passes the two together.
  pub any_of_find :
      (p q : A → Bool) (xs : List A) (x : A)
      → find p xs ≡ some x
      → q x ≡ true
      → any (λ y. p y && q y) xs ≡ true
  any_of_find p q [] x e h = ground arith
  any_of_find p q (y ∷ xs) x e h = ground (arith, any_of_find p q xs x)
