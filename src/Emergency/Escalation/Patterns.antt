-- ===== src/Emergency/Escalation/Patterns.antt =====
-- emergency-rule.entity.ts: the patterns that are matched whatever rules a business has.
use ethixweb_ai_csr.Common.{
  ◌≡◌, refl, ap, ◌∙◌, ◌||◌, ◌&&◌, Bool, List, [], ◌∷◌, ◌++◌, String, arith, any, filter, map,
}
use ethixweb_ai_csr.Emergency.Rules.{DefaultRule}
use ethixweb_ai_csr.Emergency.Defaults.{default_emergency_keywords}
use ethixweb_ai_csr.Emergency.Matching.{matches_pattern}

-- The patterns that the source lists, by the severity that it gives them.
abbrev critical_patterns : List String
critical_patterns =
    "burst pipe" ∷ "pipe burst" ∷ "gas leak" ∷ "smell gas" ∷ "smell of gas" ∷ "sewer backup"
    ∷ "sewage backup" ∷ "flooding" ∷ "exploded" ∷ "blew up" ∷ "flooded" ∷ "water everywhere"
    ∷ "smells gas" ∷ "smells like gas" ∷ "smell like gas" ∷ "gas smell" ∷ "smelling gas"
    ∷ "sewage coming" ∷ "sewage backing" ∷ "sewer backing" ∷ "sewage overflowing" ∷ "sewage shower"
    ∷ "water pouring" ∷ "water gushing" ∷ "water spraying" ∷ "water ankles" ∷ "water knees"
    ∷ "ceiling collapsing" ∷ "ceiling caving" ∷ "burning smell" ∷ "smelling burning"
    ∷ "smells burning" ∷ "burning odor" ∷ "electrical smell" ∷ "smoke coming" ∷ "sparking"
    ∷ "water flowing" ∷ "water is flowing" ∷ "water spreading" ∷ "line burst" ∷ "hose burst"
    ∷ "filling house" ∷ "filling kitchen" ∷ "filling basement" ∷ "filling bathroom"
    ∷ "filling hallway" ∷ []

abbrev high_patterns : List String
high_patterns =
    "losing money" ∷ "out of business" ∷ "can't operate" ∷ "not able to operate" ∷ "no hot water"
    ∷ "no water" ∷ "don't have water" ∷ "without water" ∷ "overflowing toilet"
    ∷ "toilet overflowing" ∷ []

abbrev medium_patterns : List String
medium_patterns = "water heater leaking" ∷ []

-- Some pattern is matched by what the caller said.
abbrev pub mentions : String → List String → Bool
mentions haystack patterns = any (matches_pattern haystack) patterns

pub any-filter {ℓ} :
    {A : Type ℓ} (p q : A → Bool) (xs : List A) → any p (filter q xs) ≡ any (λ x. q x && p x) xs
any-filter p q [] = refl
any-filter p q (x ∷ xs) = ground (arith, any-filter p q xs)

any-map {ℓ κ} :
    {A : Type ℓ} {B : Type κ} (p : B → Bool) (f : A → B) (xs : List A)
    → any (λ x. p (f x)) xs ≡ any p (map f xs)
any-map p f [] = refl
any-map p f (x ∷ xs) = ap (λ b. p (f x) || b) (any-map p f xs)

abbrev pub default_patterns : List String
default_patterns = critical_patterns ++ high_patterns ++ medium_patterns

default_patterns_lem :
    map (λ (d : DefaultRule). d.pattern) default_emergency_keywords ≡ default_patterns
unfolding default_emergency_keywords
default_patterns_lem = refl

pub any-default :
    (haystack : String)
    → any (λ d. matches_pattern haystack d.pattern) default_emergency_keywords
      ≡ mentions haystack default_patterns
any-default haystack =
    any-map (matches_pattern haystack) (λ (d : DefaultRule). d.pattern) default_emergency_keywords
    ∙ ap (any (matches_pattern haystack)) default_patterns_lem
