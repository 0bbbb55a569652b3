-- ===== src/Capacity/Admission/Touched.antt =====
-- redis-call-admission.adapter.ts over sequences of calls: the slots of one key, call by
-- call.
use ethixweb_ai_csr.Common.{
  ℕ, ◌≤◌, ◌≡◌, refl, ap, [], ◌∷◌, String, arith, insert, remove, length, All, length-filter-le,
  length-remove-le, ltb,
}
use ethixweb_ai_csr.Capacity.SortedSets.{Members, unexpired}

-- What one operation at a time does to one set: an entry that is added lasts until `expires_at`, and
-- leaves the set within `most`.
pub data Touched (now expires_at most : ℕ) (xs ys : Members) : Type 0 where
  kept : ys ≡ xs → Touched now expires_at most xs ys
  purged : ys ≡ unexpired now xs → Touched now expires_at most xs ys
  removed : (m : String) → ys ≡ remove m xs → Touched now expires_at most xs ys
  entered :
      (m : String)
      → ys ≡ insert m expires_at (unexpired now xs)
      → length ys ≤ most
      → Touched now expires_at most xs ys

pub Touched-length :
    {now expires_at most : ℕ} {xs ys : Members}
    → Touched now expires_at most xs ys
    → length xs ≤ most
    → length ys ≤ most
Touched-length {xs = xs} (kept e) h = omega (arith, ap length e)
Touched-length {now} {xs = xs} (purged e) h =
    omega (arith, ap length e, length-filter-le (λ m. ltb now m.1) xs)
Touched-length {xs = xs} (removed m e) h = omega (arith, ap length e, length-remove-le m xs)
Touched-length (entered m e le) h = le

-- Every entry expires by a time.
abbrev pub ExpireBy : ℕ → Members → Type 0
ExpireBy t = All (λ m. m.1 ≤ t)

ExpireBy-unexpired : (now t : ℕ) (xs : Members) → ExpireBy t xs → ExpireBy t (unexpired now xs)
ExpireBy-unexpired now t [] h = tt
ExpireBy-unexpired now t (x ∷ xs) h = ground (arith, ExpireBy-unexpired now t xs h.1)

ExpireBy-remove : (m : String) (t : ℕ) (xs : Members) → ExpireBy t xs → ExpireBy t (remove m xs)
unfolding remove
ExpireBy-remove m t [] h = tt
ExpireBy-remove m t ((k, x) ∷ xs) h = ground (arith, ExpireBy-remove m t xs h.1)

ExpireBy-insert :
    (m : String) (x t : ℕ) (xs : Members) → x ≤ t → ExpireBy t xs → ExpireBy t (insert m x xs)
unfolding insert
ExpireBy-insert m x t [] le h = (le, tt)
ExpireBy-insert m x t ((k, y) ∷ xs) le h = ground (arith, ExpireBy-insert m x t xs le h.1)

pub unexpired_none : (now t : ℕ) (xs : Members) → t ≤ now → ExpireBy t xs → unexpired now xs ≡ []
unexpired_none now t [] le h = refl
unexpired_none now t ((k, x) ∷ xs) le h = ground (arith, unexpired_none now t xs le h.1)

pub Touched-ExpireBy :
    {now expires_at most t : ℕ} {xs ys : Members}
    → Touched now expires_at most xs ys
    → expires_at ≤ t
    → ExpireBy t xs
    → ExpireBy t ys
Touched-ExpireBy (kept e) le h = rw e h
Touched-ExpireBy {now} {t = t} {xs = xs} (purged e) le h = rw e (ExpireBy-unexpired now t xs h)
Touched-ExpireBy {t = t} {xs = xs} (removed m e) le h = rw e (ExpireBy-remove m t xs h)
Touched-ExpireBy {now} {expires_at} {t = t} {xs = xs} (entered m e within) le h =
    rw e (ExpireBy-insert m expires_at t _ le (ExpireBy-unexpired now t xs h))
