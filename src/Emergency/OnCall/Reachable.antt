-- ===== src/Emergency/OnCall/Reachable.antt =====
-- resolve-oncall.use-case.ts: whose phone rings.
use ethixweb_ai_csr.Common.{
  ℕ, ◌≤◌, ◌<◌, ◌≡◌, refl, ◌⊎◌, inl, inr, true, List, [], ◌∷◌, Option, none, some, String, arith,
  eq_iff, leb, All, All-imp, All-filter, All-Mem, Memᴰ, Bool-cases, str_eq,
}
use ethixweb_ai_csr.Emergency.OnCall.{
  OnCallRotation, OnCallShift, OnCallTables, list_rotations_by_business, by_start, insert_shift,
  is_active_shift, is_upcoming_shift, find_active_shifts, find_upcoming_shift, first, phones_of,
  keep_phone, upcoming_targets, upcoming_phone, targets_or, resolve, resolve_on_call,
}

-- A shift of the table that belongs to a rotation of the business, with this phone number, and is
-- running or still to come.
abbrev pub Serves : OnCallTables → String → String → ℕ → String → Type 0
Serves t tenant_id business_id at phone =
    (r : OnCallRotation) × (s : OnCallShift) × Memᴰ r t.rotations
    × (r.tenant_id ≡ tenant_id)
    × (r.business_id ≡ business_id)
    × Memᴰ s t.shifts
    × (s.tenant_id ≡ tenant_id)
    × (s.rotation_id ≡ r.id)
    × (s.phone_override ≡ some phone)
    × (((s.starts_at ≤ at) × (at < s.ends_at)) ⊎ (at < s.starts_at))

All-insert_shift {κ} :
    (P : OnCallShift → Type κ) (s : OnCallShift) (ss : List OnCallShift)
    → P s
    → All P ss
    → All P (insert_shift s ss)
unfolding insert_shift
All-insert_shift P s [] p h = (p, h)
All-insert_shift P s (r ∷ rs) p h = elim (Bool-cases (leb s.starts_at r.starts_at)) [
  | inl e ↦ rw (e) (p, h)
  | inr e ↦ rw (e) (h.0, All-insert_shift P s rs p h.1)
]

All-by_start {κ} :
    (P : OnCallShift → Type κ) (ss : List OnCallShift) → All P ss → All P (by_start ss)
unfolding by_start
All-by_start P [] h = h
All-by_start P (s ∷ ss) h = All-insert_shift P s (by_start ss) h.0 (All-by_start P ss h.1)

-- A number of a shift of which `P` holds.
abbrev PhoneOf {κ} : (OnCallShift → Type κ) → String → Type κ
PhoneOf P phone = (s : OnCallShift) × P s × (s.phone_override ≡ some phone)

All-keep_phone {κ} :
    (P : OnCallShift → Type κ) (s : OnCallShift) (phone : Option String) (phones : List String)
    → s.phone_override ≡ phone
    → P s
    → All (PhoneOf P) phones
    → All (PhoneOf P) (keep_phone phone phones)
unfolding keep_phone
All-keep_phone P s none phones e p h = h
All-keep_phone P s (some phone) phones e p h = ((s, p, e), h)

All-phones_of {κ} :
    (P : OnCallShift → Type κ) (ss : List OnCallShift) → All P ss → All (PhoneOf P) (phones_of ss)
unfolding phones_of
All-phones_of P [] h = tt
All-phones_of P (s ∷ ss) h =
    All-keep_phone P s s.phone_override (phones_of ss) refl h.0 (All-phones_of P ss h.1)

All-upcoming_phone {κ} :
    (P : OnCallShift → Type κ) (s : OnCallShift) (phone : Option String)
    → s.phone_override ≡ phone
    → P s
    → All (PhoneOf P) (upcoming_phone phone)
unfolding upcoming_phone
All-upcoming_phone P s none e p = tt
All-upcoming_phone P s (some phone) e p = elim (Bool-cases (str_eq phone "")) [
  | inl empty ↦ rw (empty) tt
  | inr full ↦ rw (full) ((s, p, e), tt)
]

All-upcoming_targets {κ} :
    (P : OnCallShift → Type κ) (ss : List OnCallShift)
    → All P ss
    → All (PhoneOf P) (upcoming_targets (first ss))
unfolding upcoming_targets
All-upcoming_targets P [] h = tt
All-upcoming_targets P (s ∷ ss) h = All-upcoming_phone P s s.phone_override refl h.0

All-targets_or {κ} :
    (P : String → Type κ) (ps qs : List String) → All P ps → All P qs → All P (targets_or ps qs)
unfolding targets_or
All-targets_or P [] qs h k = k
All-targets_or P (p ∷ ps) qs h k = h

active_shift :
    (tenant_id rotation_id : String) (at : ℕ) (s : OnCallShift)
    → is_active_shift tenant_id rotation_id at s ≡ true
    → (s.tenant_id ≡ tenant_id)
      × (s.rotation_id ≡ rotation_id)
      × (s.starts_at ≤ at)
      × (at < s.ends_at)
unfolding is_active_shift
active_shift tenant_id rotation_id at s h =
    ground (arith, eq_iff s.tenant_id tenant_id, eq_iff s.rotation_id rotation_id)

upcoming_shift :
    (tenant_id rotation_id : String) (at : ℕ) (s : OnCallShift)
    → is_upcoming_shift tenant_id rotation_id at s ≡ true
    → (s.tenant_id ≡ tenant_id) × (s.rotation_id ≡ rotation_id) × (at < s.starts_at)
unfolding is_upcoming_shift
upcoming_shift tenant_id rotation_id at s h =
    ground (arith, eq_iff s.tenant_id tenant_id, eq_iff s.rotation_id rotation_id)

-- The shifts that the two queries can return for a rotation.
abbrev OfRotation : OnCallTables → String → String → ℕ → OnCallShift → Type 0
OfRotation t tenant_id rotation_id at s =
    Memᴰ s t.shifts
    × (s.tenant_id ≡ tenant_id)
    × (s.rotation_id ≡ rotation_id)
    × (((s.starts_at ≤ at) × (at < s.ends_at)) ⊎ (at < s.starts_at))

find_active_shifts_lem :
    (t : OnCallTables) (tenant_id rotation_id : String) (at : ℕ)
    → All (OfRotation t tenant_id rotation_id at) (find_active_shifts t tenant_id rotation_id at)
unfolding find_active_shifts
find_active_shifts_lem t tenant_id rotation_id at =
    All-by_start (OfRotation t tenant_id rotation_id at) _ (
      All-imp _ (OfRotation t tenant_id rotation_id at) _
        (λ s h.
          let a = active_shift tenant_id rotation_id at s h.1 in (h.0, a.0, a.1, inl (a.2, a.3)))
        (All-filter (λ s. Memᴰ s t.shifts) (is_active_shift tenant_id rotation_id at) t.shifts
          (All-Mem t.shifts)))

upcoming_lem :
    (t : OnCallTables) (tenant_id rotation_id : String) (at : ℕ)
    → All
        (PhoneOf (OfRotation t tenant_id rotation_id at))
        (upcoming_targets (find_upcoming_shift t tenant_id rotation_id at))
unfolding find_upcoming_shift
upcoming_lem t tenant_id rotation_id at =
    All-upcoming_targets (OfRotation t tenant_id rotation_id at) _ (
      All-by_start (OfRotation t tenant_id rotation_id at) _ (
        All-imp _ (OfRotation t tenant_id rotation_id at) _
          (λ s h. let a = upcoming_shift tenant_id rotation_id at s h.1 in (h.0, a.0, a.1, inr a.2))
          (All-filter (λ s. Memᴰ s t.shifts) (is_upcoming_shift tenant_id rotation_id at) t.shifts
            (All-Mem t.shifts))))

resolve_lem :
    (t : OnCallTables) (tenant_id business_id : String) (at : ℕ) (rs : List OnCallRotation)
    → All (λ r. Memᴰ r t.rotations × (r.tenant_id ≡ tenant_id) × (r.business_id ≡ business_id)) rs
    → All (Serves t tenant_id business_id at) (resolve t tenant_id at (first rs)).targets
unfolding resolve
resolve_lem t tenant_id business_id at [] h = tt
resolve_lem t tenant_id business_id at (r ∷ rs) h =
    All-imp (PhoneOf (OfRotation t tenant_id r.id at)) (Serves t tenant_id business_id at) _
      (λ phone o. (r, o.0, h.0.0, h.0.1, h.0.2, o.1.0, o.1.1, o.1.2, o.2, o.1.3))
      (All-targets_or (PhoneOf (OfRotation t tenant_id r.id at)) _ _
        (All-phones_of (OfRotation t tenant_id r.id at) _
          (find_active_shifts_lem t tenant_id r.id at))
        (upcoming_lem t tenant_id r.id at))

-- Every number that the resolver returns is the number of a shift in the table, of the tenant and of a
-- rotation of that tenant's business, and the shift is running at the time asked for or starts later.
pub resolve_on_call_reaches :
    (t : OnCallTables) (tenant_id business_id : String) (at : ℕ)
    → All (Serves t tenant_id business_id at) (resolve_on_call t tenant_id business_id at).targets
unfolding resolve_on_call list_rotations_by_business
resolve_on_call_reaches t tenant_id business_id at = resolve_lem t tenant_id business_id at _ (
    All-imp _ _ _
      (λ (r : OnCallRotation) h. (
        h.0,
        ground (arith, eq_iff r.tenant_id tenant_id, eq_iff r.business_id business_id),
        ground (arith, eq_iff r.tenant_id tenant_id, eq_iff r.business_id business_id),
      ))
      (All-filter (λ r. Memᴰ r t.rotations) _ t.rotations (All-Mem t.rotations)))
