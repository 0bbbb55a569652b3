-- ===== src/Emergency/OnCall.antt =====
-- ResolveOnCallUseCase of apps/core-api/src/modules/emergency-rules/application/resolve-oncall.use-case.ts,
-- on the queries of infrastructure/prisma-oncall.repository.ts beside it.
pub mod Reachable
use ethixweb_ai_csr.Common.{
  ℕ, Bool, true, false, ◌&&◌, List, [], ◌∷◌, Option, none, some, String, leb, ltb, not,
  if◌then◌else◌, filter, str_eq, map,
}

pub data OnCallStrategy : Type 0 where
  round_robin priority_list simultaneous_ring : OnCallStrategy

pub record OnCallRotation : Type 0 where
  pub id : String
  pub tenant_id : String
  pub business_id : String
  pub name : String
  pub strategy : OnCallStrategy

-- Times are milliseconds.
pub record OnCallShift : Type 0 where
  pub id : String
  pub tenant_id : String
  pub rotation_id : String
  pub user_id : String
  pub starts_at : ℕ
  pub ends_at : ℕ
  pub phone_override : Option String

-- The rows of the two tables.
pub record OnCallTables : Type 0 where
  pub rotations : List OnCallRotation
  pub shifts : List OnCallShift

unfoldable pub list_rotations_by_business : OnCallTables → String → String → List OnCallRotation
list_rotations_by_business t tenant_id business_id =
    filter
      (λ (r : OnCallRotation). str_eq r.tenant_id tenant_id && str_eq r.business_id business_id)
      t.rotations

-- `orderBy: { startsAt: "asc" }`, rows of one start in the order of the table.
insert_shift : OnCallShift → List OnCallShift → List OnCallShift
insert_shift s [] = s ∷ []
insert_shift s (r ∷ rs) = if leb s.starts_at r.starts_at then s ∷ r ∷ rs else r ∷ insert_shift s rs

unfoldable pub by_start : List OnCallShift → List OnCallShift
unfolding insert_shift
by_start [] = []
by_start (s ∷ ss) = insert_shift s (by_start ss)

unfoldable pub is_active_shift : String → String → ℕ → OnCallShift → Bool
is_active_shift tenant_id rotation_id at s =
    str_eq s.tenant_id tenant_id
    && str_eq s.rotation_id rotation_id
    && leb s.starts_at at
    && ltb at s.ends_at

unfoldable pub is_upcoming_shift : String → String → ℕ → OnCallShift → Bool
is_upcoming_shift tenant_id rotation_id after s =
    str_eq s.tenant_id tenant_id && str_eq s.rotation_id rotation_id && ltb after s.starts_at

unfoldable pub find_active_shifts : OnCallTables → String → String → ℕ → List OnCallShift
unfolding by_start is_active_shift
find_active_shifts t tenant_id rotation_id at =
    by_start (filter (is_active_shift tenant_id rotation_id at) t.shifts)

-- The first row of a query, if there is one.
abbrev pub first {ℓ} : {A : Type ℓ} → List A → Option A
first [] = none
first (x ∷ xs) = some x

unfoldable pub find_upcoming_shift : OnCallTables → String → String → ℕ → Option OnCallShift
unfolding by_start is_upcoming_shift
find_upcoming_shift t tenant_id rotation_id after =
    first (by_start (filter (is_upcoming_shift tenant_id rotation_id after) t.shifts))

-- `shifts.map((shift) => shift.phoneOverride).filter((phone) => phone !== null)`
keep_phone : Option String → List String → List String
keep_phone none phones = phones
keep_phone (some phone) phones = phone ∷ phones

unfoldable pub phones_of : List OnCallShift → List String
unfolding keep_phone
phones_of [] = []
phones_of (s ∷ ss) = keep_phone s.phone_override (phones_of ss)

-- `upcoming?.phoneOverride ? [upcoming.phoneOverride] : []`, where the empty text counts as no number.
upcoming_phone : Option String → List String
upcoming_phone none = []
upcoming_phone (some phone) = if str_eq phone "" then [] else phone ∷ []

unfoldable pub upcoming_targets : Option OnCallShift → List String
unfolding upcoming_phone
upcoming_targets none = []
upcoming_targets (some s) = upcoming_phone s.phone_override

pub record ResolveOnCallResult : Type 0 where
  pub targets : List String
  pub strategy : Option OnCallStrategy

targets_or : List String → List String → List String
targets_or [] others = others
targets_or (p ∷ ps) others = p ∷ ps

resolve : OnCallTables → String → ℕ → Option OnCallRotation → ResolveOnCallResult
unfolding targets_or phones_of find_active_shifts find_upcoming_shift upcoming_targets
resolve t tenant_id at none = record { targets = []; strategy = none }
resolve t tenant_id at (some rotation) = record {
  targets =
      targets_or (phones_of (find_active_shifts t tenant_id rotation.id at))
        (upcoming_targets (find_upcoming_shift t tenant_id rotation.id at));
  strategy = some rotation.strategy;
}

unfoldable pub resolve_on_call : OnCallTables → String → String → ℕ → ResolveOnCallResult
unfolding resolve list_rotations_by_business
resolve_on_call t tenant_id business_id at =
    resolve t tenant_id at (first (list_rotations_by_business t tenant_id business_id))
