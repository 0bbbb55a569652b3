-- ===== src/Capacity/Admission.antt =====
-- apps/voice-orchestrator/src/modules/capacity/infrastructure/redis-call-admission.adapter.ts
-- A script runs as one step. The clock and the random id are arguments; the headroom ratio is an
-- exact fraction.
pub mod Keys
pub mod Ceilings
pub mod Touched
pub mod Slots
pub mod Aging
use Prim.Native.String.{◌++◌}
use ethixweb_ai_csr.Common.{ℕ, ◌+◌, ◌-◌, ◌*◌, ◌/◌, max, Bool, String, leb, ◌==◌, if◌then◌else◌}
use ethixweb_ai_csr.Capacity.SortedSets.{SortedSets}

abbrev pub reservation_ttl_ms : ℕ
reservation_ttl_ms = 45 * 60 * 1000

abbrev pub global_key : String
global_key = "capacity:global:calls"

unfoldable pub tenant_key : String → String
tenant_key tenant_id = "capacity:tenant:" ++ (tenant_id ++ ":calls")

unfoldable pub global_member : String → String → String
global_member tenant_id reservation_id = tenant_id ++ (":" ++ reservation_id)

pub data ReserveReply : Type 0 where
  tenant_full global_full reserved : ReserveReply

pub data ReleaseReply : Type 0 where
  already_released released : ReleaseReply

-- The limits of `reserve`; the ratio is a numerator over a denominator.
pub record Limits : Type 0 where
  pub max_tenant_concurrent_calls : ℕ
  pub max_global_concurrent_calls : ℕ
  pub emergency_headroom_num : ℕ
  pub emergency_headroom_den : ℕ
  pub is_emergency_priority : Bool

-- `floor(max * (1 - ratio))`, at least 1 for a normal call.
unfoldable pub tenant_ceiling : Limits → ℕ
tenant_ceiling limits =
    if limits.is_emergency_priority
    then limits.max_tenant_concurrent_calls
    else max 1 (
        limits.max_tenant_concurrent_calls
        * (limits.emergency_headroom_den - limits.emergency_headroom_num)
        / limits.emergency_headroom_den)

-- What `reserve` returns or throws.
pub data Reservation : Type 0 where
  granted : String → Reservation
  capacity_exceeded_tenant capacity_exceeded_global : String → Reservation

answer : String → String → ReserveReply → Reservation
answer tenant_id reservation_id tenant_full = capacity_exceeded_tenant tenant_id
answer tenant_id reservation_id global_full = capacity_exceeded_global tenant_id
answer tenant_id reservation_id reserved = granted reservation_id

module _ (redis : SortedSets) where
  open redis use {State, zremrangebyscore, zcard, zadd, zrem, expire}

  unfoldable pub reserve_script :
      String → String → String → String → ℕ → ℕ → ℕ → ℕ → ℕ → State → State × ReserveReply
  reserve_script tenant_key global_key member global_member now expires_at max_global tenant_ceiling
        key_ttl_seconds s =
      let s₁ = zremrangebyscore tenant_key now s in
      let s₂ = zremrangebyscore global_key now s₁ in
      if leb tenant_ceiling (zcard tenant_key s₂)
      then (s₂, tenant_full)
      else if leb max_global (zcard global_key s₂)
      then (s₂, global_full)
      else (let s₃ = zadd tenant_key expires_at member s₂ in
          let s₄ = expire tenant_key key_ttl_seconds s₃ in
          let s₅ = zadd global_key expires_at global_member s₄ in
          (expire global_key key_ttl_seconds s₅, reserved))

  unfoldable pub release_script : String → String → String → String → State → State × ReleaseReply
  release_script tenant_key global_key member global_member s =
      let (s₁, removed) = zrem tenant_key member s in
      let (s₂, _) = zrem global_key global_member s₁ in
      (s₂, if removed == 0 then already_released else released)

  unfoldable pub count_script : String → String → ℕ → State → State × (ℕ × ℕ)
  count_script tenant_key global_key now s =
      let s₁ = zremrangebyscore tenant_key now s in
      let s₂ = zremrangebyscore global_key now s₁ in
      (s₂, (zcard tenant_key s₂, zcard global_key s₂))

  -- `Math.ceil((RESERVATION_TTL_MS * 2) / 1000)` is exact here.
  unfoldable pub reserve : String → String → Limits → ℕ → State → State × Reservation
  unfolding answer
  reserve tenant_id reservation_id limits now s =
      let (s', result) =
        reserve_script (tenant_key tenant_id) global_key reservation_id
          (global_member tenant_id reservation_id) now (now + reservation_ttl_ms)
          limits.max_global_concurrent_calls (tenant_ceiling limits) (reservation_ttl_ms * 2 / 1000)
          s in
      (s', answer tenant_id reservation_id result)

  unfoldable pub release : String → String → State → State
  release tenant_id reservation_id s =
      (release_script (tenant_key tenant_id) global_key reservation_id
        (global_member tenant_id reservation_id) s).0

  unfoldable pub get_active_counts : String → ℕ → State → State × (ℕ × ℕ)
  get_active_counts tenant_id now s = count_script (tenant_key tenant_id) global_key now s
