-- ===== src/Examples/Capacity.antt =====
-- The call admission of two tenants, with Redis as a function from keys to members, and a brochure of
-- two segments.
use ethixweb_ai_csr.Common.{
  ℕ, ◌≤◌, ◌≡◌, refl, true, false, List, [], ◌∷◌, String, arith, str_eq, if◌then◌else◌, is_some,
  lookup, insert, remove, length, All,
}
use ethixweb_ai_csr.Capacity.SortedSets.{Members, unexpired, SortedSets}
use ethixweb_ai_csr.Capacity.Brochure.{BrochureSegment, VoiceBrochureConfig}
use ethixweb_ai_csr.Capacity.Admission.{
  Limits, tenant_ceiling, tenant_key, global_key, global_member, reservation_ttl_ms, granted,
  capacity_exceeded_tenant, capacity_exceeded_global, reserve, reserve_script,
}
use ethixweb_ai_csr.Capacity.Admission.Slots.{
  Operation, reserves, releases, counts, run, IsWithin, run-IsWithin,
}
use ethixweb_ai_csr.Capacity.Admission.Aging.{reserve_ages_out}

abbrev pub Sets : Type 0
Sets = String → Members

abbrev pub edit : String → (Members → Members) → Sets → Sets
edit key f s other = if str_eq key other then f (s other) else s other

abbrev pub redis : SortedSets
redis = record {
  State = Sets;
  members = λ key s. s key;
  zremrangebyscore = λ key now. edit key (unexpired now);
  zcard = λ key s. length (s key);
  zadd = λ key score member. edit key (insert member score);
  zrem = λ key member s.
      (edit key (remove member) s, if is_some (lookup member (s key)) then 1 else 0);
  expire = λ key seconds s. s;
  zcard_counts = λ key s. refl;
  zremrangebyscore_drops = λ key other now s. refl;
  zadd_inserts = λ key other score member s. refl;
  zrem_removes = λ key other member s. refl;
  zrem_counts = λ key member s. refl;
  expire_keeps = λ key other seconds s. refl;
}

abbrev pub nothing : Sets
nothing key = []

abbrev pub two_calls : Limits
two_calls = record {
  max_tenant_concurrent_calls = 2;
  max_global_concurrent_calls = 3;
  emergency_headroom_num = 1;
  emergency_headroom_den = 5;
  is_emergency_priority = false;
}

-- A fifth of two calls is kept for emergencies, so one is left.
tenant_ceiling_test : tenant_ceiling two_calls ≡ 1
unfolding tenant_ceiling
tenant_ceiling_test = refl

abbrev calls : List (ℕ × Operation)
calls =
    (1, reserves "a" "x" two_calls)
    ∷ (2, reserves "b" "y" two_calls)
    ∷ (3, reserves "a" "z" two_calls)
    ∷ (4, releases "b" "y")
    ∷ (5, counts "a")
    ∷ []

calls-Asks : All (ethixweb_ai_csr.Capacity.Admission.Slots.Asks redis 1 3) calls
unfolding tenant_ceiling
calls-Asks = (
  (omega arith, omega arith),
  ((omega arith, omega arith), ((omega arith, omega arith), (tt, (tt, tt)))),
)

run-IsWithin_example : IsWithin redis 1 3 (run redis calls nothing)
run-IsWithin_example =
    run-IsWithin redis 1 3 calls nothing calls-Asks ((λ u. omega arith), omega arith)

two_calls_ceiling : 1 ≤ tenant_ceiling two_calls
unfolding tenant_ceiling
two_calls_ceiling = omega arith

reserve_ages_out_example :
    (reserve redis "a" "w" two_calls 3000000 (run redis calls nothing)).1 ≡ granted "w"
reserve_ages_out_example =
    reserve_ages_out redis calls nothing 1 3 5 "a" "w" two_calls 3000000 calls-Asks
      (omega arith, (omega arith, (omega arith, (omega arith, (omega arith, tt))))) ((λ u. tt), tt)
      (omega arith) two_calls_ceiling (omega arith)

abbrev spring : BrochureSegment
spring = record { id = "spring"; text = "Book your spring inspection." }

abbrev winter : BrochureSegment
winter = record { id = "winter"; text = "Winter boiler checks." }

abbrev brochure : VoiceBrochureConfig
brochure = record {
  enabled = true;
  business_name = "Acme";
  segments = spring ∷ winter ∷ [];
  rotation_interval_ms = 1000;
}
