-- ===== src/Capacity/SortedSets.antt =====
-- The Redis commands of redis-call-admission.adapter.ts, as a parameter: sorted sets by key, seen as
-- the members with their scores in the order in which they were added, and what each command is
-- documented to do to them. A key's own time to live outlasts its members' scores, so `EXPIRE` takes
-- away no member that a script could still count, and is read as keeping them.
use ethixweb_ai_csr.Common.{
  ℕ, ◌≡◌, List, String, length, ltb, str_eq, is_some, filter, if◌then◌else◌, insert, remove, lookup,
}

abbrev pub Members : Type 0
Members = List (String × ℕ)

-- `ZREMRANGEBYSCORE key -inf now`
abbrev pub unexpired : ℕ → Members → Members
unexpired now = filter (λ m. ltb now m.1)

pub record SortedSets : Type 1 where
  pub State : Type 0
  pub members : String → State → Members
  pub zremrangebyscore : String → ℕ → State → State
  pub zcard : String → State → ℕ
  pub zadd : String → ℕ → String → State → State
  pub zrem : String → String → State → State × ℕ
  pub expire : String → ℕ → State → State
  pub zcard_counts : (key : String) (s : State) → zcard key s ≡ length (members key s)
  pub zremrangebyscore_drops :
      (key other : String) (now : ℕ) (s : State)
      → members other (zremrangebyscore key now s)
        ≡ (if str_eq key other then unexpired now (members other s) else members other s)
  pub zadd_inserts :
      (key other : String) (score : ℕ) (member : String) (s : State)
      → members other (zadd key score member s)
        ≡ (if str_eq key other then insert member score (members other s) else members other s)
  pub zrem_removes :
      (key other member : String) (s : State)
      → members other (zrem key member s).0
        ≡ (if str_eq key other then remove member (members other s) else members other s)
  pub zrem_counts :
      (key member : String) (s : State)
      → (zrem key member s).1 ≡ (if is_some (lookup member (members key s)) then 1 else 0)
  pub expire_keeps :
      (key other : String) (seconds : ℕ) (s : State)
      → members other (expire key seconds s) ≡ members other s
