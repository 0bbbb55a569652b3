-- ===== src/Capacity/Brochure.antt =====
-- apps/voice-orchestrator/src/modules/capacity/domain/brochure-rotation.ts, and the brochure types of
-- capacity-config.ts
use native.Mathlib.Nat.{add-mul-div_left}
use ethixweb_ai_csr.Common.{
  ℕ, zero, suc, ◌≢◌, ap, ◌∙◌, ◌+◌, ◌/◌, ◌%◌, ◌<◌, ◌≡◌, refl, max, Bool, true, not, ◌||◌, List, [],
  ◌∷◌, Option, none, some, String, arith, length, get_elem?, if◌then◌else◌, ◌==◌,
}

pub record BrochureSegment : Type 0 where
  pub id : String
  pub text : String

pub record VoiceBrochureConfig : Type 0 where
  pub enabled : Bool
  pub business_name : String
  pub segments : List BrochureSegment
  pub rotation_interval_ms : ℕ

unfoldable pub select_brochure_segment : VoiceBrochureConfig → ℕ → Option BrochureSegment
select_brochure_segment config waited_ms =
    if not config.enabled || length config.segments == 0
    then none
    else (let rotation_index = waited_ms / max 1 config.rotation_interval_ms in
        get_elem? config.segments (rotation_index % length config.segments))

get_elem?-some :
    (xs : List BrochureSegment) (i : ℕ)
    → i < length xs
    → (x : BrochureSegment) × (get_elem? xs i ≡ some x)
get_elem?-some [] i h = elim h [ ]
get_elem?-some (x ∷ xs) zero h = (x, refl)
get_elem?-some (x ∷ xs) (suc i) h = get_elem?-some xs i (omega arith)

length_pos : (xs : List BrochureSegment) → xs ≢ [] → 0 < length xs
length_pos [] h = absurd (h refl)
length_pos (x ∷ xs) h = omega arith

-- The segment of a turn, counted from 0.
abbrev pub turn : VoiceBrochureConfig → ℕ → Option BrochureSegment
turn config n = get_elem? config.segments (n % length config.segments)

next_turn :
    (waited interval : ℕ) → 0 < interval → (waited + interval) / interval ≡ waited / interval + 1
next_turn waited interval p =
    rw (← add-mul-div_left waited 1 p) (ap (λ (t : ℕ). (waited + t) / interval) (omega arith))

-- With the brochure enabled and at least one segment, some segment is always played: that of turn
-- `waited / interval`, the turns going round the segments; and one interval later (of at least a
-- millisecond) the next one.
pub select_brochure_segment_rotates :
    (config : VoiceBrochureConfig) (waited_ms : ℕ)
    → config.enabled ≡ true
    → config.segments ≢ []
    → let interval = max 1 config.rotation_interval_ms in
      let n = waited_ms / interval in
      ((segment : BrochureSegment) × (select_brochure_segment config waited_ms ≡ some segment))
      × (select_brochure_segment config waited_ms ≡ turn config n)
      × (select_brochure_segment config (waited_ms + interval) ≡ turn config (n + 1))
unfolding select_brochure_segment
select_brochure_segment_rotates config waited_ms on some_segment =
    let interval = max 1 config.rotation_interval_ms in
    let n = waited_ms / interval in
    let shows : (select_brochure_segment config waited_ms ≡ turn config n) = ground arith in
    let (segment, e) =
      get_elem?-some config.segments (n % length config.segments)
        (omega (arith, length_pos config.segments some_segment)) in
    ((segment, shows ∙ e), shows, ground (arith, next_turn waited_ms interval (omega arith)))
