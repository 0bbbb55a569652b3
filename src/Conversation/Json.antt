-- ===== src/Conversation/Json.antt =====
-- The values that the tools of apps/voice-orchestrator take and return: JSON objects, of whose members only
-- strings and booleans are looked into. An array is an object without a named member.
use ethixweb_ai_csr.Common.{
  ◌≡◌, refl, inl, inr, Bool-cases, lookup-insert, Bool, true, false, List, [], ◌∷◌, Option, none,
  some, String, if◌then◌else◌, lookup, insert, str_eq,
}

-- A member of an object: a string, a boolean, or another value that is not looked into.
pub data Field (O : Type 0) : Type 0 where
  text : String → Field O
  flag : Bool → Field O
  other : O → Field O

pub data Json (O : Type 0) : Type 0 where
  object : List (String × Field O) → Json O
  value : O → Json O

module _ {O : Type 0} where
  -- `typeof json[key] === "string" ? json[key] : undefined`
  text_of : Option (Field O) → Option String
  text_of none = none
  text_of (some (text s)) = some s
  text_of (some (flag b)) = none
  text_of (some (other o)) = none

  flag_of : Option (Field O) → Option Bool
  flag_of none = none
  flag_of (some (text s)) = none
  flag_of (some (flag b)) = some b
  flag_of (some (other o)) = none

  unfoldable pub field : String → Json O → Option (Field O)
  unfolding lookup
  field key (object fields) = lookup key fields
  field key (value o) = none

  unfoldable pub get_text : String → Json O → Option String
  unfolding text_of field
  get_text key json = text_of (field key json)

  unfoldable pub get_flag : String → Json O → Option Bool
  unfolding flag_of field
  get_flag key json = flag_of (field key json)

  -- `{ ...json, [key]: s }`
  unfoldable pub set_text : String → String → Json O → Json O
  unfolding insert
  set_text key s (object fields) = object (insert key (text s) fields)
  set_text key s (value o) = object ((key, text s) ∷ [])

  unfoldable pub is_record : Json O → Bool
  is_record (object fields) = true
  is_record (value o) = false

  pub get_text-set_text :
      (key other_key s : String) (json : Json O)
      → get_text other_key (set_text key s json)
        ≡ (if str_eq key other_key then some s else get_text other_key json)
  unfolding get_text set_text text_of field lookup
  get_text-set_text key other_key s (object fields) =
      rw (lookup-insert other_key key (text s) fields) (elim (Bool-cases (str_eq key other_key)) [
        | inl same ↦ rw same refl
        | inr apart ↦ rw apart refl
      ])
  get_text-set_text key other_key s (value o) = elim (Bool-cases (str_eq key other_key)) [
    | inl same ↦ rw same refl
    | inr apart ↦ rw apart refl
  ]
