-- ===== src/Conversation/Starting/Reservations.antt =====
-- start-conversation.use-case.ts: the slots that are held, against the conversations that have started.
use ethixweb_ai_csr.Common.{
  ◌≡◌, refl, ap, ◌∙◌, ◌⊎◌, inl, inr, Bool, true, false, Bool-cases, [], Option, none, some,
  Option-cases, String, arith, eq_iff, lookup, lookup-remove,
}
use ethixweb_ai_csr.Capacity.SortedSets.{SortedSets}
use ethixweb_ai_csr.Capacity.Admission.{
  tenant_key, global_key, global_member, Reservation, granted, capacity_exceeded_tenant,
  capacity_exceeded_global, reserve, release, release_script,
}
use ethixweb_ai_csr.Capacity.Admission.Keys.{tenant_key_ne_global, global_ne_tenant_key}
use ethixweb_ai_csr.Conversation.Records.{Text, Conversation}
use ethixweb_ai_csr.Conversation.Repository.{Repository, own_key, next_version}
use ethixweb_ai_csr.Conversation.Repository.Evolution.{some_eq}
use ethixweb_ai_csr.Conversation.Starting.{
  StartConversationCommand, Environment, CustomerMatch, Started, started, tenant_not_serviceable,
  refused, serviceable, call_not_created, prompt_failed, publish_failed,
  conversation_already_exists, lost_cas_race, new_conversation, greeted, published, after_save,
  after_create, with_prompt, try_start, released_unless_started, with_reservation,
  start_conversation, resolve_caller_before_greeting, build_opening_greeting,
}

module _ (sets : SortedSets) where
  -- No slot is held by a reservation, neither of the tenant nor of all calls.
  pub record NotHeld (tenant_id reservation_id : String) (a : sets.State) : Type 0 where
    pub of_tenant : lookup reservation_id (sets.members (tenant_key tenant_id) a) ≡ none
    pub of_all : lookup (global_member tenant_id reservation_id) (sets.members global_key a) ≡ none

  release-NotHeld :
      (tenant_id reservation_id : String) (a : sets.State)
      → NotHeld tenant_id reservation_id (release sets tenant_id reservation_id a)
  unfolding release release_script
  release-NotHeld t id a =
      let t_key = tenant_key t in
      let member = global_member t id in
      let a₁ = (sets.zrem t_key id a).0 in
      let apart = tenant_key_ne_global t in
      let apart' = global_ne_tenant_key t in
      record {
        of_tenant =
            ap (lookup id) (
              sets.zrem_removes global_key t_key member a₁
              ∙ rw apart'
                  (sets.zrem_removes t_key t_key id a ∙ rw ((eq_iff t_key t_key).1 refl) refl))
            ∙ lookup-remove id id (sets.members t_key a)
            ∙ rw ((eq_iff id id).1 refl) refl;
        of_all =
            ap (lookup member) (sets.zrem_removes global_key global_key member a₁)
            ∙ lookup-remove member member (sets.members global_key a₁)
            ∙ rw ((eq_iff member member).1 refl) refl;
      }

module _ {J : Type 0} where
  -- An error that the code can meet; a lost race for a fresh conversation is none.
  abbrev pub is_error : Started J → Bool
  is_error (started conversation opening) = false
  is_error (lost_cas_race id) = false
  is_error (tenant_not_serviceable tenant_id status) = true
  is_error (refused reservation) = true
  is_error (call_not_created error) = true
  is_error (prompt_failed business_id) = true
  is_error (publish_failed error) = true
  is_error (conversation_already_exists call_id) = true

module _ {J : Type 0} (repository : Repository J) where
  open repository use {State, IsValid, stored, create, save}

  -- A conversation of the call that holds the reservation is stored, and nothing has been said by the
  -- caller yet.
  abbrev pub Runs : StartConversationCommand → Environment → State × Started J → Type 0
  Runs c env r =
      (conversation : Conversation J) × (opening : Text) × (r.1 ≡ started conversation opening)
      × (stored (own_key conversation) r.0 ≡ some conversation)
      × (conversation.tenant_id ≡ c.tenant_id)
      × (conversation.call_id ≡ c.call_id)
      × (conversation.capacity_reservation_id ≡ some env.reservation_id)
      × (conversation.transcript ≡ [])
      × (conversation.ended_at ≡ none)

  after_save-Runs :
      (c : StartConversationCommand) (env : Environment) (opening : Text) (saved : Conversation J)
      (r : State × Option (Conversation J))
      → r.1 ≡ some saved
      → stored (own_key saved) r.0 ≡ some saved
      → saved.tenant_id ≡ c.tenant_id
      → saved.call_id ≡ c.call_id
      → saved.capacity_reservation_id ≡ some env.reservation_id
      → saved.transcript ≡ []
      → saved.ended_at ≡ none
      → Runs c env (after_save repository env opening r)
        ⊎ (is_error (after_save repository env opening r).1 ≡ true)
  unfolding after_save published
  after_save-Runs c env opening saved (s, none) e there t k rid tr en = absurd (ground (arith, e))
  after_save-Runs c env opening saved (s, some saved') e there t k rid tr en =
      elim (Option-cases env.publish_error) [
        | inl sent ↦ inl (
          saved,
          opening,
          rw sent (ap (λ x. started x opening) (some_eq saved' saved e)),
          there,
          t,
          k,
          rid,
          tr,
          en,
        )
        | inr (error, failed) ↦ inr (rw failed refl)
      ]

  -- What is created is saved with the greeting at once, so the race cannot be lost.
  created_saved :
      (conversation : Conversation J) (opening : Text) (s : State)
      → IsValid s
      → (create conversation s).1 ≡ true
      → let next = next_version (greeted opening conversation) in
        let r = save (greeted opening conversation) (create conversation s).0 in
        (r.1 ≡ some next) × (stored (own_key next) r.0 ≡ some next)
  unfolding greeted next_version
  created_saved conversation opening s v free =
      let c' = greeted opening conversation in
      let k = own_key conversation in
      let s' = (create conversation s).0 in
      let v' = repository.create-IsValid conversation s v in
      let mine = (eq_iff k k).1 refl in
      let there : stored k s' ≡ some conversation =
        repository.stored-create k conversation s v ∙ rw (free, mine) refl in
      let saved : (save c' s').1 ≡ some (next_version c') =
        repository.save_swaps c' s' v' ∙ rw there (ground arith) in
      (saved, repository.stored-save k c' s' v' ∙ rw (mine, saved) refl)

  with_prompt-Runs :
      (c : StartConversationCommand) (env : Environment) (existing : Option CustomerMatch)
      (assembled : Option (Text × String)) (s : State)
      → IsValid s
      → Runs c env (with_prompt repository c env existing assembled s)
        ⊎ (is_error (with_prompt repository c env existing assembled s).1 ≡ true)
  unfolding with_prompt after_create
  with_prompt-Runs c env existing none s v = inr refl
  with_prompt-Runs c env existing (some assembled) s v =
      let conversation = new_conversation c env existing assembled in
      let opening = build_opening_greeting env.business_name in
      elim (Bool-cases (create conversation s).1) [
        | inl free ↦
            let (saved, there) = created_saved conversation opening s v free in
            rw free (
              after_save-Runs c env opening (next_version (greeted opening conversation))
                (save (greeted opening conversation) (create conversation s).0) saved there
                (unfold new_conversation greeted next_version in refl)
                (unfold new_conversation greeted next_version in refl)
                (unfold new_conversation greeted next_version in refl)
                (unfold new_conversation greeted next_version in refl)
                (unfold new_conversation greeted next_version in refl))
        | inr taken ↦ inr (rw taken refl)
      ]

  try_start-Runs :
      (c : StartConversationCommand) (env : Environment) (call_error : Option String) (s : State)
      → IsValid s
      → Runs c env (try_start repository c env call_error s)
        ⊎ (is_error (try_start repository c env call_error s).1 ≡ true)
  unfolding try_start
  try_start-Runs c env (some error) s v = inr refl
  try_start-Runs c env none s v =
      let existing = resolve_caller_before_greeting c.caller_ani env.lookup in
      with_prompt-Runs c env existing (env.prompt existing) s v

  module _ (sets : SortedSets) where
    -- A conversation that runs and keeps the slot, or an error that gives the slot back.
    abbrev pub Settles :
        StartConversationCommand
        → Environment
        → sets.State
        → State × sets.State × Started J
        → Type 0
    Settles c env a r =
        (Runs c env (r.0, r.2) × (r.1 ≡ a))
        ⊎ ((is_error r.2 ≡ true) × NotHeld sets c.tenant_id env.reservation_id r.1)

    released_unless_started-Settles :
        (c : StartConversationCommand) (env : Environment) (a : sets.State) (r : State × Started J)
        → Runs c env r ⊎ (is_error r.1 ≡ true)
        → Settles c env a (released_unless_started repository sets c env a r)
    unfolding released_unless_started
    released_unless_started-Settles c env a (s, started conversation opening) (inl runs) =
        inl (runs, refl)
    released_unless_started-Settles c env a (s, started conversation opening) (inr e) = cc
    released_unless_started-Settles c env a (s, lost_cas_race id) (inl runs) =
        let e = runs.2 in absurd (cc)
    released_unless_started-Settles c env a (s, lost_cas_race id) (inr e) = cc
    released_unless_started-Settles c env a (s, error) h =
        inr (refl, release-NotHeld sets c.tenant_id env.reservation_id a)

    with_reservation-Settles :
        (c : StartConversationCommand) (env : Environment) (s : State) (a : sets.State)
        (id : String)
        → IsValid s
        → Settles c
            (record env { reservation_id = id })
            a
            (with_reservation repository sets c env s (a, granted id))
    unfolding with_reservation
    with_reservation-Settles c env s a id v =
        let env' = record env { reservation_id = id } in
        released_unless_started-Settles c env' a (try_start repository c env' env.call_error s)
          (try_start-Runs c env' env.call_error s v)

    abbrev pub granted_id : Reservation → Option String
    granted_id (granted id) = some id
    granted_id (capacity_exceeded_tenant tenant_id) = none
    granted_id (capacity_exceeded_global tenant_id) = none

    with_reserved :
        (c : StartConversationCommand) (env : Environment) (s : State)
        (reservation : sets.State × Reservation)
        → IsValid s
        → let r = with_reservation repository sets c env s reservation in
          ((r ≡ (s, reservation.0, refused reservation.1)) × (granted_id reservation.1 ≡ none))
          ⊎ ((id : String) × (reservation.1 ≡ granted id)
              × Settles c (record env { reservation_id = id }) reservation.0 r)
    with_reserved c env s (a, granted id) v =
        inr (id, refl, with_reservation-Settles c env s a id v)
    with_reserved c env s (a, capacity_exceeded_tenant t) v =
        inl (unfold with_reservation in refl, refl)
    with_reserved c env s (a, capacity_exceeded_global t) v =
        inl (unfold with_reservation in refl, refl)

    -- No slot leaks. A start for a tenant that is not served takes no slot and changes nothing; so does one
    -- that admission refuses, but for what admission itself does. If a slot is granted, either a
    -- conversation of the call is stored that holds it, and the slot is kept; or the start answers with an
    -- error and the slot is held by nobody. The race that the code calls impossible is not lost.
    pub start_conversation_lem :
        (c : StartConversationCommand) (env : Environment) (s : State) (a : sets.State)
        → IsValid s
        → let reservation = reserve sets c.tenant_id env.reservation_id env.limits env.now a in
          let r = start_conversation repository sets c env s a in
          ((r ≡ (s, a, tenant_not_serviceable c.tenant_id env.status))
            × (serviceable env.status ≡ false))
          ⊎ (((r ≡ (s, reservation.0, refused reservation.1)) × (granted_id reservation.1 ≡ none))
              ⊎ ((id : String) × (reservation.1 ≡ granted id)
                  × Settles c (record env { reservation_id = id }) reservation.0 r))
    unfolding start_conversation
    start_conversation_lem c env s a v = elim (Bool-cases (serviceable env.status)) [
      | inl served ↦ rw served (
          inr (
            with_reserved c env s (reserve sets c.tenant_id env.reservation_id env.limits env.now a)
              v))
      | inr unserved ↦ inl (rw unserved refl, unserved)
    ]
