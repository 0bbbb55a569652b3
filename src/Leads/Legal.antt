-- ===== src/Leads/Legal.antt =====
-- The lifecycle of leads under concurrent requests: how a status can change.
use ethixweb_ai_csr.Common.{
  ℕ, ◌≡◌, refl, sym, subst, ◌∙◌, ◌⊎◌, inl, inr, true, Bool-cases, List, [], ◌∷◌, some, String,
  arith, map, find, any, find-map, str_eq, ◌&&◌,
}
use ethixweb_ai_csr.Leads.{
  LeadStatus, claimed, Lead, LeadClaim, Database, ClaimLeadCommand, Answer, allowed_transitions,
  status_eq, is_valid_transition, is_row, find_by_id, swap_row, found_after, update_status,
  write_transition, new_claim, with_claim, write_claim,
}
use ethixweb_ai_csr.Leads.Statuses.{status_eq_iff, terminal_stays, is_valid_transition_self}

-- A request writes: it has read the lead at any time before.
pub data Event (J : Type 0) : Type 0 where
  transitions : String → String → LeadStatus → ℕ → Lead J → Event J
  claims_lead : String → ℕ → ClaimLeadCommand → Lead J → Event J

module _ {J : Type 0} where
  unfoldable pub apply : Event J → Database J → Database J × Answer J
  apply (transitions tenant_id lead_id to_status now existing) db =
      write_transition tenant_id lead_id to_status now existing db
  apply (claims_lead claim_id now c existing) db = write_claim claim_id now c existing db

  unfoldable pub run : List (Event J) → Database J → Database J
  run [] db = db
  run (e ∷ es) db = run es (apply e db).0

  swap_row-is_row :
      (tenant_id id : String) (s t : LeadStatus) (now : ℕ) (u k : String) (l : Lead J)
      → is_row u k (swap_row tenant_id id s t now l) ≡ is_row u k l
  unfolding swap_row
  swap_row-is_row tenant_id id s t now u k l = ground arith

  swap_row-legal :
      (tenant_id id : String) (s t : LeadStatus) (now : ℕ) (l : Lead J)
      → is_valid_transition s t ≡ true
      → is_valid_transition l.status (swap_row tenant_id id s t now l).status ≡ true
  unfolding swap_row
  swap_row-legal tenant_id id s t now l valid =
      elim (Bool-cases (is_row tenant_id id l && status_eq l.status s)) [
        | inl hit ↦ rw hit (
            subst (λ u. is_valid_transition u t ≡ true)
              (sym ((status_eq_iff l.status s).0 (ground arith))) valid)
        | inr miss ↦ rw miss (is_valid_transition_self l.status)
      ]

  -- What a request does to the rows: nothing, or one compare-and-swap along a legal transition.
  pub record Swaps (db db' : Database J) : Type 0 where
    pub tenant_id : String
    pub id : String
    pub from_status : LeadStatus
    pub to_status : LeadStatus
    pub now : ℕ
    pub valid : is_valid_transition from_status to_status ≡ true
    pub rows : db'.leads ≡ map (swap_row tenant_id id from_status to_status now) db.leads

  update_status-leads :
      (tenant_id id : String) (s t : LeadStatus) (now : ℕ) (db : Database J)
      → ((update_status tenant_id id s t now db).0.leads ≡ db.leads)
        ⊎ ((update_status tenant_id id s t now db).0.leads
            ≡ map (swap_row tenant_id id s t now) db.leads)
  unfolding update_status found_after
  update_status-leads tenant_id id s t now db = ground arith

  with_claim-leads :
      (k : LeadClaim) (db db' : Database J) (a : Answer J)
      → ((with_claim k db (db', a)).0.leads ≡ db.leads)
        ⊎ ((with_claim k db (db', a)).0.leads ≡ db'.leads)
  unfolding with_claim
  with_claim-leads k db db' a = ground arith

  apply-Swaps :
      (e : Event J) (db : Database J) → ((apply e db).0.leads ≡ db.leads) ⊎ Swaps db (apply e db).0
  unfolding apply write_transition write_claim
  apply-Swaps (transitions tenant_id lead_id to_status now existing) db =
      elim (Bool-cases (is_valid_transition existing.status to_status)) [
        | inl valid ↦
            elim (update_status-leads tenant_id lead_id existing.status to_status now db) [
              | inl same ↦ inl (rw valid same)
              | inr e ↦ inr (record {
                tenant_id = tenant_id;
                id = lead_id;
                from_status = existing.status;
                to_status = to_status;
                now = now;
                valid = valid;
                rows = rw valid e;
              })
            ]
        | inr invalid ↦ inl (rw invalid refl)
      ]
  apply-Swaps (claims_lead claim_id now c existing) db =
      let u = update_status c.tenant_id c.lead_id existing.status claimed now db in
      elim (Bool-cases (is_valid_transition existing.status claimed)) [
        | inl valid ↦ elim (Bool-cases (any (λ k. str_eq k.lead_id c.lead_id) db.claims)) [
          | inl taken ↦ inl (ground arith)
          | inr free ↦ elim (with_claim-leads (new_claim claim_id now c) db u.0 u.1) [
            | inl same ↦ inl (ground arith)
            | inr e ↦
                elim (update_status-leads c.tenant_id c.lead_id existing.status claimed now db) [
                  | inl same ↦ inl (ground arith)
                  | inr swapped ↦ inr (record {
                    tenant_id = c.tenant_id;
                    id = c.lead_id;
                    from_status = existing.status;
                    to_status = claimed;
                    now = now;
                    valid = valid;
                    rows = ground arith;
                  })
                ]
          ]
        ]
        | inr invalid ↦ inl (ground arith)
      ]

  Swaps-find :
      (db db' : Database J) (u k : String) (l : Lead J)
      → Swaps db db'
      → find (is_row u k) db.leads ≡ some l
      → (l' : Lead J) × (find (is_row u k) db'.leads ≡ some l')
        × (is_valid_transition l.status l'.status ≡ true)
  Swaps-find db db' u k l w found =
      let f = swap_row w.tenant_id w.id w.from_status w.to_status w.now in
      (
        f l,
        rw w.rows (
            find-map (is_row u k) f db.leads l
              (swap_row-is_row w.tenant_id w.id w.from_status w.to_status w.now u k) found),
        swap_row-legal w.tenant_id w.id w.from_status w.to_status w.now l w.valid,
      )

  -- Whatever lead a request has read before, and however old that read is, its write moves every lead
  -- of the table along a legal transition or not at all, and loses none.
  pub apply_legal :
      (e : Event J) (db : Database J) (tenant_id id : String) (l : Lead J)
      → find_by_id tenant_id id db ≡ some l
      → (l' : Lead J) × (find_by_id tenant_id id (apply e db).0 ≡ some l')
        × (is_valid_transition l.status l'.status ≡ true)
  unfolding find_by_id
  apply_legal e db u k l found = elim (apply-Swaps e db) [
    | inl same ↦ (l, rw same found, is_valid_transition_self l.status)
    | inr w ↦ Swaps-find db (apply e db).0 u k l w found
  ]

  -- A lead in a status without a successor keeps it for good, however many requests write.
  pub run_terminal :
      (es : List (Event J)) (db : Database J) (tenant_id id : String) (l : Lead J)
      → find_by_id tenant_id id db ≡ some l
      → allowed_transitions l.status ≡ []
      → (l' : Lead J) × (find_by_id tenant_id id (run es db) ≡ some l') × (l'.status ≡ l.status)
  unfolding run
  run_terminal [] db u k l found last = (l, found, refl)
  run_terminal (e ∷ es) db u k l found last =
      let (m, found', valid) = apply_legal e db u k l found in
      let same = terminal_stays l.status m.status last valid in
      let (l', found'', kept) =
        run_terminal es (apply e db).0 u k m found'
          (subst (λ s. allowed_transitions s ≡ []) same last) in
      (l', found'', kept ∙ sym same)
