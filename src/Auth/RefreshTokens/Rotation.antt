-- ===== src/Auth/RefreshTokens/Rotation.antt =====
-- redis-refresh-token.store.ts and refresh-token.use-case.ts: how often a refresh token can be used.
use text.Mathlib.TextLemmas.{append_cancel_left}
use ethixweb_ai_csr.Common.{
  ℕ, ◌≤◌, ◌≡◌, ◌≢◌, refl, inl, inr, Bool, true, false, Bool-cases, List, [], ◌∷◌, Option, none,
  some, String, arith, eq_iff, str_eq,
}
use ethixweb_ai_csr.Auth.RefreshTokens.{
  TokenRedis, User, RefreshPayload, invalid_refresh_token, token_key, user_index_key, stored_is,
  store, consume, revoke, delete_tokens, delete_all, issue, rotate, refresh,
}

-- What clients do to the store; `deletes_all` is `revokeAll` with the index that it has read before.
pub data Operation : Type 0 where
  stores : String → String → ℕ → Operation
  consumes revokes : String → String → Operation
  deletes_all : String → List String → Operation

-- The times do not step back, and no operation stores the token.
abbrev pub Leaves : String → ℕ → List (ℕ × Operation) → ℕ → Type 0
Leaves jti from [] last = from ≤ last
Leaves jti from ((now, stores user_id other ttl) ∷ ops) last =
    (from ≤ now) × (other ≢ jti) × Leaves jti now ops last
Leaves jti from ((now, op) ∷ ops) last = (from ≤ now) × Unit {0} × Leaves jti now ops last

token_key-str_eq : (j k : String) → str_eq (token_key j) (token_key k) ≡ str_eq j k
unfolding token_key
token_key-str_eq j k =
    ground (
      arith,
      eq_iff j k,
      eq_iff (token_key j) (token_key k),
      append_cancel_left "auth:refresh:" j k,
    )

module _ (redis : TokenRedis) where
  open redis use {State, get, set, del, sadd, srem}

  pub apply : ℕ × Operation → State → State
  apply (now, stores user_id jti ttl_seconds) s = store redis user_id jti ttl_seconds now s
  apply (now, consumes user_id jti) s = (consume redis user_id jti now s).0
  apply (now, revokes user_id jti) s = revoke redis user_id jti s
  apply (now, deletes_all user_id jtis) s = delete_all redis user_id jtis s

  pub run : List (ℕ × Operation) → State → State
  run [] s = s
  run (op ∷ ops) s = run ops (apply op s)

  -- From a time on, the token is not there.
  abbrev pub Gone : String → ℕ → State → Type 0
  Gone jti now s = (t : ℕ) → now ≤ t → get (token_key jti) t s ≡ none

  Gone-del : (key jti : String) (now : ℕ) (s : State) → Gone jti now s → Gone jti now (del key s)
  Gone-del key jti now s gone t le =
      ground (arith, redis.get-del key t (token_key jti) s, gone t le)

  Gone-srem :
      (key member jti : String) (now : ℕ) (s : State)
      → Gone jti now s
      → Gone jti now (srem key member s)
  Gone-srem key member jti now s gone t le =
      ground (arith, redis.get-srem key member t (token_key jti) s, gone t le)

  Gone-store :
      (user_id other jti : String) (ttl now : ℕ) (s : State)
      → other ≢ jti
      → Gone jti now s
      → Gone jti now (store redis user_id other ttl now s)
  unfolding store
  Gone-store user_id other jti ttl now s ne gone t le = ground (
    arith,
    redis.get-sadd (user_index_key user_id) other t (token_key jti)
        (set (token_key other) user_id ttl now s),
    redis.get-set (token_key other) user_id ttl now t (token_key jti) s le,
    token_key-str_eq other jti,
    eq_iff other jti,
    gone t le,
  )

  Gone-consume :
      (user_id other jti : String) (at now : ℕ) (s : State)
      → Gone jti now s
      → Gone jti now (consume redis user_id other at s).0
  unfolding consume
  Gone-consume user_id other jti at now s gone =
      elim (Bool-cases (stored_is (get (token_key other) at s) user_id)) [
        | inl hit ↦ rw hit (
            Gone-srem (user_index_key user_id) other jti now (del (token_key other) s)
              (Gone-del (token_key other) jti now s gone))
        | inr miss ↦ rw miss gone
      ]

  Gone-delete_tokens :
      (jtis : List String) (jti : String) (now : ℕ) (s : State)
      → Gone jti now s
      → Gone jti now (delete_tokens redis jtis s)
  unfolding delete_tokens
  Gone-delete_tokens [] jti now s gone = gone
  Gone-delete_tokens (k ∷ jtis) jti now s gone =
      Gone-delete_tokens jtis jti now (del (token_key k) s) (Gone-del (token_key k) jti now s gone)

  Gone-delete_all :
      (user_id : String) (jtis : List String) (jti : String) (now : ℕ) (s : State)
      → Gone jti now s
      → Gone jti now (delete_all redis user_id jtis s)
  unfolding delete_all
  Gone-delete_all user_id [] jti now s gone = gone
  Gone-delete_all user_id (k ∷ jtis) jti now s gone =
      Gone-del (user_index_key user_id) jti now (delete_tokens redis (k ∷ jtis) s)
        (Gone-delete_tokens (k ∷ jtis) jti now s gone)

  Gone-later :
      (jti : String) (from now : ℕ) (s : State) → from ≤ now → Gone jti from s → Gone jti now s
  Gone-later jti from now s le gone t le' = gone t (omega arith)

  run-Gone :
      (ops : List (ℕ × Operation)) (jti : String) (from last : ℕ) (s : State)
      → Leaves jti from ops last
      → Gone jti from s
      → Gone jti last (run ops s)
  unfolding run apply revoke
  run-Gone [] jti from last s le gone = Gone-later jti from last s le gone
  run-Gone ((now, stores user_id other ttl) ∷ ops) jti from last s h gone =
      run-Gone ops jti now last _ h.2
        (Gone-store user_id other jti ttl now s h.1 (Gone-later jti from now s h.0 gone))
  run-Gone ((now, consumes user_id other) ∷ ops) jti from last s h gone =
      run-Gone ops jti now last _ h.2
        (Gone-consume user_id other jti now now s (Gone-later jti from now s h.0 gone))
  run-Gone ((now, revokes user_id other) ∷ ops) jti from last s h gone =
      run-Gone ops jti now last _ h.2 (
        Gone-srem (user_index_key user_id) other jti now (del (token_key other) s)
          (Gone-del (token_key other) jti now s (Gone-later jti from now s h.0 gone)))
  run-Gone ((now, deletes_all user_id jtis) ∷ ops) jti from last s h gone =
      run-Gone ops jti now last _ h.2
        (Gone-delete_all user_id jtis jti now s (Gone-later jti from now s h.0 gone))

  consume-Gone :
      (user_id jti : String) (now : ℕ) (s : State)
      → (consume redis user_id jti now s).1 ≡ true
      → Gone jti now (consume redis user_id jti now s).0
  unfolding consume
  consume-Gone user_id jti now s e t le = ground (
    arith,
    redis.get-srem (user_index_key user_id) jti t (token_key jti) (del (token_key jti) s),
    redis.get-del (token_key jti) t (token_key jti) s,
    eq_iff (token_key jti) (token_key jti),
  )

  consume-Gone_refused :
      (user_id jti : String) (now : ℕ) (s : State)
      → Gone jti now s
      → consume redis user_id jti now s ≡ (s, false)
  unfolding consume stored_is
  consume-Gone_refused user_id jti now s gone = rw (gone now (omega arith)) refl

  rotate-Gone :
      (payload : RefreshPayload) (user : Option User) (new_jti jti : String) (ttl now : ℕ)
      (s : State) (b : Bool)
      → new_jti ≢ jti
      → Gone jti now s
      → Gone jti now (rotate redis payload user new_jti ttl now (s, b)).0
  unfolding rotate issue
  rotate-Gone payload user new_jti jti ttl now s false ne gone = gone
  rotate-Gone payload none new_jti jti ttl now s true ne gone = gone
  rotate-Gone payload (some user) new_jti jti ttl now s true ne gone =
      Gone-store user.id new_jti jti ttl now s ne gone

  rotate_consumed :
      (payload : RefreshPayload) (user : Option User) (new_jti : String) (ttl now : ℕ) (s : State)
      (b : Bool)
      → (rotate redis payload user new_jti ttl now (s, b)).1 ≢ invalid_refresh_token
      → b ≡ true
  unfolding rotate
  rotate_consumed payload user new_jti ttl now s false ne = absurd (ne refl)
  rotate_consumed payload user new_jti ttl now s true ne = refl

  -- A refresh token is used once: if a refresh is answered with tokens, or fails only on the user, then
  -- every later refresh with a token of the same id is refused and changes nothing, whatever clients do
  -- in between, as long as the clock does not step back and the id is never stored again.
  pub refresh_once :
      (find_user find_user' : String → String → Option User) (payload payload' : RefreshPayload)
      (new_jti new_jti' : String) (ttl ttl' now last : ℕ) (ops : List (ℕ × Operation)) (s : State)
      → payload'.jti ≡ payload.jti
      → new_jti ≢ payload.jti
      → (refresh redis find_user (some payload) new_jti ttl now s).1 ≢ invalid_refresh_token
      → Leaves payload.jti now ops last
      → let s' = run ops (refresh redis find_user (some payload) new_jti ttl now s).0 in
        refresh redis find_user' (some payload') new_jti' ttl' last s' ≡ (s', invalid_refresh_token)
  unfolding refresh
  refresh_once find_user find_user' p p' new_jti new_jti' ttl ttl' now last ops s same fresh used
        leaves =
      let c = consume redis p.sub p.jti now s in
      let consumed = rotate_consumed p (find_user p.tenant_id p.sub) new_jti ttl now c.0 c.1 used in
      let gone =
        rotate-Gone p (find_user p.tenant_id p.sub) new_jti p.jti ttl now c.0 c.1 fresh
          (consume-Gone p.sub p.jti now s consumed) in
      let gone' = run-Gone ops p.jti now last _ leaves gone in
      rw (same) (rw (consume-Gone_refused p'.sub p.jti last _ gone') (unfold rotate in refl))
