-- ===== src/Examples/Auth.antt =====
-- Roles, and refresh tokens on a Redis that keeps its values in lists.
use ethixweb_ai_csr.Common.{
  ℕ, suc, true, map, Bool, ◌≤◌, ◌+◌, ◌*◌, ◌≡◌, refl, false, List, [], ◌∷◌, Option, none, some,
  String, arith, ltb, if◌then◌else◌, lookup, insert, remove, lookup-insert, lookup-remove, str_eq,
  eq_iff,
}
use ethixweb_ai_csr.Auth.Roles.{
  owner, admin, viewer, can_activate, jwt, api_key, can_assign_role, assignable_roles,
}
use ethixweb_ai_csr.Auth.RefreshTokens.{
  TokenRedis, User, RefreshPayload, tokens, invalid_refresh_token, refresh, consume, token_key,
}
use ethixweb_ai_csr.Auth.Registration
use ethixweb_ai_csr.Auth.Registration.{RegisterUserDto}
use ethixweb_ai_csr.Auth.Registration.Owners.{has_owner, run-has_owner}
use ethixweb_ai_csr.Auth.Login.{
  Counter, alive, value, incremented, expiring, CounterRedis, LoginCommand, LoginState,
}
use ethixweb_ai_csr.Auth.Login.Passwords.{checks, checks-run_most}
use ethixweb_ai_csr.Auth.Login.Passwords
use ethixweb_ai_csr.Auth.RefreshTokens.Rotation.{stores, run, refresh_once}

abbrev administrator : User
administrator = record {
  id = "1";
  tenant_id = "t";
  email = "a@b.c";
  password_hash = "x";
  role = admin;
  last_login_at = none;
  created_at = 0;
  updated_at = 0;
}

-- An administrator asks for an administrator, who then asks for an owner.
abbrev requests : List (String × RegisterUserDto × String × ℕ)
requests =
    ("1", record { email = "b@b.c"; password = "p"; role = admin }, "2", 5)
    ∷ ("2", record { email = "c@b.c"; password = "p"; role = owner }, "3", 6)
    ∷ []

run-has_owner_example :
    has_owner "t" (Registration.run (λ e. e) (λ e. true) (λ p. p) requests (administrator ∷ []))
    ≡ false
run-has_owner_example =
    run-has_owner (λ e. e) (λ e. true) (λ p. p) requests (administrator ∷ []) "t" refl

registered_test :
    map
      (λ (u : User). u.id)
      (Registration.run (λ e. e) (λ e. true) (λ p. p) requests (administrator ∷ []))
    ≡ "1" ∷ "2" ∷ []
unfolding Registration.run Registration.register_teammate Registration.register_user
    Registration.refuses can_assign_role assignable_roles can_activate
registered_test = refl

can_activate_test : can_activate (owner ∷ admin ∷ []) (some (jwt viewer)) ≡ false
unfolding can_activate
can_activate_test = refl

can_activate_key_test : can_activate (owner ∷ []) (some api_key) ≡ false
unfolding can_activate
can_activate_key_test = refl

-- Texts with the time at which they expire, and the sets.
abbrev Values : Type 0
Values = List (String × (String × ℕ)) × List (String × List String)

abbrev unexpired_text : ℕ → Option (String × ℕ) → Option String
unexpired_text t none = none
unexpired_text t (some (text, until)) = if ltb t until then some text else none

abbrev set_of : Option (List String) → List String
set_of none = []
set_of (some members) = members

abbrev without : String → List String → List String
without member [] = []
without member (m ∷ ms) = if str_eq m member then ms else m ∷ without member ms

abbrev get : String → ℕ → Values → Option String
get key t s = unexpired_text t (lookup key s.0)

get-set :
    (key text : String) (ttl now t : ℕ) (other : String) (s : Values)
    → get other t (insert key (text, now + ttl * 1000) s.0, s.1) ≡ (
        if str_eq key other
        then (if ltb t (now + ttl * 1000) then some text else none)
        else get other t s)
get-set key text ttl now t other s =
    ground (arith, lookup-insert other key (text, now + ttl * 1000) s.0)

get-del :
    (key : String) (t : ℕ) (other : String) (s : Values)
    → get other t (remove key s.0, remove key s.1)
      ≡ (if str_eq key other then none else get other t s)
get-del key t other s = ground (arith, lookup-remove other key s.0)

abbrev redis : TokenRedis
redis = record {
  State = Values;
  get = get;
  set = λ key text ttl now s. (insert key (text, now + ttl * 1000) s.0, s.1);
  del = λ key s. (remove key s.0, remove key s.1);
  sadd = λ key member s. (s.0, insert key (member ∷ without member (set_of (lookup key s.1))) s.1);
  srem = λ key member s. (s.0, insert key (without member (set_of (lookup key s.1))) s.1);
  smembers = λ key s. set_of (lookup key s.1);
  get-set = λ key text ttl now t other s le. get-set key text ttl now t other s;
  get-del = get-del;
  get-sadd = λ key member t other s. refl;
  get-srem = λ key member t other s. refl;
}

abbrev ann : User
ann = record {
  id = "u";
  tenant_id = "t";
  email = "ann@example.com";
  password_hash = "hash";
  role = owner;
  last_login_at = none;
  created_at = 0;
  updated_at = 0;
}

abbrev find_user : String → String → Option User
find_user tenant_id id = some ann

abbrev token : RefreshPayload
token = record { sub = "u"; jti = "1"; tenant_id = "t" }

abbrev logged_in : Values
logged_in = (("auth:refresh:1", ("u", 90000)) ∷ [], [])

refreshes :
    (refresh redis find_user (some token) "2" 60 5 logged_in).1
    ≡ tokens
        (record { sub = "u"; tenant_id = "t"; role = owner })
        (record { sub = "u"; jti = "2"; tenant_id = "t" })
unfolding refresh consume token_key lookup
refreshes = refl

two_ne_one : ¬ (Path String "2" "1")
two_ne_one e = ground (arith, (eq_iff "2" "1").1 e)

three_ne_one : ¬ (Path String "3" "1")
three_ne_one e = ground (arith, (eq_iff "3" "1").1 e)

refresh_once_example :
    refresh redis find_user (some token) "4" 60 9 (
      run redis
        ((6, stores "u" "3" 60) ∷ [])
        (refresh redis find_user (some token) "2" 60 5 logged_in).0)
    ≡ (
      run redis
          ((6, stores "u" "3" 60) ∷ [])
          (refresh redis find_user (some token) "2" 60 5 logged_in).0,
      invalid_refresh_token,
    )
refresh_once_example =
    refresh_once redis find_user find_user token token "2" "4" 60 60 5 9
      ((6, stores "u" "3" 60) ∷ []) logged_in refl (λ e. two_ne_one e)
      (λ e. ground (arith, refreshes)) (omega arith, (λ e. three_ne_one e), omega arith)

-- Counters that are a function of their keys.
abbrev Counters : Type 0
Counters = String → Counter

abbrev put : String → Counter → Counters → Counters
put key c s other = if str_eq key other then c else s other

counter-put :
    (key other : String) (t : ℕ) (c : Counter) (s : Counters)
    → alive t (put key c s other) ≡ (if str_eq key other then alive t c else alive t (s other))
counter-put key other t c s = ground arith

alive_later : (now t : ℕ) (c : Counter) → now ≤ t → alive t c ≡ alive t (alive now c)
alive_later now t none le = refl
alive_later now t (some (n, none)) le = refl
alive_later now t (some (n, some until)) le = ground arith

abbrev counters : CounterRedis
counters = record {
  State = Counters;
  counter = λ key t s. alive t (s key);
  incr =
      λ key now s. (put key (incremented (alive now (s key))) s, suc (value (alive now (s key))));
  expire = λ key seconds now s. put key (expiring (now + seconds * 1000) (alive now (s key))) s;
  ttl = λ key now s. 0;
  incr_counts = λ key now s. refl;
  counter-incr =
      λ key other now t s le. counter-put key other t (incremented (alive now (s key))) s;
  counter-expire = λ key other seconds now t s le.
      counter-put key other t (expiring (now + seconds * 1000) (alive now (s key))) s;
  counter_later = λ key now t s le. alive_later now t (s key) le;
}

abbrev signs_in : LoginCommand
signs_in = record { tenant_id = "t"; email = "Ann@example.com"; password = "wrong" }

abbrev normalized : String → String
normalized email = "ann@example.com"

abbrev verify : String → String → Bool
verify hash password = false

abbrev signed_out : LoginState Counters Values
signed_out = record { counters = λ key. none; tokens = ([], []); last_logins = []; checked = [] }

checks-run_most_example :
    checks "t" "ann@example.com"
      (Passwords.run counters redis normalized verify 60
        (λ now. find_user)
        ((5, signs_in, "a") ∷ (6, signs_in, "b") ∷ [])
        signed_out).checked
    ≤ 10
checks-run_most_example =
    checks-run_most counters redis normalized verify 60 (λ now. find_user)
      ((5, signs_in, "a") ∷ (6, signs_in, "b") ∷ []) signed_out 5 "t" "ann@example.com" refl
      (omega arith, omega arith, (omega arith, omega arith, tt))
