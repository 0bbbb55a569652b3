-- ===== src/Kernel/Breaker/Interleaving.antt =====
-- circuit-breaker.ts, where calls of `execute` overlap: other calls run while one awaits its
-- operation. A system is a breaker with the calls that are waiting, of each kind.
use ethixweb_ai_csr.Common.{
  ℕ, zero, suc, ◌+◌, ◌≤◌, ◌<◌, ◌≡◌, ◌≢◌, ◌⊎◌, Bool, true, false, List, [], ◌∷◌, arith,
}
use ethixweb_ai_csr.Kernel.Breaker.{
  CircuitBreaker, closed, half_open, threshold, reset_timeout, Admission, plain, trial, refused,
  begin_call, settle_call, get_state,
}
use ethixweb_ai_csr.Kernel.Breaker.Sequential.{
  IsValid, begin_call-IsValid, settle_call-IsValid, wake-IsValid,
}

pub record System : Type 0 where
  pub breaker : CircuitBreaker
  pub plains : ℕ
  pub trials : ℕ

-- A call begins, a waiting plain or trial call settles, or `getState` is read; each at a time.
pub data Event : Type 0 where
  begins reads : ℕ → Event
  plain_settles trial_settles : Bool → ℕ → Event

waiting : System → CircuitBreaker × Admission → System
waiting s (b, plain) = record s { breaker = b; plains = suc s.plains }
waiting s (b, trial) = record s { breaker = b; trials = suc s.trials }
waiting s (b, refused) = record s { breaker = b }

plain_done : System → ℕ → Bool → ℕ → System
plain_done s zero resolved now = s
plain_done s (suc n) resolved now = record s {
  breaker = settle_call s.breaker resolved now;
  plains = n;
}

trial_done : System → ℕ → Bool → ℕ → System
trial_done s zero resolved now = s
trial_done s (suc n) resolved now = record s {
  breaker = settle_call s.breaker resolved now;
  trials = n;
}

-- An event that settles a call is ignored where no such call waits.
unfoldable pub step : System → Event → System
unfolding waiting plain_done trial_done
step s (begins now) = waiting s (begin_call s.breaker now)
step s (reads now) = record s { breaker = (get_state s.breaker now).0 }
step s (plain_settles resolved now) = plain_done s s.plains resolved now
step s (trial_settles resolved now) = trial_done s s.trials resolved now

pub run : System → List Event → System
run s [] = s
run s (e ∷ es) = run (step s e) es

step-IsValid : (s : System) (e : Event) → IsValid s.breaker → IsValid (step s e).breaker
unfolding step get_state
step-IsValid s (begins now) v = ground (arith, begin_call-IsValid s.breaker now v)
step-IsValid s (reads now) v = wake-IsValid s.breaker now v
step-IsValid s (plain_settles resolved now) v =
    ground (arith, settle_call-IsValid s.breaker resolved now v)
step-IsValid s (trial_settles resolved now) v =
    ground (arith, settle_call-IsValid s.breaker resolved now v)

-- However calls overlap, the breaker stays well formed: a closed one has fewer failures than the
-- threshold (or none) and no opening time, any other has reached the threshold and has one, and
-- only a half-open one has the trial flag set.
pub run-IsValid : (s : System) (es : List Event) → IsValid s.breaker → IsValid (run s es).breaker
unfolding run
run-IsValid s [] v = v
run-IsValid s (e ∷ es) v = run-IsValid (step s e) es (step-IsValid s e v)

-- No plain call waits while the breaker is not closed.
abbrev pub Calm : System → Type 0
Calm s = s.breaker.state ≢ closed → s.plains ≡ 0

abbrev pub AlwaysCalm : System → List Event → Type 0
AlwaysCalm s [] = Calm s
AlwaysCalm s (e ∷ es) = Calm s × AlwaysCalm (step s e) es

pub record IsSingle (s : System) : Type 0 where
  pub none_or_flagged :
      (s.trials ≡ 0)
      ⊎ ((s.trials ≡ 1)
          × (s.breaker.half_open_trial_in_flight ≡ true)
          × (s.breaker.state ≡ half_open))

step-IsSingle : (s : System) (e : Event) → Calm s → IsSingle s → IsSingle (step s e)
unfolding step get_state begin_call settle_call
step-IsSingle s (begins now) c v = ground arith
step-IsSingle s (reads now) c v = ground arith
step-IsSingle s (plain_settles resolved now) c v = ground arith
step-IsSingle s (trial_settles resolved now) c v = ground arith

run-IsSingle : (s : System) (es : List Event) → IsSingle s → AlwaysCalm s es → IsSingle (run s es)
unfolding run
run-IsSingle s [] v c = v
run-IsSingle s (e ∷ es) v c = run-IsSingle (step s e) es (step-IsSingle s e c.0 v) c.1

-- As long as no plain call outlasts the closed state, at most one half-open trial waits at a time.
pub trials-le-one :
    (s : System) (es : List Event) → IsSingle s → AlwaysCalm s es → (run s es).trials ≤ 1
trials-le-one s es v c = ground (arith, (run-IsSingle s es v c).none_or_flagged)

-- Where a plain call outlasts the closed state and fails at `now` while a trial waits, the next call
-- from `now` plus the reset timeout on is let through as a second trial.
pub second_trial :
    (s : System) (now next : ℕ) {p t : ℕ}
    → s.breaker.state ≡ half_open
    → s.plains ≡ suc p
    → s.trials ≡ suc t
    → now + reset_timeout s.breaker ≤ next
    → (run s (plain_settles false now ∷ begins next ∷ [])).trials ≡ suc (suc t)
unfolding run step begin_call settle_call
second_trial s now next h p t r = ground arith

-- If a plain call succeeds while a trial waits, the breaker closes before that trial has ended, and the
-- trial's own failure then leaves it closed where the threshold is above one.
pub straggler_closes :
    (s : System) (now next : ℕ) {p t : ℕ}
    → s.plains ≡ suc p
    → s.trials ≡ suc t
    → 1 < threshold s.breaker
    → ((run s (plain_settles true now ∷ [])).breaker.state ≡ closed)
      × ((run s (plain_settles true now ∷ trial_settles false next ∷ [])).breaker.state ≡ closed)
unfolding run step settle_call
straggler_closes s now next p t h = (ground arith, ground arith)
