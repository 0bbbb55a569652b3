-- ===== src/Kernel/Breaker/Registry.antt =====
-- `CircuitBreakerRegistry` of circuit-breaker.ts
use ethixweb_ai_csr.Common.{
  ◌≡◌, ◌≢◌, Option, none, String, arith, lookup, lookup-insert, or_default, eq_iff,
}
use ethixweb_ai_csr.Kernel.Breaker.{
  CircuitBreakerOptions, CircuitBreakerRegistry, new, get_or_create,
}

-- The first request for a key makes a fresh breaker, with the options given or the registry's
-- default; a second request for it, whatever options it gives, hands back that breaker and changes
-- nothing; and the breakers of all other keys stay as they were.
pub get_or_create_twice :
    (r : CircuitBreakerRegistry) (key other : String) (first second : Option CircuitBreakerOptions)
    → lookup key r.breakers ≡ none
    → other ≢ key
    → ((get_or_create r key first).1 ≡ new key (or_default first r.default_options))
      × (get_or_create (get_or_create r key first).0 key second
          ≡ ((get_or_create r key first).0, (get_or_create r key first).1))
      × (lookup other (get_or_create r key first).0.breakers ≡ lookup other r.breakers)
unfolding get_or_create
get_or_create_twice r key other first second absent ne = ground (
  arith,
  lookup-insert key key (new key (or_default first r.default_options)) r.breakers,
  lookup-insert other key (new key (or_default first r.default_options)) r.breakers,
  eq_iff key key,
  eq_iff key other,
)
