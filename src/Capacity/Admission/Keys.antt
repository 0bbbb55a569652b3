-- ===== src/Capacity/Admission/Keys.antt =====
-- redis-call-admission.adapter.ts: the keys of the sorted sets.
use text.Mathlib.Text.{starts_with}
use text.Mathlib.TextPositions.{starts_with-append}
use text.Mathlib.TextLemmas.{append_cancel_left, append_cancel_right}
use Prim.Native.String.{◌++◌}
use ethixweb_ai_csr.Common.{
  subst, ◌≡◌, false, true, str_eq, String, arith, eq_iff, Bool-cases, inl, inr,
}
use ethixweb_ai_csr.Capacity.Admission.{tenant_key, global_key}

pub tenant_key_ne_global : (tenant_id : String) → str_eq (tenant_key tenant_id) global_key ≡ false
unfolding tenant_key
tenant_key_ne_global t = elim (Bool-cases (str_eq (tenant_key t) global_key)) [
  | inl same ↦ cc (
      subst (λ s. starts_with s "capacity:tenant:" ≡ true)
        ((eq_iff (tenant_key t) global_key).0 same) (starts_with-append "capacity:tenant:" _))
  | inr e ↦ e
]

pub global_ne_tenant_key : (tenant_id : String) → str_eq global_key (tenant_key tenant_id) ≡ false
global_ne_tenant_key t = ground (
  arith,
  tenant_key_ne_global t,
  eq_iff (tenant_key t) global_key,
  eq_iff global_key (tenant_key t),
)

pub tenant_key-str_eq : (t u : String) → str_eq (tenant_key t) (tenant_key u) ≡ str_eq t u
unfolding tenant_key
tenant_key-str_eq t u =
    let inner = append_cancel_left "capacity:tenant:" (t ++ ":calls") (u ++ ":calls") in
    elim (Bool-cases (str_eq (tenant_key t) (tenant_key u))) [
      | inl same ↦
          let e =
            append_cancel_right t u ":calls"
              (inner ((eq_iff (tenant_key t) (tenant_key u)).0 same)) in
          ground (arith, eq_iff t u, same, e)
      | inr differ ↦ ground (arith, eq_iff t u, eq_iff (tenant_key t) (tenant_key u), differ)
    ]
