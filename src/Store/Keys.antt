-- ===== src/Store/Keys.antt =====
-- The idempotency keys that the program formats. Every constructor Lasts for one f-string; the
-- text of a UUID has no colon, so different constructors or arguments print different keys.
use agent_pay.Prelude.{
  ℕ, ℤ, eq_ℤ, eq_ℤ_iff, Text, Eq, ◌==◌, List_eq, list_eq_iff, ℕ_eq, eq_of_discrete, Bool, true,
  false, ◌&&◌, ◌≡◌, ◌↔◌, arith,
}

pub data KeyKind : Type 0 where
  -- payment:{payment_id}:charge, payment:{payment_id}:capture, payment:{payment_id}:void
  payment_charge payment_capture payment_void : KeyKind
  -- tx:{payment_id}:capture, tx:{payment_id}:capture:failed
  tx_capture tx_capture_failed : KeyKind
  -- tx:{payment_id}:void, tx:{payment_id}:void:failed
  tx_void tx_void_failed : KeyKind
  -- payment:{payment_id}:capture:transaction
  payment_capture_transaction : KeyKind
  -- payment:{payment_id}:refund:{amount}:{currency}, tx:{payment_id}:refund:{amount}:{currency}
  payment_refund tx_refund : KeyKind

-- A `Decimal` as it is printed: its value and the number of decimal places that it is written with.
pub record Spelled : Type 0 where
  pub value : ℤ
  pub places : ℕ

pub data Key : Type 0 where
  plain : KeyKind → ℕ → Key
  detailed : KeyKind → ℕ → Spelled → Text → Key

unfoldable pub KeyKind-discrete : Discrete KeyKind
KeyKind-discrete = hlevel

instance abbrev pub KeyKind_eq : Eq KeyKind
KeyKind_eq = eq_of_discrete KeyKind-discrete

unfoldable pub key_eq : Key → Key → Bool
unfolding KeyKind-discrete
key_eq (plain k p) (plain l q) = k == l && p == q
key_eq (plain k p) (detailed l q a c) = false
key_eq (detailed k p a c) (plain l q) = false
key_eq (detailed k p a c) (detailed l q b d) =
    k == l && p == q && eq_ℤ a.value b.value && a.places == b.places && c == d

pub key_eq_iff : (k l : Key) → (key_eq k l ≡ true) ↔ (k ≡ l)
unfolding key_eq
key_eq_iff (plain k p) (plain l q) = ground (arith, KeyKind_eq.beq_iff k l)
key_eq_iff (plain k p) (detailed l q a c) = ground arith
key_eq_iff (detailed k p a c) (plain l q) = ground arith
key_eq_iff (detailed k p a c) (detailed l q b d) =
    ground (arith, KeyKind_eq.beq_iff k l, eq_ℤ_iff a.value b.value, list_eq_iff c d)

instance abbrev pub Key_eq : Eq Key
Key_eq = record { beq = key_eq; beq_iff = key_eq_iff }
