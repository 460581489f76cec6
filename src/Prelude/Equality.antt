-- ===== src/Prelude/Equality.antt =====
-- Python's `==` on the types that the program compares, as an interface with its law.
use Prim.Native.Nat.{ℕ}
use Prim.Native.String.{String}
use mathlib.Core.Path.{◌≡◌, refl}
use mathlib.Core.Logic.{◌↔◌}
use mathlib.Core.Bool.{Bool, true, ◌&&◌}
use native.Mathlib.Omega.{arith}
use text.Mathlib.Text.{◌==◌ as str_eq}
use text.Mathlib.TextEquality.{eq_iff}
use databricks_ucx.Prelude.Tests.{nat_eq}

pub record Eq {ℓ} (K : Type ℓ) : Type ℓ where
  pub beq : K → K → Bool
  pub beq_iff : (j k : K) → (beq j k ≡ true) ↔ (j ≡ k)

module _ {ℓ} {A : Type ℓ} ⦃e : Eq A⦄ where
  infix 50 ◌==◌
  abbrev pub ◌==◌ : A → A → Bool
  x == y = e.beq x y

  pub beq_refl : (a : A) → (a == a) ≡ true
  beq_refl a = (e.beq_iff a a).1 refl

instance abbrev pub String_eq : Eq String
String_eq = record { beq = str_eq; beq_iff = eq_iff }

module _ {ℓ κ} {A : Type ℓ} {B : Type κ} ⦃first : Eq A⦄ ⦃second : Eq B⦄ where
  abbrev pub both : A × B → A × B → Bool
  both p q = (p.0 == q.0) && (p.1 == q.1)

  pub both_iff : (p q : A × B) → (both p q ≡ true) ↔ (p ≡ q)
  both_iff (x, u) (y, v) = ground (second.beq_iff u v, first.beq_iff x y, arith)

  instance abbrev pub pair_eq : Eq (A × B)
  pair_eq = record { beq = both; beq_iff = both_iff }

pub nat_eq_iff : (a b : ℕ) → (nat_eq a b ≡ true) ↔ (a ≡ b)
nat_eq_iff a b = ground arith

instance abbrev pub ℕ_eq : Eq ℕ
ℕ_eq = record { beq = nat_eq; beq_iff = nat_eq_iff }
