-- ===== src/Base/Equality.antt =====
-- Decidable equality as an interface, with the test `==` that it gives.
use Prim.Native.Nat.{ℕ}
use Prim.Native.String.{String}
use mathlib.Core.Path.{◌≡◌, refl, ap}
use mathlib.Core.Option.{Option, none, some}
use mathlib.Core.Bool.{Bool, true, false}
use native.Mathlib.Decide.{ℕ_discrete}
use text.Mathlib.Text.{◌==◌ as str_eq}
use text.Mathlib.TextEquality.{eq_iff}

pub record Eq {ℓ} (A : Type ℓ) : Type ℓ where
  pub dec : Discrete A

infix 50 ◌==◌
abbrev pub ◌==◌ {ℓ} : {A : Type ℓ} ⦃e : Eq A⦄ → A → A → Bool
◌==◌ ⦃e⦄ a b = elim (e.dec a b) [ yes p ↦ true | no p ↦ false ]

instance abbrev pub nat_eq : Eq ℕ
nat_eq = record { dec = ℕ_discrete }

dec_of : (s t : String) (b : Bool) → str_eq s t ≡ b → Dec (s ≡ t)
dec_of s t true h = yes ((eq_iff s t).0 h)
dec_of s t false h = no (λ e. cc ((eq_iff s t).1 e))

unfoldable pub String-discrete : Discrete String
unfolding dec_of
String-discrete s t = dec_of s t (str_eq s t) refl

instance abbrev pub string_eq : Eq String
string_eq = record { dec = String-discrete }

-- Equality of optional values is decided by that of the values.
unfoldable pub dec_option {ℓ} : {A : Type ℓ} → Discrete A → Discrete (Option A)
dec_option d none none = yes refl
dec_option d none (some b) = no (λ e. cc)
dec_option d (some a) none = no (λ e. cc)
dec_option d (some a) (some b) = elim (d a b) [ yes e ↦ yes (ap some e) | no n ↦ no (λ e. n (cc)) ]

instance abbrev pub option_eq {ℓ} : {A : Type ℓ} ⦃e : Eq A⦄ → Eq (Option A)
option_eq ⦃e⦄ = record { dec = dec_option e.dec }
