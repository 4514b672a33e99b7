-- ===== src/Base/Results.antt =====
-- A computation that returns a value or raises: `err` carries what is raised.
use mathlib.Core.Path.{◌≡◌, refl}
use mathlib.Core.Bool.{Bool, true, false, ◌&&◌}

pub data Result {ℓ κ} (E : Type ℓ) (A : Type κ) : Type (ℓ ⊔ κ) where
  ok : A → Result E A
  err : E → Result E A

infixl 5 ◌>>=◌
abbrev pub ◌>>=◌ {ℓ κ μ} :
    {E : Type ℓ} {A : Type κ} {B : Type μ} → Result E A → (A → Result E B) → Result E B
ok a >>= f = f a
err e >>= f = err e

module _ {ℓ κ} {E : Type ℓ} {A : Type κ} where
  abbrev pub is_ok : Result E A → Bool
  is_ok (ok a) = true
  is_ok (err e) = false

  pub >>=-assoc {μ ν} :
      {B : Type μ} {C : Type ν} (m : Result E A) (f : A → Result E B) (g : B → Result E C)
      → ((m >>= f) >>= g) ≡ (m >>= λ a. f a >>= g)
  >>=-assoc (ok a) f g = refl
  >>=-assoc (err e) f g = refl

  pub >>=-cong {μ} :
      {B : Type μ} (m : Result E A) (f g : A → Result E B)
      → ((a : A) → f a ≡ g a)
      → (m >>= f) ≡ (m >>= g)
  >>=-cong (ok a) f g h = h a
  >>=-cong (err e) f g h = refl

module _ {ℓ κ μ} {E : Type ℓ} {A : Type κ} {B : Type μ} where
  pub is_ok->>= :
      (m : Result E A) (f : A → Result E B) (b : Bool)
      → ((a : A) → is_ok (f a) ≡ b)
      → is_ok (m >>= f) ≡ is_ok m && b
  is_ok->>= (ok a) f b h = h a
  is_ok->>= (err e) f b h = refl

  -- Where two steps succeed, the first one does.
  pub first_step :
      (next : A → Result E B) (r : Result E A) (last : B)
      → r >>= next ≡ ok last
      → (middle : A) × (r ≡ ok middle) × (next middle ≡ ok last)
  first_step next (ok middle) last done = (middle, refl, done)
  first_step next (err raised) last done = cc

pub ok-injective {ℓ κ} :
    {E : Type ℓ} {A : Type κ} {a b : A} → ◌≡◌ {A = Result E A} (ok a) (ok b) → a ≡ b
ok-injective h = cc

pub returned {ℓ κ} :
    {E : Type ℓ} {A : Type κ} (r : Result E A) → is_ok r ≡ true → (a : A) × (r ≡ ok a)
returned (ok a) h = (a, refl)
returned (err e) h = cc
