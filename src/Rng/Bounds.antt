-- ===== src/Rng/Bounds.antt =====
-- The bits that `randbelow` keeps, and the number that it returns.
use Prim.Native.Nat.{◌^◌}
use native.Mathlib.Nat.{pow-suc}
use padrino.Base.{ℕ, zero, suc, ◌/◌, ◌≤◌, ◌<◌, inl, inr, ◌=ℕ=◌, Bool-cases, arith}
use padrino.Rng.{bit_length_on, bit_length}

bit_length_on-bound : (fuel n : ℕ) → n ≤ fuel → n < 2 ^ bit_length_on fuel n
unfolding bit_length_on
bit_length_on-bound zero n h = omega arith
bit_length_on-bound (suc fuel) n h =
    let half : n / 2 < 2 ^ bit_length_on fuel (n / 2) =
      bit_length_on-bound fuel (n / 2) (omega arith) in
    let double = pow-suc 2 (bit_length_on fuel (n / 2)) in
    elim (Bool-cases (n =ℕ= 0)) [
      | inl e ↦ rw e (ground (arith, e))
      | inr e ↦ rw e (omega (arith, half, double))
    ]

-- The mask of `randbelow` keeps enough bits for a number, and no more than it has.
pub bit_length-bound : (n : ℕ) → n < 2 ^ bit_length n
unfolding bit_length
bit_length-bound n = bit_length_on-bound n n (omega arith)
