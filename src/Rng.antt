-- ===== src/Rng.antt =====
-- src/padrino/core/engine/rng.py: the seeded generator. `sha256` is `hashlib.sha256(...).digest()`, on
-- lists of bytes. The generator's state is passed on with each result. The rejection loop of
-- `randbelow` runs on fuel; fewer than 2 ^ 64 blocks are drawn, so `to_bytes` does not overflow.
pub mod Bounds
pub mod Draws
pub mod Shuffle
use Prim.Native.Nat.{◌^◌, bit_and}
use padrino.Base.{
  ℕ, zero, suc, ◌+◌, ◌-◌, ◌*◌, ◌/◌, ◌%◌, Bool, true, false, Option, none, some, List, [], ◌∷◌, ◌++◌,
  length, ltb, ◌=ℕ=◌, if◌then◌else◌, Result, ok, err, ◌>>=◌,
}

pub data RngError : Type 0 where
  -- `ValueError` of `randbelow`
  value_error : RngError
  -- `IndexError` of a list or of `choice`
  index_error : RngError
  -- the model's own: the fuel ran out
  out_of_fuel : RngError

pub record SeededRng : Type 0 where
  pub seed : List ℕ
  pub counter : ℕ

abbrev pub block_size : ℕ
block_size = 32

-- `n.to_bytes(width, "big")`, below 256 ^ width.
unfoldable pub to_bytes : (width n : ℕ) → List ℕ
to_bytes zero n = []
to_bytes (suc width) n = to_bytes width (n / 256) ++ (n % 256) ∷ []

-- `int.from_bytes(bs, "big")`, from the value of the bytes before.
unfoldable pub from_bytes : ℕ → List ℕ → ℕ
from_bytes value [] = value
from_bytes value (b ∷ bs) = from_bytes (value * 256 + b) bs

-- `n.bit_length()`: `n` rounds of halving are enough for `n`.
unfoldable pub bit_length_on : ℕ → ℕ → ℕ
bit_length_on zero n = 0
bit_length_on (suc fuel) n =
    let rest = bit_length_on fuel (n / 2) in if n =ℕ= 0 then 0 else suc rest

unfoldable pub bit_length : ℕ → ℕ
unfolding bit_length_on
bit_length n = bit_length_on n n

module _ {ℓ} {A : Type ℓ} where
  -- `xs[:n]`
  unfoldable pub take : ℕ → List A → List A
  take zero xs = []
  take (suc n) [] = []
  take (suc n) (x ∷ xs) = x ∷ take n xs

  -- `xs[i]`
  unfoldable pub get_elem? : List A → ℕ → Option A
  get_elem? [] i = none
  get_elem? (x ∷ xs) zero = some x
  get_elem? (x ∷ xs) (suc i) = get_elem? xs i

  -- `xs[i] = a`
  unfoldable pub set : ℕ → A → List A → List A
  set i a [] = []
  set zero a (x ∷ xs) = a ∷ xs
  set (suc i) a (x ∷ xs) = x ∷ set i a xs

  abbrev set_both : ℕ → ℕ → List A → Option A → Option A → Result RngError (List A)
  set_both i j xs (some x) (some y) = ok (set j x (set i y xs))
  set_both i j xs _ _ = err index_error

  -- `xs[i], xs[j] = xs[j], xs[i]`
  unfoldable pub swap : ℕ → ℕ → List A → Result RngError (List A)
  unfolding get_elem? set
  swap i j xs = set_both i j xs (get_elem? xs i) (get_elem? xs j)

  abbrev required : Option A → Result RngError A
  required none = err index_error
  required (some x) = ok x

module _ (sha256 : List ℕ → List ℕ) where
  -- The loop of `next_bytes`: `n` blocks are enough, since a block is not empty.
  unfoldable pub fill : (fuel n : ℕ) → List ℕ → SeededRng → List ℕ × SeededRng
  unfolding to_bytes
  fill zero n out rng = (out, rng)
  fill (suc fuel) n out rng =
      let block = sha256 (rng.seed ++ to_bytes 8 rng.counter) in
      let next = fill fuel n (out ++ block) (record rng { counter = suc rng.counter }) in
      if ltb (length out) n then next else (out, rng)

  unfoldable pub next_bytes : ℕ → SeededRng → List ℕ × SeededRng
  unfolding fill take
  next_bytes n rng = let filled = fill n n [] rng in (take n (filled.0), filled.1)

  -- The value of one round of the rejection loop.
  unfoldable pub draw : ℕ → SeededRng → ℕ × SeededRng
  unfolding bit_length next_bytes from_bytes
  draw n rng =
      let bits = bit_length (n - 1) in
      let drawn = next_bytes ((bits + 7) / 8) rng in
      (bit_and (from_bytes 0 (drawn.0)) (2 ^ bits - 1), drawn.1)

  -- The rejection loop of `randbelow`.
  unfoldable pub reject : (fuel n : ℕ) → SeededRng → Result RngError (ℕ × SeededRng)
  unfolding draw
  reject zero n rng = err out_of_fuel
  reject (suc fuel) n rng =
      let drawn = draw n rng in
      let next = reject fuel n (drawn.1) in if ltb (drawn.0) n then ok drawn else next

  module _ (fuel : ℕ) where
    unfoldable pub randbelow : ℕ → SeededRng → Result RngError (ℕ × SeededRng)
    unfolding reject
    randbelow n rng =
        if n =ℕ= 0 then err value_error else if n =ℕ= 1 then ok (0, rng) else reject fuel n rng

    module _ {ℓ} {A : Type ℓ} where
      -- The loop of `shuffle`, from `i` down to 1.
      unfoldable pub shuffle_from : ℕ → List A → SeededRng → Result RngError (List A × SeededRng)
      unfolding randbelow swap
      shuffle_from zero result rng = ok (result, rng)
      shuffle_from (suc i) result rng = randbelow (suc (suc i)) rng >>= λ drawn.
          swap (suc i) (drawn.0) result >>= λ swapped. shuffle_from i swapped (drawn.1)

      unfoldable pub shuffle : List A → SeededRng → Result RngError (List A × SeededRng)
      unfolding shuffle_from
      shuffle items rng = shuffle_from (length items - 1) items rng

      unfoldable pub choice : List A → SeededRng → Result RngError (A × SeededRng)
      unfolding randbelow get_elem?
      choice items rng =
          if length items =ℕ= 0
          then err index_error
          else (randbelow (length items) rng >>= λ drawn.
              required (get_elem? items (drawn.0)) >>= λ item. ok (item, drawn.1))
