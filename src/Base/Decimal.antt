-- ===== src/Base/Decimal.antt =====
-- `str` of a natural number, in decimal.
use Prim.Native.Nat.{ℕ, zero, suc, ◌/◌, ◌%◌}
use Prim.Native.String.{String, ◌++◌ as append}
use padrino.Base.Tests.{if◌then◌else◌, ltb, ◌=ℕ=◌}
use mathlib.Core.Path.{◌≡◌, refl}

digit : ℕ → String
digit d =
    if d =ℕ= 0
    then "0"
    else if d =ℕ= 1
    then "1"
    else if d =ℕ= 2
    then "2"
    else if d =ℕ= 3
    then "3"
    else if d =ℕ= 4
    then "4"
    else if d =ℕ= 5
    then "5"
    else if d =ℕ= 6
    then "6"
    else if d =ℕ= 7
    then "7"
    else if d =ℕ= 8
    then "8"
    else "9"

-- `n + 1` rounds of division by ten are enough for `n`.
digits_of : ℕ → ℕ → String
unfolding digit
digits_of zero n = ""
digits_of (suc fuel) n =
    let front = digits_of fuel (n / 10) in
    if ltb n 10 then digit n else append front (digit (n % 10))

unfoldable pub str : ℕ → String
unfolding digits_of
str n = digits_of (suc n) n

str_sample : str 120 ≡ "120"
unfolding str
str_sample = refl
