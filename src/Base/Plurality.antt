-- ===== src/Base/Plurality.antt =====
-- The holder of a unique plurality of a tally.
use padrino.Base.Tests.{◌=ℕ=◌}
use padrino.Base.Equality.{Eq}
use padrino.Base.Sets.{mem}
use padrino.Base.Dictionaries.{Dict, tally_of, max_value, keys_at}
use padrino.Base.Tally.{has, IsUnique, mem-keys_at, tally_of-le-max, keys_at_distinct}
use Prim.Native.Nat.{ℕ, ◌<◌}
use mathlib.Core.Path.{◌≡◌, refl, sym, ap, ◌∙◌}
use mathlib.Core.Logic.{◌≢◌}
use mathlib.Core.Bool.{true, ◌&&◌}
use mathlib.Core.List.{List, [], ◌∷◌}
use native.Mathlib.Omega.{arith}

module _ {ℓ} {K : Type ℓ} ⦃e : Eq K⦄ where
  -- `pid` has votes, and every other candidate has fewer.
  abbrev pub IsUniquePlurality : Dict K ℕ → K → Type ℓ
  IsUniquePlurality d pid =
      (has pid d ≡ true) × ((j : K) → has j d ≡ true → j ≢ pid → tally_of j d < tally_of pid d)

  pub only_winner :
      (d : Dict K ℕ) (pid : K)
      → IsUnique d
      → keys_at (max_value d) d ≡ pid ∷ []
      → IsUniquePlurality d pid
  unfolding mem
  only_winner d pid u w = (
    ground (arith, top pid),
    λ j k other. ground (arith, top pid, top j, tally_of-le-max j d, λ (s : j ≡ pid). other s),
  )
    where
      top : (j : K) → mem j (pid ∷ []) ≡ has j d && tally_of j d =ℕ= max_value d
      top j = ap (mem j) (sym w) ∙ mem-keys_at j (max_value d) d u

  -- Each key with the most votes is the holder of the unique plurality.
  plurality_key :
      (d : Dict K ℕ) (pid k : K)
      → IsUnique d
      → IsUniquePlurality d pid
      → mem k (keys_at (max_value d) d) ≡ true
      → k ≡ pid
  plurality_key d pid k u p m =
      let top = mem-keys_at k (max_value d) d u in
      elim (e.dec k pid) [
        | yes same ↦ same
        | no other ↦
            absurd
              (ground (arith, p.1 k (ground (arith, top, m)) other, top, m, tally_of-le-max pid d))
      ]

  pub only_plurality :
      (d : Dict K ℕ) (pid : K) (winners : List K)
      → IsUnique d
      → IsUniquePlurality d pid
      → winners ≢ []
      → keys_at (max_value d) d ≡ winners
      → winners ≡ pid ∷ []
  unfolding mem
  only_plurality d pid [] u p some_winner h = absurd (some_winner refl)
  only_plurality d pid (w ∷ []) u p some_winner h =
      ap (λ k. k ∷ []) (plurality_key d pid w u p (rw h (ground arith)))
  only_plurality d pid (w ∷ v ∷ ws) u p some_winner h =
      let first = plurality_key d pid w u p (rw h (ground arith)) in
      let second = plurality_key d pid v u p (rw h (ground arith)) in
      absurd (keys_at_distinct (max_value d) d w v ws u h (first ∙ sym second))
