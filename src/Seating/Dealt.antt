-- ===== src/Seating/Dealt.antt =====
-- What `assign_roles` and `seat_permutation` deal.
use mathlib.Core.Path.{subst}
use padrino.Base.{
  range_from, ℕ, zero, suc, ◌+◌, ◌-◌, ◌≡◌, ◌<◌, ◌≤◌, refl, sym, ap, ◌∙◌, inl, inr, Bool, true,
  false, some, List, [], ◌∷◌, ◌++◌, String, All, length, ◌==◌, ◌=ℕ=◌, Dict, get, tally_of, has,
  IsUnique, map, count_if, is_some, Option-cases, if◌then◌else◌, nat_eq, ok, arith,
}
use padrino.Game.{Role, Faction, Seat, role_eq}
use padrino.Rng.Shuffle.{Accepts, shuffle-counts}
use padrino.Seating.{
  Ruleset, replicate, role_multiset, new_seat, seats_from, raise_rng_error, seeded, assign_roles,
  seat_permutation,
}

module _ {ℓ} {A : Type ℓ} (p : A → Bool) where
  count_if-append : (xs ys : List A) → count_if p (xs ++ ys) ≡ count_if p xs + count_if p ys
  unfolding count_if
  count_if-append [] ys = omega arith
  count_if-append (x ∷ xs) ys = ground (arith, count_if-append xs ys)

  count_if-replicate : (n : ℕ) (x : A) → count_if p (replicate n x) ≡ (if p x then n else 0)
  unfolding count_if replicate
  count_if-replicate zero x = ground arith
  count_if-replicate (suc n) x = ground (arith, count_if-replicate n x)

  count_if-length : (xs : List A) → count_if p xs ≤ length xs
  unfolding count_if
  count_if-length [] = omega arith
  count_if-length (x ∷ xs) = ground (arith, count_if-length xs)

length-replicate :
    {A : Type 0} (n : ℕ) (x : A) (ys : List A) → length (replicate n x ++ ys) ≡ n + length ys
unfolding replicate
length-replicate zero x ys = omega arith
length-replicate (suc n) x ys = omega (arith, length-replicate n x ys)

has-tally_of : (r : Role) (d : Dict Role ℕ) → has r d ≡ false → tally_of r d ≡ 0
unfolding has tally_of
has-tally_of r [] h = refl
has-tally_of r ((j, n) ∷ d) h = ground (arith, has-tally_of r d)

-- A role stands in the multiset as often as its count says.
count_if-role_multiset :
    (r : Role) (d : Dict Role ℕ)
    → IsUnique d
    → count_if (λ role. role == r) (role_multiset d) ≡ tally_of r d
unfolding count_if role_multiset tally_of has
count_if-role_multiset r [] u = refl
count_if-role_multiset r ((j, n) ∷ d) u = ground (
  arith,
  count_if-append (λ role. role == r) (replicate n j) (role_multiset d),
  count_if-replicate (λ role. role == r) n j,
  count_if-role_multiset r d (u.1),
  has-tally_of r d,
)

module _ (role_factions : Dict Role Faction) where
  abbrev pub known : Role → Bool
  known role = is_some (get role role_factions)

  known-role_multiset :
      (d : Dict Role ℕ)
      → All (λ entry. known (entry.0) ≡ true) d
      → count_if known (role_multiset d) ≡ length (role_multiset d)
  unfolding count_if role_multiset
  known-role_multiset [] k = refl
  known-role_multiset ((j, n) ∷ d) k = ground (
    arith,
    k.0,
    count_if-append known (replicate n j) (role_multiset d),
    count_if-replicate known n j,
    known-role_multiset d (k.1),
    length-replicate n j (role_multiset d),
  )

  -- Roles that all have a faction are seated in their order.
  seats_from-known :
      (i : ℕ) (roles : List Role)
      → count_if known roles ≡ length roles
      → (seats : List Seat) × (seats_from role_factions i roles ≡ ok seats)
        × (map (λ s. s.role) seats ≡ roles)
        × (map (λ s. s.seat_index) seats ≡ range_from i (length roles))
        × All (λ s. get s.role role_factions ≡ some s.faction) seats
  unfolding seats_from count_if range_from new_seat
  seats_from-known i [] k = ([], refl, refl, refl, tt)
  seats_from-known i (role ∷ roles) k = elim (Option-cases (get role role_factions)) [
    | inl e ↦ let no : ⊥ = ground (arith, e, count_if-length known roles, k) in elim no [ ]
    | inr (f, e) ↦
        let rest : count_if known roles ≡ length roles = ground (arith, e, k) in
        let (seats, seated, same, numbered, given) = seats_from-known (suc i) roles rest in
        (
          new_seat i role f ∷ seats,
          rw e (rw seated refl),
          ap (λ rs. role ∷ rs) same,
          ap (λ ns. i ∷ ns) numbered,
          (e, given),
        )
  ]

count_if-map :
    (p : Role → Bool) (seats : List Seat)
    → count_if (λ s. p s.role) seats ≡ count_if p (map (λ s. s.role) seats)
unfolding count_if
count_if-map p [] = refl
count_if-map p (s ∷ seats) = ground (arith, count_if-map p seats)

length-map-seat_index : (seats : List Seat) → length (map (λ s. s.seat_index) seats) ≡ length seats
length-map-seat_index [] = refl
length-map-seat_index (s ∷ seats) = ap suc (length-map-seat_index seats)

length-range_from : (i n : ℕ) → length (range_from i n) ≡ n
unfolding range_from
length-range_from i zero = refl
length-range_from i (suc n) = ap suc (length-range_from (suc i) n)

module _ (sha256 : List ℕ → List ℕ) (utf8 : String → List ℕ) (fuel : ℕ) where
  -- Where the role counts, one entry for a role, add up to the player count, each of their roles has a
  -- faction and each `randbelow` of the shuffle returns, `assign_roles` returns seats numbered from 0 to
  -- the player count, as many with a role as its count says, each with its role's faction.
  pub assign_roles-deals :
      (game_seed : String) (rules : Ruleset)
      → IsUnique rules.role_counts
      → All (λ entry. known rules.role_factions (entry.0) ≡ true) rules.role_counts
      → length (role_multiset rules.role_counts) ≡ rules.player_count
      → Accepts sha256 fuel
          (rules.player_count - 1)
          (seeded sha256 utf8 fuel (sha256 (utf8 "roles" ++ utf8 game_seed)))
      → (seats : List Seat) × (assign_roles sha256 utf8 fuel game_seed rules ≡ ok seats)
        × ((r : Role) → count_if (λ s. s.role == r) seats ≡ tally_of r rules.role_counts)
        × (map (λ s. s.seat_index) seats ≡ range_from 0 rules.player_count)
        × All (λ s. get s.role rules.role_factions ≡ some s.faction) seats
  unfolding assign_roles raise_rng_error
  assign_roles-deals game_seed rules unique factions total accepts =
      let multiset = role_multiset rules.role_counts in
      let rng = seeded sha256 utf8 fuel (sha256 (utf8 "roles" ++ utf8 game_seed)) in
      let (done, shuffled, counts, same) =
        shuffle-counts sha256 fuel multiset rng
          (subst (λ n. Accepts sha256 fuel (n - 1) rng) (sym total) accepts) in
      let all_known =
        counts (known rules.role_factions)
        ∙ known-role_multiset rules.role_factions rules.role_counts factions
        ∙ sym same in
      let (seats, seated, roles, numbered, given) =
        seats_from-known rules.role_factions 0 (done.0) all_known in
      let tested : (length multiset =ℕ= rules.player_count) ≡ true = ground (arith, total) in
      (
        seats,
        rw tested (rw shuffled seated),
        (λ r.
            count_if-map (λ role. role == r) seats
            ∙ ap (count_if (λ role. role == r)) roles
            ∙ counts (λ role. role == r)
            ∙ count_if-role_multiset r rules.role_counts unique),
        numbered ∙ ap (range_from 0) (same ∙ total),
        given,
      )

  -- For a positive player count, and where each `randbelow` of the shuffle returns, `seat_permutation`
  -- returns each slot from 0 to the count exactly as often as `range` does.
  pub seat_permutation-counts :
      (seed : String) (player_count : ℕ)
      → 0 < player_count
      → Accepts sha256 fuel (player_count - 1) (seeded sha256 utf8 fuel (utf8 seed))
      → (slots : List ℕ) × (seat_permutation sha256 utf8 fuel seed player_count ≡ ok slots)
        × ((p : ℕ → Bool) → count_if p slots ≡ count_if p (range_from 0 player_count))
        × (length slots ≡ player_count)
  unfolding seat_permutation raise_rng_error
  seat_permutation-counts seed player_count positive accepts =
      let (done, shuffled, counts, same) =
        shuffle-counts sha256 fuel (range_from 0 player_count) (seeded sha256 utf8 fuel (utf8 seed))
          (subst (λ n. Accepts sha256 fuel (n - 1) (seeded sha256 utf8 fuel (utf8 seed)))
            (sym (length-range_from 0 player_count)) accepts) in
      let tested : (player_count =ℕ= 0) ≡ false = ground arith in
      (done.0, rw tested (rw shuffled refl), counts, same ∙ length-range_from 0 player_count)
