-- ===== src/Seating/Filled.antt =====
-- What `autofill_empty_seats` assigns.
use mathlib.Core.Path.{subst}
use padrino.Base.{
  ℕ, ◌+◌, ◌-◌, ◌≡◌, ◌≤◌, refl, sym, ◌∙◌, false, ◌&&◌, ◌||◌, not, List, [], ◌∷◌, String, append_text,
  length, ltb, leb, ◌==◌, Dict, get, put, get-put, mem, add, mem-add, sort_by, mem-sort_by, map,
  count_if, is_some, if◌then◌else◌, string_eq, nat_eq, ok, arith,
}
use padrino.Rng.Shuffle.{Accepts, shuffle-counts}
use padrino.Seating.{
  set_of, available_from, zip_into, raise_rng_error, seeded, autofill_empty_seats,
}

-- Each build of the roster is available once, but for those reserved and those seen.
count_if-available_from :
    (b : String) (reserved seen roster : List String)
    → count_if (λ x. x == b) (available_from reserved seen roster)
      ≡ (if mem b roster && not (mem b reserved) && not (mem b seen) then 1 else 0)
unfolding count_if available_from mem
count_if-available_from b reserved seen [] = refl
count_if-available_from b reserved seen (x ∷ xs) = ground (
  arith,
  count_if-available_from b reserved seen xs,
  count_if-available_from b reserved (add x seen) xs,
  mem-add b x seen,
)

mem-set_of : (k : ℕ) (xs : List ℕ) → mem k (set_of xs) ≡ mem k xs
unfolding mem set_of
mem-set_of k [] = refl
mem-set_of k (x ∷ xs) = ground (arith, mem-set_of k xs, mem-add k x (set_of xs))

count_if-put :
    (b : String) (k : ℕ) (v : String) (d : Dict ℕ String)
    → count_if (λ entry. entry.1 == b) (put k v d)
      ≤ count_if (λ entry. entry.1 == b) d + (if v == b then 1 else 0)
unfolding count_if put
count_if-put b k v [] = ground arith
count_if-put b k v ((j, w) ∷ d) = ground (arith, count_if-put b k v d)

count_if-zip_into :
    (b : String) (d : Dict ℕ String) (seats : List ℕ) (builds : List String)
    → count_if (λ entry. entry.1 == b) (zip_into d seats builds)
      ≤ count_if (λ entry. entry.1 == b) d + count_if (λ x. x == b) builds
unfolding count_if zip_into
count_if-zip_into b d [] builds = omega arith
count_if-zip_into b d (k ∷ seats) [] = omega arith
count_if-zip_into b d (k ∷ seats) (v ∷ builds) =
    ground (arith, count_if-zip_into b (put k v d) seats builds, count_if-put b k v d)

-- Every seat of the list is assigned where there are builds enough, and no other.
get-zip_into :
    (k : ℕ) (d : Dict ℕ String) (seats : List ℕ) (builds : List String)
    → length seats ≤ length builds
    → is_some (get k (zip_into d seats builds)) ≡ is_some (get k d) || mem k seats
unfolding zip_into mem
get-zip_into k d [] builds h = ground arith
get-zip_into k d (s ∷ seats) [] h = let no : ⊥ = omega arith in elim no [ ]
get-zip_into k d (s ∷ seats) (v ∷ builds) h =
    ground (arith, get-zip_into k (put s v d) seats builds (omega arith), get-put s k v d)

module _ (sha256 : List ℕ → List ℕ) (utf8 : String → List ℕ) (fuel : ℕ) where
  -- The builds of the roster that may be assigned.
  abbrev pub pool : Dict ℕ String → List String → List String
  pool reserved_build_ids curated_roster =
      available_from (map (λ entry. entry.1) reserved_build_ids) [] curated_roster

  -- Where the pool is as large as the set of empty seats and each `randbelow` of the shuffle returns,
  -- `autofill_empty_seats` returns an assignment of those seats and no others, in which a build of the
  -- roster that is not reserved stands at most once, and any other build does not stand.
  pub autofill_empty_seats-fills :
      (lobby_seed : String) (empty_seat_indices : List ℕ) (reserved_build_ids : Dict ℕ String)
      (curated_roster : List String)
      → length (sort_by leb (set_of empty_seat_indices))
        ≤ length (pool reserved_build_ids curated_roster)
      → Accepts sha256 fuel
          (length (pool reserved_build_ids curated_roster) - 1)
          (seeded sha256 utf8 fuel (utf8 (append_text "autofill:" lobby_seed)))
      → (assignment : Dict ℕ String) × (autofill_empty_seats sha256 utf8 fuel lobby_seed
            empty_seat_indices reserved_build_ids curated_roster
          ≡ ok assignment)
        × ((k : ℕ) → is_some (get k assignment) ≡ mem k empty_seat_indices)
        × ((b : String)
            → count_if (λ entry. entry.1 == b) assignment ≤ (
                if mem b curated_roster && not (mem b (map (λ entry. entry.1) reserved_build_ids))
                then 1
                else 0))
  unfolding autofill_empty_seats raise_rng_error get count_if mem
  autofill_empty_seats-fills lobby_seed empty_seat_indices reserved_build_ids curated_roster enough
        accepts =
      let seats = sort_by leb (set_of empty_seat_indices) in
      let builds = pool reserved_build_ids curated_roster in
      let reserved = map (λ entry. entry.1) reserved_build_ids in
      let (done, shuffled, counts, same) =
        shuffle-counts sha256 fuel builds
          (seeded sha256 utf8 fuel (utf8 (append_text "autofill:" lobby_seed))) accepts in
      let tested : ltb (length builds) (length seats) ≡ false = ground (arith, enough) in
      (
        zip_into [] seats (done.0),
        rw tested (rw shuffled refl),
        (λ k.
            get-zip_into k [] seats (done.0) (subst (λ n. length seats ≤ n) (sym same) enough)
            ∙ mem-sort_by leb k (set_of empty_seat_indices)
            ∙ mem-set_of k empty_seat_indices),
        (λ b. ground (
          arith,
          count_if-zip_into b [] seats (done.0),
          counts (λ x. x == b),
          count_if-available_from b reserved [] curated_roster,
        )),
      )
