-- ===== src/Seating.antt =====
-- src/padrino/core/engine/role_assignment.py, core/seating.py and core/lobby/autofill.py: what is dealt
-- to the seats by a seeded shuffle. `sha256` is a digest on lists of bytes and `utf8` the encoding of a
-- text; each shuffle has its fuel.
pub mod Dealt
pub mod Filled
use padrino.Base.{
  range_from, ℕ, zero, suc, ◌+◌, Bool, true, false, ◌||◌, not, Option, none, some, List, [], ◌∷◌,
  ◌++◌, String, append_text, str, length, ltb, leb, ◌=ℕ=◌, mem, add, sort_by, Dict, get, put, map,
  string_eq, nat_eq, if◌then◌else◌, Result, ok, err, ◌>>=◌,
}
use padrino.Game.{Role, Faction, Seat, role_eq}
use padrino.Rng.{RngError, SeededRng, shuffle}

pub data SeatingError : Type 0 where
  rng_error : RngError → SeatingError
  -- `ValueError` of `assign_roles` and of `seat_permutation`
  role_count_mismatch : (total player_count : ℕ) → SeatingError
  player_count_error : SeatingError
  -- `KeyError` of `ROLE_FACTIONS[role]`
  key_error : Role → SeatingError
  not_enough_curated_models : (empty_seats pool_size : ℕ) → SeatingError

pub record Ruleset : Type 0 where
  pub player_count : ℕ
  pub role_counts : Dict Role ℕ
  pub role_factions : Dict Role Faction

-- `[role] * count`
unfoldable pub replicate {ℓ} : {A : Type ℓ} → ℕ → A → List A
replicate zero x = []
replicate (suc n) x = x ∷ replicate n x

-- The loop that expands `ROLE_COUNTS`.
unfoldable pub role_multiset : Dict Role ℕ → List Role
unfolding replicate
role_multiset [] = []
role_multiset ((role, count) ∷ counts) = replicate count role ++ role_multiset counts

-- `f"P{n:02d}"`
unfoldable pub seat_name : ℕ → String
unfolding str
seat_name n = append_text "P" (if ltb n 10 then append_text "0" (str n) else str n)

unfoldable pub new_seat : ℕ → Role → Faction → Seat
unfolding seat_name
new_seat i role faction = record {
  public_player_id = seat_name (suc i);
  seat_index = i;
  role = role;
  faction = faction;
  alive = true;
  death_phase = none;
  last_protected_target = none;
  queued_inspection_result = none;
  seat_kind = none;
  janitor_clean_shots_remaining = none;
  framer_frame_shots_remaining = none;
}

abbrev faction_of : Role → Option Faction → Result SeatingError Faction
faction_of role none = err (key_error role)
faction_of role (some faction) = ok faction

-- The seats for the shuffled roles, from index `i` on.
unfoldable pub seats_from : Dict Role Faction → ℕ → List Role → Result SeatingError (List Seat)
unfolding get new_seat
seats_from role_factions i [] = ok []
seats_from role_factions i (role ∷ roles) = faction_of role (get role role_factions) >>= λ faction.
    seats_from role_factions (suc i) roles >>= λ seats. ok (new_seat i role faction ∷ seats)

-- The loop over the curated roster: `available` grows at its end, and `seen` with it.
unfoldable pub available_from : List String → List String → List String → List String
unfolding mem add
available_from reserved seen [] = []
available_from reserved seen (build_id ∷ roster) =
    let skipped = available_from reserved seen roster in
    let taken = available_from reserved (add build_id seen) roster in
    if mem build_id seen || mem build_id reserved then skipped else build_id ∷ taken

-- `set(xs)`, in the order of the first occurrences.
unfoldable pub set_of : List ℕ → List ℕ
unfolding add
set_of [] = []
set_of (x ∷ xs) = add x (set_of xs)

-- `assignment[seat_index] = build_id` for each pair of the two lists.
unfoldable pub zip_into : Dict ℕ String → List ℕ → List String → Dict ℕ String
unfolding put
zip_into assignment (seat_index ∷ seats) (build_id ∷ builds) =
    zip_into (put seat_index build_id assignment) seats builds
zip_into assignment _ _ = assignment

unfoldable pub raise_rng_error {ℓ} :
    {A : Type ℓ} → Result RngError (A × SeededRng) → Result SeatingError A
raise_rng_error (ok done) = ok (done.0)
raise_rng_error (err e) = err (rng_error e)

module _ (sha256 : List ℕ → List ℕ) (utf8 : String → List ℕ) (fuel : ℕ) where
  -- `SeededRng(seed)`
  abbrev pub seeded : List ℕ → SeededRng
  seeded seed = record { seed = seed; counter = 0 }

  unfoldable pub assign_roles : String → Ruleset → Result SeatingError (List Seat)
  unfolding role_multiset shuffle raise_rng_error seats_from
  assign_roles game_seed rules =
      let roles = role_multiset rules.role_counts in
      if not (length roles =ℕ= rules.player_count)
      then err (role_count_mismatch (length roles) rules.player_count)
      else (let role_seed = sha256 (utf8 "roles" ++ utf8 game_seed) in
          raise_rng_error (shuffle sha256 fuel roles (seeded role_seed)) >>= λ shuffled.
          seats_from rules.role_factions 0 shuffled)

  unfoldable pub seat_permutation : String → ℕ → Result SeatingError (List ℕ)
  unfolding range_from shuffle raise_rng_error
  seat_permutation seed player_count =
      if player_count =ℕ= 0
      then err player_count_error
      else raise_rng_error (shuffle sha256 fuel (range_from 0 player_count) (seeded (utf8 seed)))

  unfoldable pub autofill_empty_seats :
      String → List ℕ → Dict ℕ String → List String → Result SeatingError (Dict ℕ String)
  unfolding set_of available_from zip_into shuffle raise_rng_error
  autofill_empty_seats lobby_seed empty_seat_indices reserved_build_ids curated_roster =
      let seats = sort_by leb (set_of empty_seat_indices) in
      let reserved = map (λ entry. entry.1) reserved_build_ids in
      let available = available_from reserved [] curated_roster in
      if ltb (length available) (length seats)
      then err (not_enough_curated_models (length seats) (length available))
      else (raise_rng_error
            (shuffle sha256 fuel available (seeded (utf8 (append_text "autofill:" lobby_seed))))
          >>= λ shuffled. ok (zip_into [] seats shuffled))
