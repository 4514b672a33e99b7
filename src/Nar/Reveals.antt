-- ===== src/Nar/Reveals.antt =====
-- The reveals of the dead at the end of a night of nar.py.
use padrino.Base.{
  ◌≡◌, refl, ap, true, none, some, List, [], ◌∷◌, map, String, mem, All, if◌then◌else◌, string_eq,
  arith,
}
use padrino.Game.{Seat, GameState, seat_by_public_id}
use padrino.Nar.Intents.{NightActionIntent}
use padrino.Nar.Tiers.{DeathReveal}
use padrino.Nar.Reads.{reveal, death_reveals}
use padrino.Nar.Night.{resolve_plan, resolve_night_actions}
use padrino.Nar.Deaths.{resolve_night_actions-victim}

-- The reveal names a player with a seat, and shows role and faction exactly if the death is not
-- cleaned.
abbrev pub IsReveal : GameState → (cleaned_deaths : List String) → DeathReveal → Type 0
IsReveal state cleaned_deaths d =
    (seat : Seat) × (seat_by_public_id state d.public_player_id ≡ some seat)
    × (d.cleaned ≡ mem d.public_player_id cleaned_deaths)
    × (d.role ≡ (if d.cleaned then none else some seat.role))
    × (d.faction ≡ (if d.cleaned then none else some seat.faction))

death_reveals-each :
    (state : GameState) (eliminated cleaned : List String)
    → ((pid : String)
        → mem pid eliminated ≡ true
        → (seat : Seat) × (seat_by_public_id state pid ≡ some seat))
    → (map (λ d. d.public_player_id) (death_reveals state eliminated cleaned) ≡ eliminated)
      × All (IsReveal state cleaned) (death_reveals state eliminated cleaned)
unfolding death_reveals reveal mem
death_reveals-each state [] cleaned seats = (refl, tt)
death_reveals-each state (e ∷ es) cleaned seats =
    let (ids, each) =
      death_reveals-each state es cleaned (λ pid m. seats pid (ground (arith, m))) in
    let (seat, found) = seats e (ground arith) in
    rw found (ap (λ ids. e ∷ ids) ids, ((seat, found, refl, refl, refl), each))

-- The reveals of a night name the players who die, in the same order, each with the role and the
-- faction of the player's seat unless the death is cleaned.
pub resolve_night_actions-reveals :
    (state : GameState) (intents : List NightActionIntent)
    → (map (λ d. d.public_player_id) (resolve_night_actions state intents).death_reveals
        ≡ (resolve_night_actions state intents).eliminated_player_ids)
      × All
          (IsReveal state (resolve_night_actions state intents).cleaned_deaths)
          (resolve_night_actions state intents).death_reveals
resolve_night_actions-reveals state intents =
    let night = resolve_night_actions state intents in
    unfold resolve_night_actions resolve_plan in
    death_reveals-each state night.eliminated_player_ids night.cleaned_deaths (λ pid m.
      let victim = resolve_night_actions-victim state intents pid m in (victim.0, victim.1))
