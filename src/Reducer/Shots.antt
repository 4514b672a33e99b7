-- ===== src/Reducer/Shots.antt =====
-- The shots that `NightResolved` charges to janitors and framers.
use padrino.Base.{
  ◌-◌, ◌≡◌, refl, ap, sym, ◌∙◌, map-map, map-id, List, [], ◌∷◌, map, String, arith, mem, is_empty,
  if◌then◌else◌, string_eq, fun_ext,
}
use padrino.Game.{
  faction_eq, role_eq, Seat, GameState, janitor_clean_shots_remaining, framer_frame_shots_remaining,
  NightResolvedPayload,
}
use padrino.Reducer.{
  resolve_night_shots, spend_janitor_clean_shots, spend_framer_frame_shots, spend_clean_shot,
  spend_frame_shot,
}

map-cong :
    {B : Type 0} (f g : Seat → B) (xs : List Seat) → ((x : Seat) → f x ≡ g x) → map f xs ≡ map g xs
map-cong f g xs h = ap (λ k. map k xs) (fun_ext h)

module _ (ids : List String) (x : Seat) where
  clean-spend_clean_shot : janitor_clean_shots_remaining (spend_clean_shot ids x) ≡ (
      if mem x.public_player_id ids
      then janitor_clean_shots_remaining x - 1
      else janitor_clean_shots_remaining x)
  unfolding janitor_clean_shots_remaining spend_clean_shot
  clean-spend_clean_shot = ground arith

  clean-spend_frame_shot :
      janitor_clean_shots_remaining (spend_frame_shot ids x) ≡ janitor_clean_shots_remaining x
  unfolding janitor_clean_shots_remaining spend_frame_shot
  clean-spend_frame_shot = ground arith

  frame-spend_frame_shot : framer_frame_shots_remaining (spend_frame_shot ids x) ≡ (
      if mem x.public_player_id ids
      then framer_frame_shots_remaining x - 1
      else framer_frame_shots_remaining x)
  unfolding framer_frame_shots_remaining spend_frame_shot
  frame-spend_frame_shot = ground arith

  frame-spend_clean_shot :
      framer_frame_shots_remaining (spend_clean_shot ids x) ≡ framer_frame_shots_remaining x
  unfolding framer_frame_shots_remaining spend_clean_shot
  frame-spend_clean_shot = ground arith

  id-spend_clean_shot : (spend_clean_shot ids x).public_player_id ≡ x.public_player_id
  unfolding spend_clean_shot
  id-spend_clean_shot = ground arith

spend_clean_none : (xs : List Seat) → map (spend_clean_shot []) xs ≡ xs
unfolding spend_clean_shot mem
spend_clean_none xs = map-id xs

spend_frame_none : (xs : List Seat) → map (spend_frame_shot []) xs ≡ xs
unfolding spend_frame_shot mem
spend_frame_none xs = map-id xs

spend_cleans :
    (s : GameState) (ids : List String)
    → (spend_janitor_clean_shots s ids).seats ≡ map (spend_clean_shot ids) s.seats
unfolding spend_janitor_clean_shots is_empty
spend_cleans s [] = sym (spend_clean_none s.seats)
spend_cleans s (i ∷ ids) = refl

spend_frames :
    (s : GameState) (ids : List String)
    → (spend_framer_frame_shots s ids).seats ≡ map (spend_frame_shot ids) s.seats
unfolding spend_framer_frame_shots is_empty
spend_frames s [] = sym (spend_frame_none s.seats)
spend_frames s (i ∷ ids) = refl

resolve_night_shots_seats :
    (s : GameState) (p : NightResolvedPayload)
    → (resolve_night_shots s p).seats
      ≡ map
          (λ x.
            spend_frame_shot p.frame_spent_actor_ids (spend_clean_shot p.clean_spent_actor_ids x))
          s.seats
unfolding resolve_night_shots
resolve_night_shots_seats s p =
    spend_frames (spend_janitor_clean_shots s p.clean_spent_actor_ids) p.frame_spent_actor_ids
    ∙ ap (map (spend_frame_shot p.frame_spent_actor_ids)) (spend_cleans s p.clean_spent_actor_ids)
    ∙ map-map (spend_frame_shot p.frame_spent_actor_ids) (spend_clean_shot p.clean_spent_actor_ids)
        s.seats

-- A night charges each player named as a cleaner one clean shot and each player named as a framer
-- one frame shot, at least 0 remain, and no other player's shots change.
pub resolve_night_shots-spends :
    (s : GameState) (p : NightResolvedPayload)
    → (map janitor_clean_shots_remaining (resolve_night_shots s p).seats
        ≡ map
            (λ x.
              if mem x.public_player_id p.clean_spent_actor_ids
              then janitor_clean_shots_remaining x - 1
              else janitor_clean_shots_remaining x)
            s.seats)
      × (map framer_frame_shots_remaining (resolve_night_shots s p).seats
          ≡ map
              (λ x.
                if mem x.public_player_id p.frame_spent_actor_ids
                then framer_frame_shots_remaining x - 1
                else framer_frame_shots_remaining x)
              s.seats)
resolve_night_shots-spends s p =
    let cleans = p.clean_spent_actor_ids in
    let frames = p.frame_spent_actor_ids in
    let spend = λ (x : Seat). spend_frame_shot frames (spend_clean_shot cleans x) in
    (
      ap (map janitor_clean_shots_remaining) (resolve_night_shots_seats s p)
          ∙ map-map janitor_clean_shots_remaining spend s.seats
          ∙ map-cong _ _ s.seats (λ x.
            clean-spend_frame_shot frames (spend_clean_shot cleans x)
            ∙ clean-spend_clean_shot cleans x),
      ap (map framer_frame_shots_remaining) (resolve_night_shots_seats s p)
          ∙ map-map framer_frame_shots_remaining spend s.seats
          ∙ map-cong _ _ s.seats (λ x.
            frame-spend_frame_shot frames (spend_clean_shot cleans x)
            ∙ ground (arith, id-spend_clean_shot cleans x, frame-spend_clean_shot cleans x)),
    )
