-- ===== src/Examples/Logs.antt =====
-- Short logs on the table.
use padrino.Base.{
  put, String-discrete, ◌-◌, ◌≡◌, refl, some, none, List, [], ◌∷◌, map, filter, get, mem, string_eq,
  ok, is_ok, if◌then◌else◌,
}
use padrino.Game.{
  SeatKind, RolesAssignedPayload, GameCreatedPayload, game_created, roles_assigned, seat_taken_over,
  Faction, Role, GameState, Header, Event, public_message_submitted, player_eliminated,
  PlayerEliminatedPayload, NightResolvedPayload, janitor_clean_shots_remaining,
  framer_frame_shots_remaining,
}
use padrino.Reducer.{apply_event, is_recorded_only, eliminate, replay_from, resolve_night_shots}
use padrino.Reducer.Firewall.{
  is_mechanical, all_accepted, replay_from-is_mechanical, replay_from-is_ok,
}
use padrino.Reducer.Seats.{identity}
use padrino.Reducer.Roster.{replay_from-identity}
use padrino.Reducer.Shots.{resolve_night_shots-spends}
use padrino.Reducer.Provenance.{
  taken, is_taken_over, provenance_of, assign_provenance, take_over, provenance_step,
  provenance_from, compute_seat_provenance, compute_seat_provenance-is_taken_over,
}
use padrino.Examples.Table.{night_state}

abbrev pub header : Header
header = record { sequence = 40; phase = "NIGHT_1_ACTIONS" }

abbrev pub message : Event
message =
    public_message_submitted header "P07"
      (record { text = "P01 is mafia"; round_index = some 1; content_ref = none })

abbrev death : PlayerEliminatedPayload
death = record {
  public_player_id = "P07";
  cause = "MAFIA_KILL";
  role = some Role.villager;
  faction = some Faction.town;
}

abbrev log : List Event
log = message ∷ player_eliminated header none death ∷ message ∷ []

abbrev after : GameState
after = eliminate night_state header death

log_replays : replay_from night_state log ≡ ok after
unfolding replay_from apply_event is_recorded_only
log_replays = refl

replay_from-is_mechanical_example :
    replay_from night_state (filter is_mechanical log) ≡ replay_from night_state log
replay_from-is_mechanical_example = replay_from-is_mechanical night_state log

replay_from-is_ok_example : is_ok (replay_from night_state log) ≡ all_accepted log
replay_from-is_ok_example = replay_from-is_ok night_state log

replay_from-identity_example : map identity after.seats ≡ map identity night_state.seats
replay_from-identity_example = replay_from-identity night_state after log refl log_replays

abbrev resolved : NightResolvedPayload
resolved = record {
  eliminated = some "P07";
  protected = none;
  mafia_kill_target = some "P07";
  eliminated_player_ids = "P07" ∷ [];
  serial_kill_target = none;
  cleaned_deaths = "P07" ∷ [];
  clean_spent_actor_ids = "P03" ∷ [];
  framed_targets = "P05" ∷ [];
  frame_spent_actor_ids = "P04" ∷ [];
}

resolve_night_shots-spends_example :
    (map janitor_clean_shots_remaining (resolve_night_shots night_state resolved).seats
      ≡ map
          (λ x.
            if mem x.public_player_id resolved.clean_spent_actor_ids
            then janitor_clean_shots_remaining x - 1
            else janitor_clean_shots_remaining x)
          night_state.seats)
    × (map framer_frame_shots_remaining (resolve_night_shots night_state resolved).seats
        ≡ map
            (λ x.
              if mem x.public_player_id resolved.frame_spent_actor_ids
              then framer_frame_shots_remaining x - 1
              else framer_frame_shots_remaining x)
            night_state.seats)
resolve_night_shots-spends_example = resolve_night_shots-spends night_state resolved

abbrev opening : RolesAssignedPayload
opening = record {
  assignments =
      record {
        public_player_id = "P01";
        seat_index = 1;
        role = Role.villager;
        faction = Faction.town;
        seat_kind = some SeatKind.human;
      }
      ∷ [];
}

abbrev created : GameCreatedPayload
created = record { ruleset_id = "bench"; game_id = "g1"; game_seed = "seed"; player_count = 1 }

abbrev takeover : Event
takeover = seat_taken_over header none (record {
  public_player_id = "P01";
  day = 1;
  phase = "DAY_1_VOTE";
  reason = "disconnect";
  replacement_agent_build_ref = "a1";
})

compute_seat_provenance-is_taken_over_example :
    get "P01" (
      compute_seat_provenance
        (game_created header none created ∷ roles_assigned header none opening ∷ takeover ∷ []))
    ≡ (if is_taken_over "P01" (takeover ∷ [])
        then some (taken (get "P01" (assign_provenance opening.assignments [])))
        else get "P01" (assign_provenance opening.assignments []))
compute_seat_provenance-is_taken_over_example =
    compute_seat_provenance-is_taken_over header header none none created opening (takeover ∷ [])
      "P01" refl

-- The human whose seat was taken over.
provenance_label :
    get "P01" (
      compute_seat_provenance
        (game_created header none created ∷ roles_assigned header none opening ∷ takeover ∷ []))
    ≡ some "HUMAN_THEN_AI"
unfolding compute_seat_provenance provenance_from provenance_step assign_provenance provenance_of
    take_over get put String-discrete
provenance_label = refl
