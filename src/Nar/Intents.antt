-- ===== src/Nar/Intents.antt =====
-- nar.py: intents, their order, and which of them are valid.
use Prim.Native.Nat.{compare, Ordering}
use Prim.Native.String.{compare as compare_text}
use padrino.Base.{
  ℕ, Bool, true, false, ◌&&◌, not, Option, none, some, List, [], ◌∷◌, String, ◌==◌, ltb, is_some,
  filter, Dict, get, put, sort_by, if◌then◌else◌, string_eq, option_eq,
}
use padrino.Game.{
  Faction, faction_eq, Role, role_eq, Seat, GameState, seat_by_public_id,
  janitor_clean_shots_remaining, framer_frame_shots_remaining,
}
use padrino.Nar.Matrix.{NightActionKind, night_action_kind_eq, kind_value}

pub record NightActionIntent : Type 0 where
  pub actor : String
  pub kind : NightActionKind
  pub target : Option String
  pub redirect_target : Option String

abbrev fill_order : List Seat → Dict String ℕ → Dict String ℕ
fill_order [] order = order
fill_order (seat ∷ seats) order = fill_order seats (put seat.public_player_id seat.seat_index order)

unfoldable pub seat_order : GameState → Dict String ℕ
seat_order state = fill_order state.seats []

-- `order.get(pid, 10_000)`
abbrev or_last : Option ℕ → ℕ
or_last none = 10000
or_last (some i) = i

-- `x or ""`
abbrev text_or_empty : Option String → String
text_or_empty none = ""
text_or_empty (some s) = s

-- The order of tuples: the first difference decides.
abbrev then_by : Ordering → Ordering → Ordering
then_by Ordering.eq next = next
then_by Ordering.lt next = Ordering.lt
then_by Ordering.gt next = Ordering.gt

abbrev not_gt : Ordering → Bool
not_gt Ordering.gt = false
not_gt _ = true

unfoldable pub id_le : Dict String ℕ → String → String → Bool
id_le order a b =
    not_gt (then_by (compare (or_last (get a order)) (or_last (get b order))) (compare_text a b))

unfoldable pub intent_le : Dict String ℕ → NightActionIntent → NightActionIntent → Bool
intent_le order a b = not_gt (
    then_by (compare (or_last (get a.actor order)) (or_last (get b.actor order))) (
      then_by (compare_text a.actor b.actor) (
        then_by (compare_text (kind_value a.kind) (kind_value b.kind)) (
          then_by (compare_text (text_or_empty a.target) (text_or_empty b.target))
            (compare_text (text_or_empty a.redirect_target) (text_or_empty b.redirect_target))))))

unfoldable pub sort_ids : GameState → List String → List String
sort_ids state ids = sort_by (id_le (seat_order state)) ids

unfoldable pub sort_intents : GameState → List NightActionIntent → List NightActionIntent
sort_intents state intents = sort_by (intent_le (seat_order state)) intents

abbrev if_alive : Option Seat → Option Seat
if_alive none = none
if_alive (some seat) = if seat.alive then some seat else none

unfoldable pub alive_seat : GameState → Option String → Option Seat
alive_seat state none = none
alive_seat state (some public_player_id) = if_alive (seat_by_public_id state public_player_id)

-- The tests of `_valid_target_for_kind` after the target is found alive.
unfoldable pub valid_kind :
    GameState
    → (actor target : Seat) → NightActionKind
    → (target_id redirect_target_id : Option String) → Bool
valid_kind state actor target NightActionKind.factional_kill t r =
    actor.faction == Faction.mafia && not (target.faction == Faction.mafia)
valid_kind state actor target NightActionKind.protect t r =
    actor.role == Role.doctor && not (t == actor.last_protected_target)
valid_kind state actor target NightActionKind.investigate t r =
    actor.role == Role.detective && not (t == some actor.public_player_id)
valid_kind state actor target NightActionKind.roleblock t r =
    actor.role == Role.mafia_roleblocker && not (t == some actor.public_player_id)
valid_kind state actor target NightActionKind.redirect t r = is_some (alive_seat state r)
valid_kind state actor target NightActionKind.frame t r =
    actor.role == Role.framer
    && (not (t == some actor.public_player_id) && ltb 0 (framer_frame_shots_remaining actor))
valid_kind state actor target NightActionKind.track t r =
    actor.role == Role.tracker && not (t == some actor.public_player_id)
valid_kind state actor target NightActionKind.watch t r =
    actor.role == Role.watcher && not (t == some actor.public_player_id)
valid_kind state actor target NightActionKind.clean t r =
    actor.role == Role.janitor
    && (not (t == some actor.public_player_id) && ltb 0 (janitor_clean_shots_remaining actor))
valid_kind state actor target NightActionKind.serial_kill t r =
    actor.role == Role.serial_killer && not (t == some actor.public_player_id)

abbrev pub valid_at : Option Seat → (Seat → Bool) → Bool
valid_at none test = false
valid_at (some seat) test = test seat

unfoldable pub valid_target_for_kind :
    GameState
    → (actor : Seat) → NightActionKind
    → (target_id redirect_target_id : Option String) → Bool
unfolding valid_kind
valid_target_for_kind state actor kind target_id redirect_target_id =
    valid_at (alive_seat state target_id)
      (λ target. valid_kind state actor target kind target_id redirect_target_id)

-- The tests of the loop of `_valid_intents`.
unfoldable pub is_valid : GameState → NightActionIntent → Bool
unfolding valid_target_for_kind
is_valid state intent =
    valid_at (alive_seat state (some intent.actor))
      (λ actor. valid_target_for_kind state actor intent.kind intent.target intent.redirect_target)

unfoldable pub valid_intents : GameState → List NightActionIntent → List NightActionIntent
unfolding sort_intents
valid_intents state intents = filter (is_valid state) (sort_intents state intents)

unfoldable pub tier_intents : List NightActionIntent → NightActionKind → List NightActionIntent
tier_intents intents kind = filter (λ intent. intent.kind == kind) intents
