-- ===== src/Observations/Hidden.antt =====
-- The events that a seat is not shown, and its observation.
use padrino.Base.{
  true, ◌&&◌, not, Option, none, some, map, mem, ◌==◌, string_eq, ◌∙◌, ap, All, ◌≡◌, refl, inl, inr,
  Bool, false, ◌||◌, List, [], ◌∷◌, filter, String, Bool-cases, Result, arith,
}
use padrino.Game.{Faction, faction_eq, Seat, GameState}
use padrino.Json.{
  Value, none_value, bool_value, int_value, str_value, list_value, tuple_value, dict_value,
  other_value, Fields,
}
use padrino.Chain.{StoredEvent}
use padrino.Observations.{ObservationRuleset, BodyError, field_of}
use padrino.Observations.Entries.{
  is_text, actor_in, mafia_seat_ids, is_public, is_own_private, is_type, is_own, split_events,
  filter_events, read_where, dead_players, inspection_history, role_feedback,
}
use padrino.Observations.Build.{history_for, build_observation}

-- The text that an event has under a name, if it has one.
abbrev text_of : Option Value → Option String
text_of (some (str_value s)) = some s
text_of _ = none

abbrev says : Option String → String → Bool
says none text = false
says (some s) text = s == text

-- A seat of the table with this id is of the mafia.
unfoldable is_mafia_seat : List Seat → String → Bool
is_mafia_seat [] id = false
is_mafia_seat (s ∷ seats) id =
    s.faction == Faction.mafia && s.public_player_id == id || is_mafia_seat seats id

-- Who may see an event with this visibility and actor: everyone a public event; a private one its
-- own actor, and the mafia also those of the mafia; nobody any other.
unfoldable may_read : GameState → Seat → (visibility actor : Option String) → Bool
unfolding is_mafia_seat
may_read state seat none actor = false
may_read state seat (some visibility) none = visibility == "PUBLIC"
may_read state seat (some visibility) (some actor) =
    visibility == "PUBLIC"
    || visibility == "PRIVATE"
      && (actor == seat.public_player_id
          || seat.faction == Faction.mafia && is_mafia_seat state.seats actor)

unfoldable pub may_see : GameState → Seat → StoredEvent → Bool
unfolding may_read field_of
may_see state seat stored =
    may_read state seat (text_of (field_of "visibility" stored.body))
      (text_of (field_of "actor_player_id" stored.body))

-- The visibility that the event classes give to eliminations and to what the engine tells a seat at
-- night.
abbrev has_own_visibility : (event_type visibility : Option String) → Bool
has_own_visibility event_type visibility =
    (not (says event_type "PlayerEliminated") || says visibility "PUBLIC")
    && (not (says event_type "DetectiveResultDelivered") || says visibility "PRIVATE")
    && (not (says event_type "NightFeedbackDelivered") || says visibility "PRIVATE")

unfoldable pub is_labelled : StoredEvent → Bool
unfolding field_of
is_labelled stored =
    has_own_visibility (text_of (field_of "event_type" stored.body))
      (text_of (field_of "visibility" stored.body))

text_of-is_text :
    (value : Option Value) (text : String) → is_text value text ≡ says (text_of value) text
text_of-is_text none text = refl
text_of-is_text (some none_value) text = refl
text_of-is_text (some (bool_value b)) text = refl
text_of-is_text (some (int_value n)) text = refl
text_of-is_text (some (str_value s)) text = refl
text_of-is_text (some (list_value xs)) text = refl
text_of-is_text (some (tuple_value xs)) text = refl
text_of-is_text (some (dict_value fs)) text = refl
text_of-is_text (some (other_value name)) text = refl

-- An actor among the ids, if it is a text.
abbrev is_among : Option String → List String → Bool
is_among none ids = false
is_among (some s) ids = mem s ids

actor_in-is_among :
    (value : Option Value) (ids : List String) → actor_in value ids ≡ is_among (text_of value) ids
actor_in-is_among none ids = refl
actor_in-is_among (some none_value) ids = refl
actor_in-is_among (some (bool_value b)) ids = refl
actor_in-is_among (some (int_value n)) ids = refl
actor_in-is_among (some (str_value s)) ids = refl
actor_in-is_among (some (list_value xs)) ids = refl
actor_in-is_among (some (tuple_value xs)) ids = refl
actor_in-is_among (some (dict_value fs)) ids = refl
actor_in-is_among (some (other_value name)) ids = refl

mem-is_mafia_seat :
    (seats : List Seat) (id : String)
    → mem id (map (λ s. s.public_player_id) (filter (λ s. s.faction == Faction.mafia) seats))
      ≡ is_mafia_seat seats id
unfolding mem filter is_mafia_seat
mem-is_mafia_seat [] id = refl
mem-is_mafia_seat (s ∷ seats) id = elim (Bool-cases (s.faction == Faction.mafia)) [
  | inl e ↦ rw e (ap (λ b. (s.public_player_id == id) || b) (mem-is_mafia_seat seats id))
  | inr e ↦ rw e (mem-is_mafia_seat seats id)
]

may_read-tests :
    (state : GameState) (seat : Seat) (visibility actor : Option String)
    → (says visibility "PUBLIC"
        || says visibility "PRIVATE"
          && (says actor seat.public_player_id
              || seat.faction == Faction.mafia && is_among actor (mafia_seat_ids state)))
      ≡ may_read state seat visibility actor
unfolding may_read
may_read-tests state seat none actor = refl
may_read-tests state seat (some visibility) none = ground arith
may_read-tests state seat (some visibility) (some actor) =
    rw (mem-is_mafia_seat state.seats actor) refl

-- The loop shows an event exactly if the seat may see it.
split_events-may_see :
    (state : GameState) (seat : Seat) (e : StoredEvent)
    → (is_public e || is_own_private state seat e) ≡ may_see state seat e
unfolding is_public is_own_private may_see
split_events-may_see state seat e = rw (text_of-is_text (field_of "visibility" e.body) "PUBLIC") (
    rw (text_of-is_text (field_of "visibility" e.body) "PRIVATE") (
      rw (text_of-is_text (field_of "actor_player_id" e.body) seat.public_player_id) (
        rw (actor_in-is_among (field_of "actor_player_id" e.body) (mafia_seat_ids state)) (
          may_read-tests state seat (text_of (field_of "visibility" e.body))
            (text_of (field_of "actor_player_id" e.body))))))

-- A labelled elimination is public.
eliminated-may_see :
    (state : GameState) (seat : Seat) (e : StoredEvent)
    → is_labelled e ≡ true
    → may_see state seat e ≡ false
    → is_type "PlayerEliminated" e ≡ false
unfolding is_type is_labelled may_see
eliminated-may_see state seat e labelled hidden =
    let tests =
      may_read-tests state seat (text_of (field_of "visibility" e.body))
        (text_of (field_of "actor_player_id" e.body)) in
    text_of-is_text (field_of "event_type" e.body) "PlayerEliminated"
    ∙ ground (arith, labelled, tests ∙ hidden)

-- What the engine tells a seat is private to it.
own-may_see :
    (state : GameState) (seat : Seat) (name : String) (e : StoredEvent)
    → (says (text_of (field_of "event_type" e.body)) name ≡ true
        → says (text_of (field_of "visibility" e.body)) "PRIVATE" ≡ true)
    → may_see state seat e ≡ false
    → is_own name seat e ≡ false
unfolding is_own is_type may_see
own-may_see state seat name e private hidden =
    let tests =
      may_read-tests state seat (text_of (field_of "visibility" e.body))
        (text_of (field_of "actor_player_id" e.body)) in
    rw (text_of-is_text (field_of "event_type" e.body) name) (
      rw (text_of-is_text (field_of "actor_player_id" e.body) seat.public_player_id)
        (ground (arith, private, tests ∙ hidden)))

-- A loop reads the same from the labelled events of which it is sure to read none left out.
read_where-filter {ℓ} :
    {A : Type ℓ} (test shown : StoredEvent → Bool) (read : Fields → Result BodyError A)
    (events : List StoredEvent)
    → All (λ e. is_labelled e ≡ true) events
    → ((e : StoredEvent) → is_labelled e ≡ true → shown e ≡ false → test e ≡ false)
    → read_where test read (filter shown events) ≡ read_where test read events
unfolding read_where filter
read_where-filter test shown read [] labelled hides = refl
read_where-filter test shown read (e ∷ events) labelled hides = elim (Bool-cases (shown e)) [
  | inl s ↦ rw s (rw (read_where-filter test shown read events labelled.1 hides) refl)
  | inr n ↦
      rw n (rw (hides e labelled.0 n) (read_where-filter test shown read events labelled.1 hides))
]

split_events-filter :
    (state : GameState) (seat : Seat) (events : List StoredEvent)
    → split_events state seat (filter (may_see state seat) events) ≡ split_events state seat events
unfolding split_events filter
split_events-filter state seat [] = refl
split_events-filter state seat (e ∷ events) = elim (Bool-cases (may_see state seat e)) [
  | inl s ↦ rw s (rw (split_events-filter state seat events) refl)
  | inr n ↦
      let hidden = split_events-may_see state seat e ∙ n in
      let public : is_public e ≡ false = ground (arith, hidden) in
      let private : is_own_private state seat e ≡ false = ground (arith, hidden) in
      rw n (rw public (rw private (split_events-filter state seat events)))
]

module _ (state : GameState) (seat : Seat) where
  -- Of a log whose eliminations are labelled public and whose detective results and night feedback are
  -- labelled private, build_observation reads only what the seat may see: public events, its own private
  -- ones and, for the mafia, those of the mafia. Leaving out all others changes nothing in what it
  -- returns or raises.
  pub build_observation-filter :
      (event_log : List StoredEvent) (rules : ObservationRuleset) (private_memory : String)
      → All (λ e. is_labelled e ≡ true) event_log
      → build_observation state seat (filter (may_see state seat) event_log) rules private_memory
        ≡ build_observation state seat event_log rules private_memory
  unfolding build_observation dead_players filter_events history_for inspection_history
      role_feedback is_labelled
  build_observation-filter event_log rules private_memory labelled =
      rw
        (read_where-filter (is_type "PlayerEliminated") (may_see state seat) _ event_log labelled
          (eliminated-may_see state seat))
        (rw
          (read_where-filter (is_own "DetectiveResultDelivered" seat) (may_see state seat) _
            event_log labelled
            (λ e l.
              own-may_see state seat "DetectiveResultDelivered" e (λ t. ground (arith, l, t))))
          (rw
            (read_where-filter (is_own "NightFeedbackDelivered" seat) (may_see state seat) _
              event_log labelled
              (λ e l.
                own-may_see state seat "NightFeedbackDelivered" e (λ t. ground (arith, l, t))))
            (rw (split_events-filter state seat event_log) refl)))
