-- ===== src/Lib.antt =====
-- Padrino plays games of Mafia between language models and people. The games are decided by a
-- deterministic engine, src/padrino/core/engine: the state is folded from a log of events, and pure
-- functions say which actions are legal, how a vote or a night ends, which phase follows and who has
-- won. Around it stand pure functions that deal the roles, seal the log in a hash chain, decide what a
-- player or a spectator may see, and fill lobbies and schedules. This development models these and
-- proves what a game relies on.
--
-- The parts, and the files that model them:
--
--   Base      Python's built-ins as the engine uses them: dictionaries in insertion order (Dict, get,
--             put, setdefault, bump), sets as lists (mem, add, diff), `sorted` as a stable insertion
--             sort, `max` of a tally and its keys, and ValueErrors as results (Result).
--   Game      core/enums.py (Enums), state.py and actions.py (State), events.py (Payloads, Events).
--   Phases    phases.py: `next_phase`, a state machine on the phase and two constants of the ruleset.
--   Reducer   reducer.py and `replay_events` of replay.py: `apply_event` is one step of the state,
--             `replay_from` the fold of a log, `compute_seat_provenance` (Provenance) reads the log.
--   Win       win_conditions.py: `check_win` and its conditions; Rulesets holds the policies of
--             rulesets/mini7_v1.py, sk12_v1.py and jester8_v1.py.
--   DayVote   resolvers/day_vote.py: ballots, weights, the plurality and the hammer threshold.
--   Nar       resolvers/nar.py: the night. Matrix is the resolution matrix, Intents the validation,
--             Visits the roleblocks, Redirects the second tier, Tiers the protects, kills and frames,
--             Reads the investigations, visit reads and reveals, Night `resolve_night_actions`, and
--             Current the wrappers that mafia_kill.py, doctor_protect.py, detective.py and night.py
--             call.
--   Legal     legal_actions.py: `legal_actions_for` and its use by the night and by the day vote.
--   Json      Python values of the types that events and rows hold. Canonical is canonical_json.py;
--             Reorder relates values that differ in the order of their entries.
--   Chain     event_log.py, hashing.py and `replay_event_log` of replay.py: `append`, `from_stored` and
--             the replay over a digest. Sealed is the relation of a well-formed chain, Replayed the
--             loaders against each other, Tamper what a head hash binds.
--   Rng       rng.py: `SeededRng` as a state passed along, `randbelow`, `shuffle` and `choice`.
--   Seating   role_assignment.py, core/seating.py and core/lobby/autofill.py: what a seeded shuffle
--             deals (Dealt for roles and slots, Filled for the builds of a lobby).
--   Observations  core/observations.py: the records and the reading of fields, Entries of stored
--             bodies, and Build, the observation of a seat; Hidden is about the events that a seat is not shown.
--   Privacy   core/observation_privacy.py: the ranked guard and the audit (Audit relates them);
--             Spectator has the identity modes, the allowlists and core/spectator_projection.py,
--             Stripped and Projected what is left.
--   Cron      core/scheduling/__init__.py: cron expressions (Fields) and the next run (Firings).
--   Presence  core/composition.py (Frozen, with the mark that runner/human_lane.py sets on a seat taken
--             over) and core/disconnect.py (Grace): who sits at a table, and whose connection a viewer
--             may see.
--   Budget    economics/budget_reservations.py: the slots of one budget, and the sessions that claim and
--             release them as a step relation (Capacity); Amounts is about what slots are worth, Free about
--             the search for an index.
--   Examples  concrete games, logs, deals, tables and schedules.
--
-- The parts meet as in the code: a game is created with the seats of `assign_roles`; its events are
-- appended to the chain, and folded by the reducer; `build_observation` reads the chain and asks
-- `legal_actions_for`; the guards look at observations, and the projection at stored events.
--
-- A function keeps the name of the source without its leading underscore; a loop of the source is a
-- function on the list it runs over (`active_loop`), with its body as a step (`activate`) and the lists
-- that it appends to passed along (`NightNotes`). A set that the source sorts at once is a list here,
-- and the order of insertion cannot be seen through the sort. `append` returns the list that it
-- changes, and each draw returns the generator after it.
--
-- Parameters. The digest is `sha256_hex` on texts in Chain and `sha256` on bytes in Rng and Seating,
-- where `utf8` encodes a text. `lower`, `upper`, `strip` and `str_of` in Privacy, `split_blanks`,
-- `is_digit` and `int` in Cron are Python's functions of texts, and `Calendar` reads the fields of a
-- moment as datetime does. No property of a digest is assumed but its length, where a theorem says so.
--
-- Numbers. Days, rounds, seat indices, weights and counts are natural numbers; the engine never
-- subtracts from them except for shots, where the source clips at 0 as subtraction on naturals does.
-- A stored shot count is an integer, since the source clips it when it reads it. Player ids are
-- texts, compared as Python compares strings. Moments are natural numbers, of minutes in Cron and of
-- any unit in Presence. Amounts of money in Budget, floats in the source, are natural numbers of one
-- small unit, so a quotient is exact before it is rounded.
--
-- Fuel. `str`, the decimal digits of a number, has one more than the number, and each step divides by
-- ten; `bit_length` has the number, and each step halves it; `next_bytes` has one block for each byte
-- wanted, and a block is not empty. The rejection loop of `randbelow` has no bound in the source, so
-- its fuel is a parameter: that it is enough is a hypothesis on the draws made (`Accepts`). The horizon of
-- `next_run_at` is the code's own. `_next_free_index` has one round more than there are indices
-- below the implicit ones or taken.
--
-- Errors. `next_phase` and `apply_event` return an error where the source raises ValueError, and so do
-- the chain, the generator, the readers of event bodies, the guards and the cron parser, with a
-- constructor for each reason. The assertions of nar.py on the target of an active intent cannot fail,
-- as validation asks for a living target; where one would fail, the model skips the intent. A key that
-- is repeated in a dictionary of a Json value, which Python cannot hold, has no meaning.
--
-- Not modelled: the pairing of campaigns, matchmaking and amounts of money, scoring and statistics, the
-- reveal after a game, the asynchronous runner, the web service, the database, model providers and
-- ratings. They are planned, or stand around the engine, or are libraries. Parsing of events by
-- pydantic is a library's work and taken as done, save for the field types of an observation. More
-- than 2 ** 64 blocks of a generator, where `to_bytes` raises, are not drawn. `humanize_cron` only
-- makes a text for display.
pub mod Base
pub mod Game
pub mod Phases
pub mod Reducer
pub mod Win
pub mod DayVote
pub mod Nar
pub mod Legal
pub mod Json
pub mod Chain
pub mod Rng
pub mod Seating
pub mod Observations
pub mod Privacy
pub mod Cron
pub mod Presence
pub mod Budget
pub mod Examples
