-- ===== src/Nar/Kills.antt =====
-- Whom the factional kill and the serial kill of nar.py hit.
use padrino.Base.{
  ℕ, ◌+◌, ◌<◌, ◌≡◌, refl, ◌≢◌, ◌↔◌, true, ◌&&◌, ◌||◌, some, List, [], ◌∷◌, String, ◌==◌, mem,
  filter, count_if, has, IsUnique, has-bump, IsUnique-bump, tally_of-bump, tally_of, bump,
  max_value, keys_at, keys_at_max, IsUniquePlurality, only_winner, only_plurality, Dict, string_eq,
  option_eq, arith, All, Bool-cases, inl, inr,
}
use padrino.Nar.Matrix.{NightActionKind, night_action_kind_eq}
use padrino.Nar.Intents.{NightActionIntent, tier_intents}
use padrino.Nar.Tiers.{
  targets_of, counter, kill_winner, kill_vote, resolve_mafia_kill, resolve_serial_kill,
}

-- How many intents of a kind name a player.
unfoldable pub votes_for : NightActionKind → List NightActionIntent → String → ℕ
votes_for kind intents pid =
    count_if (λ intent. intent.kind == kind && intent.target == some pid) intents

-- More intents of a kind name `pid` than any other player.
abbrev pub IsMostVoted : NightActionKind → List NightActionIntent → String → Type 0
IsMostVoted kind intents pid =
    (0 < votes_for kind intents pid)
    × ((j : String) → j ≢ pid → votes_for kind intents j < votes_for kind intents pid)

counter-tally :
    (pid : String) (ids : List String) (tally : Dict String ℕ)
    → tally_of pid (counter ids tally) ≡ tally_of pid tally + count_if (λ id. id == pid) ids
unfolding counter count_if
counter-tally pid [] tally = omega arith
counter-tally pid (id ∷ ids) tally =
    ground (arith, counter-tally pid ids (bump id 1 tally), tally_of-bump id pid 1 tally)

counter-has :
    (pid : String) (ids : List String) (tally : Dict String ℕ)
    → has pid (counter ids tally) ≡ mem pid ids || has pid tally
unfolding counter mem
counter-has pid [] tally = refl
counter-has pid (id ∷ ids) tally =
    ground (arith, counter-has pid ids (bump id 1 tally), has-bump id pid 1 tally)

counter-IsUnique :
    (ids : List String) (tally : Dict String ℕ) → IsUnique tally → IsUnique (counter ids tally)
unfolding counter
counter-IsUnique [] tally u = u
counter-IsUnique (id ∷ ids) tally u =
    counter-IsUnique ids (bump id 1 tally) (IsUnique-bump id 1 tally u)

pub count-targets :
    (kind : NightActionKind) (intents : List NightActionIntent) (pid : String)
    → count_if (λ id. id == pid) (targets_of (tier_intents intents kind))
      ≡ votes_for kind intents pid
unfolding votes_for targets_of tier_intents filter count_if
count-targets kind [] pid = refl
count-targets kind (intent ∷ intents) pid = ground (arith, count-targets kind intents pid)

pub mem-count :
    (pid : String) (ids : List String)
    → (mem pid ids ≡ true → 0 < count_if (λ id. id == pid) ids)
      × (0 < count_if (λ id. id == pid) ids → mem pid ids ≡ true)
unfolding mem count_if
mem-count pid [] = (λ e. ground arith, λ e. ground arith)
mem-count pid (id ∷ ids) =
    (λ e. ground (arith, (mem-count pid ids).0), λ e. ground (arith, (mem-count pid ids).1))

kill_winner_of :
    (winners : List String) (tally : Dict String ℕ) (pid : String)
    → ((kill_winner winners tally).target ≡ some pid) ↔ (winners ≡ pid ∷ [])
unfolding kill_winner
kill_winner_of [] tally pid = (λ e. ground arith, λ e. ground arith)
kill_winner_of (w ∷ []) tally pid = (λ e. ground arith, λ e. ground arith)
kill_winner_of (w ∷ v ∷ ws) tally pid = (λ e. ground arith, λ e. ground arith)

kill_vote_of :
    (tally : Dict String ℕ) (pid : String)
    → IsUnique tally
    → ((kill_vote tally).target ≡ some pid) ↔ IsUniquePlurality tally pid
unfolding kill_vote has
kill_vote_of [] pid u = (λ e. absurd (ground arith), λ p. absurd (ground (arith, p.0)))
kill_vote_of (x ∷ d) pid u =
    let winners = keys_at (max_value (x ∷ d)) (x ∷ d) in
    (
      λ e. only_winner (x ∷ d) pid u ((kill_winner_of winners (x ∷ d) pid).0 e),
      λ p.
          (kill_winner_of winners (x ∷ d) pid).1
            (only_plurality (x ∷ d) pid winners u p (keys_at_max x.0 x.1 d) refl),
    )

module _ (kind : NightActionKind) (intents : List NightActionIntent) where
  abbrev tier_tally : Dict String ℕ
  tier_tally = counter (targets_of (tier_intents intents kind)) []

  tier_tally_of : (pid : String) → tally_of pid tier_tally ≡ votes_for kind intents pid
  unfolding tally_of
  tier_tally_of pid = ground (
    arith,
    counter-tally pid (targets_of (tier_intents intents kind)) [],
    count-targets kind intents pid,
  )

  tier_tally-has : (pid : String) → (has pid tier_tally ≡ true) ↔ (0 < votes_for kind intents pid)
  unfolding has
  tier_tally-has pid =
      let ids = targets_of (tier_intents intents kind) in
      let h = counter-has pid ids [] in
      let c = count-targets kind intents pid in
      (
        λ e. ground (arith, (mem-count pid ids).0, h, c),
        λ e. ground (arith, (mem-count pid ids).1, h, c),
      )

  fewer_votes :
      (pid j : String)
      → IsUniquePlurality tier_tally pid
      → j ≢ pid
      → votes_for kind intents j < votes_for kind intents pid
  fewer_votes pid j p other = elim (Bool-cases (has j tier_tally)) [
    | inl h ↦ ground (arith, p.1 j h other, tier_tally_of j, tier_tally_of pid)
    | inr h ↦ ground (arith, h, (tier_tally-has j).1, (tier_tally-has pid).0 p.0)
  ]

  -- The kill vote of a tier names the player whom more intents name than any other player.
  kill_vote_iff :
      (pid : String) → ((kill_vote tier_tally).target ≡ some pid) ↔ IsMostVoted kind intents pid
  kill_vote_iff pid =
      let unique = counter-IsUnique (targets_of (tier_intents intents kind)) [] tt in
      let (to, from) = kill_vote_of tier_tally pid unique in
      (
        λ e. ((tier_tally-has pid).0 (to e).0, λ j other. fewer_votes pid j (to e) other),
        λ m. from (
          (tier_tally-has pid).1 m.0,
          λ j h other. rw (tier_tally_of j, tier_tally_of pid) (m.1 j other),
        ),
      )

-- The factional kill hits a player exactly if more of its intents name that player than any other
-- player, and so does the serial kill.
pub resolve_kills-IsMostVoted :
    (intents : List NightActionIntent) (pid : String)
    → (((resolve_mafia_kill intents).target ≡ some pid)
        ↔ IsMostVoted NightActionKind.factional_kill intents pid)
      × (((resolve_serial_kill intents).0 ≡ some pid)
          ↔ IsMostVoted NightActionKind.serial_kill intents pid)
unfolding resolve_mafia_kill resolve_serial_kill
resolve_kills-IsMostVoted intents pid = (
  kill_vote_iff NightActionKind.factional_kill intents pid,
  kill_vote_iff NightActionKind.serial_kill intents pid,
)

-- A player whom an intent of the kind names: the witness of a positive number of votes.
pub voter :
    (P : NightActionIntent → Type 0) (kind : NightActionKind) (intents : List NightActionIntent)
    → (pid : String) → All P intents
    → 0 < votes_for kind intents pid
    → (i : NightActionIntent) × P i × (i.kind ≡ kind) × (i.target ≡ some pid)
unfolding votes_for count_if
voter P kind [] pid h v = absurd (ground arith)
voter P kind (intent ∷ intents) pid h v =
    elim (Bool-cases (intent.kind == kind && intent.target == some pid)) [
      | inl e ↦ (intent, h.0, ground arith, ground arith)
      | inr e ↦ voter P kind intents pid h.1 (ground arith)
    ]
