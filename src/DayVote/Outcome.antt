-- ===== src/DayVote/Outcome.antt =====
-- Whom the day vote of day_vote.py eliminates.
use padrino.Base.{
  ℕ, ◌+◌, ◌≤◌, ◌<◌, ◌≡◌, refl, ◌∙◌, ◌↔◌, true, some, List, [], ◌∷◌, String, mem, max_value, keys_at,
  tally_of, Dict, string_eq, arith, sum_values, has, IsUnique, IsUniquePlurality, only_winner,
  only_plurality, keys_at_max, majority_wins,
}
use padrino.Game.{GameState, Action}
use padrino.DayVote.{
  DayVoteResult, hammer_threshold_for, living_ids, Ballots, ballots, decide_winners, decide_tally,
  resolve_day_vote, reason_unique_plurality,
}
use padrino.DayVote.Collect.{ballots_weight, ballots_keys, ballots-IsUnique}

decide_winners_of :
    (winners : List String) (b : Ballots) (t h : ℕ) {pid : String}
    → (decide_winners winners b t h).eliminated ≡ some pid
    → (winners ≡ pid ∷ []) × ((decide_winners winners b t h).reason ≡ reason_unique_plurality)
unfolding decide_winners
decide_winners_of [] b t h e = cc
decide_winners_of (w ∷ []) b t h e = (ground arith, refl)
decide_winners_of (w ∷ v ∷ ws) b t h e = cc

decide_tally_tally :
    (d : Dict String ℕ) (b : Ballots) (t h : ℕ)
    → b.tally ≡ d
    → (decide_tally d b t h).vote_tally ≡ d
unfolding decide_tally decide_winners
decide_tally_tally [] b t h e = refl
decide_tally_tally (x ∷ d) b t h e = tally_kept (keys_at (max_value (x ∷ d)) (x ∷ d)) ∙ e
  where
    tally_kept : (winners : List String) → (decide_winners winners b t h).vote_tally ≡ b.tally
    tally_kept [] = refl
    tally_kept (w ∷ []) = refl
    tally_kept (w ∷ v ∷ ws) = refl

decide_tally_of :
    (d : Dict String ℕ) (b : Ballots) (t h : ℕ) (pid : String)
    → IsUnique d
    → (decide_tally d b t h).eliminated ≡ some pid
    → IsUniquePlurality d pid × ((decide_tally d b t h).reason ≡ reason_unique_plurality)
unfolding decide_tally
decide_tally_of [] b t h pid u e = cc
decide_tally_of (x ∷ d) b t h pid u e =
    let (only, reason) = decide_winners_of (keys_at (max_value (x ∷ d)) (x ∷ d)) b t h e in
    (only_winner (x ∷ d) pid u only, reason)

decide_tally_plurality :
    (d : Dict String ℕ) (b : Ballots) (t h : ℕ) (pid : String)
    → IsUnique d
    → IsUniquePlurality d pid
    → (decide_tally d b t h).eliminated ≡ some pid
unfolding decide_tally decide_winners has
decide_tally_plurality [] b t h pid u p = cc (p.0)
decide_tally_plurality (x ∷ d) b t h pid u p =
    let winners = keys_at (max_value (x ∷ d)) (x ∷ d) in
    rw (only_plurality (x ∷ d) pid winners u p (keys_at_max x.0 x.1 d) refl)

decide_tally_majority :
    (d : Dict String ℕ) (b : Ballots) (t h : ℕ) (pid : String)
    → sum_values d < tally_of pid d + tally_of pid d
    → ((decide_tally d b t h).eliminated ≡ some pid)
      × ((decide_tally d b t h).reason ≡ reason_unique_plurality)
unfolding decide_tally decide_winners
decide_tally_majority [] b t h pid m = absurd (unfold tally_of sum_values in omega arith)
decide_tally_majority (x ∷ d) b t h pid m =
    let (top, only) = majority_wins pid (x ∷ d) m in
    let winners : keys_at (max_value (x ∷ d)) (x ∷ d) ≡ pid ∷ [] = rw top only in
    (rw winners, rw winners)

module _ (state : GameState) (submissions : Dict String Action) where
  abbrev vote : DayVoteResult
  vote = resolve_day_vote state submissions

  vote_tally_lem : vote.vote_tally ≡ (ballots state submissions).tally
  unfolding resolve_day_vote
  vote_tally_lem = decide_tally_tally _ _ _ _ refl

  -- A player is eliminated exactly if the player has votes and every other candidate has fewer.
  pub resolve_day_vote-eliminated :
      (pid : String) → (vote.eliminated ≡ some pid) ↔ IsUniquePlurality vote.vote_tally pid
  unfolding resolve_day_vote
  resolve_day_vote-eliminated pid = rw vote_tally_lem (
    (λ e. (decide_tally_of _ _ _ _ pid (ballots-IsUnique state submissions) e).0),
    decide_tally_plurality _ _ _ _ pid (ballots-IsUnique state submissions),
  )

  -- The player that the vote eliminates is alive.
  pub resolve_day_vote-living :
      (pid : String) → vote.eliminated ≡ some pid → mem pid (living_ids state.seats) ≡ true
  resolve_day_vote-living pid e =
      ballots_keys state submissions pid
        (rw vote_tally_lem at (((resolve_day_vote-eliminated pid).0 e).0))

  -- A candidate whose votes reach the hammer threshold is eliminated, with the reason of a unique
  -- plurality: nobody can tie with a strict majority of the living weight.
  pub resolve_day_vote-hammer :
      (pid : String)
      → hammer_threshold_for state ≤ tally_of pid vote.vote_tally
      → (vote.eliminated ≡ some pid) × (vote.reason ≡ reason_unique_plurality)
  unfolding hammer_threshold_for resolve_day_vote
  resolve_day_vote-hammer pid h =
      let most = rw vote_tally_lem at h in
      decide_tally_majority _ _ _ _ pid (omega (arith, ballots_weight state submissions, most))
