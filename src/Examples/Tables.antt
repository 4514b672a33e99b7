-- ===== src/Examples/Tables.antt =====
-- A table of three people and a model; one person was taken over before, one is now.
use padrino.Base.{
  ◌≡◌, Bool, true, false, not, count_if, none, some, List, [], ◌∷◌, map, length, if◌then◌else◌,
}
use padrino.Game.{SeatKind}
use padrino.Presence.{
  SeatLike, kind_seat, text_seat, holding_seat, shown, composition_summary, take_over_row,
}
use padrino.Presence.Frozen.{is_person, composition_summary-takeover}

-- The row and the member are of people, as is the text of a seat already taken over.
abbrev mixed_table : List SeatLike
mixed_table =
    holding_seat (some (shown "HUMAN"))
    ∷ kind_seat SeatKind.human
    ∷ text_seat "AI_TAKEOVER"
    ∷ holding_seat none
    ∷ []

-- Only the seat given as a row is taken over.
abbrev row_taken : SeatLike → Bool
row_taken (holding_seat (some raw)) = true
row_taken seat = false

composition_summary-takeover_example :
    ((composition_summary
        (map (λ s. if row_taken s then take_over_row s else s) mixed_table)).human_count
      ≡ count_if is_person mixed_table)
    × ((composition_summary
          (map (λ s. if row_taken s then take_over_row s else s) mixed_table)).ai_count
        ≡ count_if (λ s. not (is_person s)) mixed_table)
    × ((composition_summary
          (map (λ s. if row_taken s then take_over_row s else s) mixed_table)).total
        ≡ length mixed_table)
composition_summary-takeover_example = composition_summary-takeover row_taken mixed_table
