-- ===== src/Presence/Grace.antt =====
-- Which seats are past their grace, and what a viewer is told.
use padrino.Base.{
  ◌≡◌, refl, ap, inl, inr, Bool, true, false, ◌&&◌, ◌||◌, not, List, [], ◌∷◌, map, filter, mem,
  String, ◌==◌, string_eq, Bool-cases, ℕ, arith,
}
use padrino.Presence.{
  SeatPresence, is_within_grace, seats_past_grace, is_viewer, entry_of, project_presence_for_viewer,
}

filter-filter :
    (p : SeatPresence → Bool) (xs : List SeatPresence) → filter p (filter p xs) ≡ filter p xs
unfolding filter
filter-filter p [] = refl
filter-filter p (x ∷ xs) = elim (Bool-cases (p x)) [
  | inl e ↦ rw e (rw e (ap (λ rest. x ∷ rest) (filter-filter p xs)))
  | inr e ↦ rw e (filter-filter p xs)
]

-- In an anonymous game the frame of a viewer is the same without the presences of the other seats.
pub project_presence_for_viewer-filter :
    (viewer_seat_id : String) (presences : List SeatPresence)
    → project_presence_for_viewer true viewer_seat_id (filter (is_viewer viewer_seat_id) presences)
      ≡ project_presence_for_viewer true viewer_seat_id presences
unfolding project_presence_for_viewer
project_presence_for_viewer-filter viewer_seat_id presences =
    ap (map entry_of) (filter-filter (is_viewer viewer_seat_id) presences)

-- Any seat past its grace, by its id.
any_past : ℕ → ℕ → String → List SeatPresence → Bool
any_past now grace id [] = false
any_past now grace id (p ∷ presences) =
    p.public_player_id == id && not (is_within_grace now grace p) || any_past now grace id presences

-- The seats to take over are those with a presence that is past its grace.
mem-seats_past_grace :
    (now grace : ℕ) (id : String) (presences : List SeatPresence)
    → mem id (seats_past_grace now grace presences) ≡ any_past now grace id presences
unfolding mem seats_past_grace filter any_past
mem-seats_past_grace now grace id [] = refl
mem-seats_past_grace now grace id (p ∷ presences) =
    elim (Bool-cases (is_within_grace now grace p)) [
      | inl e ↦ rw e (ground (arith, e, mem-seats_past_grace now grace id presences))
      | inr e ↦ rw e (ground (arith, e, mem-seats_past_grace now grace id presences))
    ]
