-- ===== src/Examples/Claims.antt =====
-- Two sessions read the same rows of a budget of two slots, and the first of them inserts; and two
-- sessions with a charge between their calls.
use native.Mathlib.Decide.{ℕ_discrete}
use padrino.Base.{◌≡◌, ℕ, ◌-◌, ◌*◌, ◌+◌, ◌≤◌, refl, true, List, [], ◌∷◌, mem, count_if, arith}
use padrino.Budget.{
  Slot, live_count, Sessions, read, insert, Steps, here, then_step, insert_planned, planned,
  next_free_index, Terms, inserted, implicit_of, cap_of, implicit_budget_used, budget_slot_count,
  AreReadAt, IsReadAt,
}
use padrino.Budget.Capacity.{live_count-Steps}

abbrev slot : ℕ → Slot
slot n = record { slot_index = n; is_live = true }

abbrev one_row : List Slot
one_row = slot 0 ∷ []

abbrev two_rows : List Slot
two_rows = slot 0 ∷ slot 1 ∷ []

-- Ten units, of which each slot reserves four, with nothing spent.
abbrev unspent : Terms
unspent = record { spent_usd = 0; budget_usd = 10; reserve_usd = 4 }

abbrev one_left : Sessions
one_left = record { rows = two_rows; claims = record { terms = unspent; seen = one_row } ∷ [] }

fits : implicit_of unspent + live_count one_row ≤ cap_of unspent
unfolding count_if implicit_of cap_of implicit_budget_used budget_slot_count
fits = omega arith

inserts : insert_planned (planned unspent one_row) one_row ≡ inserted two_rows
unfolding insert_planned planned next_free_index mem count_if implicit_of cap_of
    implicit_budget_used budget_slot_count ℕ_discrete
inserts = refl

abbrev two_claims : Steps (record { rows = one_row; claims = [] }) one_left
two_claims = then_step (read unspent) (
    then_step (read unspent) (
      then_step
        (insert [] (record { terms = unspent; seen = one_row } ∷ [])
          (record { terms = unspent; seen = one_row }) two_rows refl inserts)
        here))

live_count-Steps_example :
    (implicit_of unspent + live_count one_left.rows ≤ cap_of unspent)
    × (live_count one_left.rows * 4 ≤ 10 - 0)
unfolding AreReadAt IsReadAt
live_count-Steps_example =
    live_count-Steps unspent one_row one_left fits two_claims (refl, (refl, (tt, tt)))

-- Eight units, of which each slot reserves four, with nothing spent, and with four spent.
abbrev before_charge : Terms
before_charge = record { spent_usd = 0; budget_usd = 8; reserve_usd = 4 }

abbrev after_charge : Terms
after_charge = record { spent_usd = 4; budget_usd = 8; reserve_usd = 4 }

-- Two claims of no rows, of which one is called before a charge and one after it: both insert, and the
-- two live slots and the implicit one are more than the two of the budget.
charged_between :
    (insert_planned (planned before_charge []) [] ≡ inserted one_row)
    × (insert_planned (planned after_charge []) one_row ≡ inserted two_rows)
    × (implicit_of after_charge + live_count two_rows ≡ 3)
    × (cap_of after_charge ≡ 2)
unfolding insert_planned planned next_free_index mem count_if implicit_of cap_of
    implicit_budget_used budget_slot_count ℕ_discrete
charged_between = (refl, refl, refl, refl)
