-- ===== src/Examples/Schedules.antt =====
-- A half-hourly schedule and a field with steps, under stand-ins for the calendar and for `int`.
use native.Mathlib.Decide.{ℕ_discrete}
use padrino.Base.{
  ℕ, suc, ◌/◌, ◌%◌, ◌≡◌, refl, ok, true, false, List, [], ◌∷◌, All, mem, filter, range_from, String,
  String-discrete, ◌==◌, string_eq, Bool, ◌||◌, if◌then◌else◌, arith,
}
use padrino.Cron.{Calendar, CronField, CronSpec, parse, parse_field, matches, next_run_at}
use padrino.Cron.Fields.{IsWithin, parse_field-IsWithin}
use padrino.Cron.Firings.{IsFirst, next_run_at-IsFirst}

-- Hours and minutes of the day; every day is the first of the first month, a Monday.
abbrev same_day : Calendar
same_day = record {
  minute = λ m. m % 60;
  hour = λ m. (m / 60) % 24;
  day = λ m. 1;
  month = λ m. 1;
  weekday = λ m. 0;
}

abbrev half_past : String → List String
half_past text = "30" ∷ "*" ∷ "*" ∷ "*" ∷ "*" ∷ []

abbrev is_number : String → Bool
is_number token = token == "30" || token == "5" || token == "20"

abbrev value : String → ℕ
value token = if token == "30" then 30 else if token == "5" then 5 else 20

abbrev every : ℕ → ℕ → CronField
every lo n = record { values = range_from lo n; wildcard = true }

abbrev at_half : CronSpec
at_half = record {
  minute = record { values = 30 ∷ []; wildcard = false };
  hour = every 0 24;
  dom = every 1 31;
  month = every 1 12;
  dow = record { values = 0 ∷ 1 ∷ 2 ∷ 3 ∷ 4 ∷ 5 ∷ 6 ∷ 0 ∷ []; wildcard = true };
}

parsed_half : parse half_past is_number value "30 * * * *" ≡ ok at_half
unfolding parse String-discrete filter range_from
parsed_half = refl

half_past_one : matches same_day at_half 90 ≡ true
unfolding matches mem range_from ℕ_discrete
half_past_one = refl

next_run_at-IsFirst_example :
    (first : ℕ) × (next_run_at same_day half_past is_number value "30 * * * *" 40 ≡ ok first)
    × IsFirst same_day at_half (suc 40) first
next_run_at-IsFirst_example =
    next_run_at-IsFirst same_day half_past is_number value "30 * * * *" 40 90 at_half parsed_half
      half_past_one (omega arith) (omega arith)

abbrev by_fives : CronField
by_fives = record { values = 5 ∷ 10 ∷ 15 ∷ 20 ∷ 30 ∷ []; wildcard = false }

parsed_fives : parse_field half_past is_number value "5-20/5,30" 0 59 ≡ ok by_fives
unfolding parse_field String-discrete filter range_from
parsed_fives = refl

parse_field-IsWithin_example : All (IsWithin 0 59) by_fives.values
parse_field-IsWithin_example =
    parse_field-IsWithin half_past is_number value "5-20/5,30" 0 59 by_fives parsed_fives
