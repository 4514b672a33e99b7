-- ===== src/Cron.antt =====
-- src/padrino/core/scheduling/__init__.py: cron expressions. `split_blanks`, `is_digit` and `int` are
-- `str.split()`, `str.isdigit` and `int` of texts. A moment is a number of whole minutes, and the
-- calendar reads its fields as `datetime` does.
pub mod Fields
pub mod Firings
use Prim.Native.Char.{Char, code}
use padrino.Base.{
  ℕ, zero, suc, ◌+◌, ◌-◌, ◌*◌, ◌%◌, Bool, true, false, ◌&&◌, ◌||◌, not, List, [], ◌∷◌, ◌++◌, map,
  filter, range_from, String, ◌==◌, string_eq, nat_eq, mem, ltb, ◌=ℕ=◌, if◌then◌else◌, Result, ok,
  err, ◌>>=◌,
}

-- The `ValueError`s.
pub data CronError : Type 0 where
  empty_component : CronError
  invalid_step : (chunk : String) → CronError
  non_numeric : (token : String) → CronError
  out_of_range : (chunk : String) (lo hi : ℕ) → CronError
  wrong_field_count : CronError
  no_firing : CronError

-- `_MAX_MINUTES_AHEAD`
abbrev pub max_minutes_ahead : ℕ
max_minutes_ahead = 9 * 366 * 24 * 60

pub record CronField : Type 0 where
  pub values : List ℕ
  pub wildcard : Bool

pub record CronSpec : Type 0 where
  pub minute : CronField
  pub hour : CronField
  pub dom : CronField
  pub month : CronField
  pub dow : CronField

-- `c` before the first part.
abbrev push : Char → List String → List String
push c [] = String.◌∷◌ c "" ∷ []
push c (part ∷ parts) = String.◌∷◌ c part ∷ parts

-- `s.split(sep)` for a separator of one character, by its code.
unfoldable pub split_on : ℕ → String → List String
split_on sep String.[] = "" ∷ []
split_on sep (String.◌∷◌ c s) =
    let rest = split_on sep s in if code c =ℕ= sep then "" ∷ rest else push c rest

-- `s.partition(sep)`: before, whether it is there, after.
unfoldable pub partition : ℕ → String → String × Bool × String
partition sep String.[] = ("", false, "")
partition sep (String.◌∷◌ c s) =
    let (before, found, after) = partition sep s in
    if code c =ℕ= sep then ("", true, s) else (String.◌∷◌ c before, found, after)

module _ (split_blanks : String → List String) (is_digit : String → Bool) (int : String → ℕ) where
  unfoldable pub as_int : String → Result CronError ℕ
  as_int token = if not (is_digit token) then err (non_numeric token) else ok (int token)

  unfoldable pub step_of : String → Bool → String → Result CronError ℕ
  step_of chunk stepped step_s =
      if stepped
      then (if not (is_digit step_s) || int step_s =ℕ= 0
          then err (invalid_step chunk)
          else ok (int step_s))
      else ok 1

  -- The first and the last value of a component.
  unfoldable pub ends_of : ℕ → ℕ → String → Result CronError (ℕ × ℕ)
  unfolding as_int partition
  ends_of lo hi body =
      let (start_s, dashed, end_s) = partition 45 body in
      if body == "*"
      then ok (lo, hi)
      else if dashed
      then (as_int start_s >>= λ start. as_int end_s >>= λ end. ok (start, end))
      else (as_int body >>= λ start. ok (start, start))

  -- `v for v in range(start, end + 1) if (v - start) % step == 0`
  unfoldable pub stepped_range : ℕ → ℕ → ℕ → List ℕ
  unfolding range_from
  stepped_range start end step =
      filter (λ v. (v - start) % step =ℕ= 0) (range_from start (suc end - start))

  unfoldable pub parse_chunk : ℕ → ℕ → String → Result CronError (List ℕ)
  unfolding partition step_of ends_of stepped_range
  parse_chunk lo hi chunk =
      let (body, stepped, step_s) = partition 47 chunk in
      if chunk == ""
      then err empty_component
      else (step_of chunk stepped step_s >>= λ step. ends_of lo hi body >>= λ ends.
          if ltb (ends.0) lo || ltb hi (ends.1) || ltb (ends.1) (ends.0)
          then err (out_of_range chunk lo hi)
          else ok (stepped_range (ends.0) (ends.1) step))

  -- The loop of `_parse_field`.
  unfoldable pub parse_chunks : ℕ → ℕ → List String → Result CronError (List ℕ)
  unfolding parse_chunk
  parse_chunks lo hi [] = ok []
  parse_chunks lo hi (chunk ∷ chunks) = parse_chunk lo hi chunk >>= λ values.
      parse_chunks lo hi chunks >>= λ rest. ok (values ++ rest)

  unfoldable pub parse_field : String → ℕ → ℕ → Result CronError CronField
  unfolding parse_chunks split_on
  parse_field spec lo hi = parse_chunks lo hi (split_on 44 spec) >>= λ values.
      ok (record { values = values; wildcard = spec == "*" })

  -- `frozenset(0 if v == 7 else v for v in dow_raw.values)`
  abbrev sunday_first : CronField → CronField
  sunday_first dow_raw = record dow_raw {
    values = map (λ v. if v =ℕ= 7 then 0 else v) dow_raw.values;
  }

  unfoldable pub parse_parts : List String → Result CronError CronSpec
  unfolding parse_field
  parse_parts (p0 ∷ p1 ∷ p2 ∷ p3 ∷ p4 ∷ []) = parse_field p0 0 59 >>= λ minute.
      parse_field p1 0 23 >>= λ hour. parse_field p2 1 31 >>= λ dom.
      parse_field p3 1 12 >>= λ month. parse_field p4 0 7 >>= λ dow_raw. ok (record {
        minute = minute;
        hour = hour;
        dom = dom;
        month = month;
        dow = sunday_first dow_raw;
      })
  parse_parts _ = err wrong_field_count

  unfoldable pub parse : String → Result CronError CronSpec
  unfolding parse_parts
  parse cron_expr = parse_parts (split_blanks cron_expr)

-- The fields of a moment that the code reads; `weekday` is 0 on Mondays.
pub record Calendar : Type 0 where
  pub minute : ℕ → ℕ
  pub hour : ℕ → ℕ
  pub day : ℕ → ℕ
  pub month : ℕ → ℕ
  pub weekday : ℕ → ℕ

module _ (calendar : Calendar) where
  unfoldable pub day_matches : CronSpec → ℕ → Bool
  unfolding mem
  day_matches spec moment =
      let cron_dow = (calendar.weekday moment + 1) % 7 in
      let dom_hit = mem (calendar.day moment) spec.dom.values in
      let dow_hit = mem cron_dow spec.dow.values in
      if not spec.dom.wildcard && not spec.dow.wildcard
      then dom_hit || dow_hit
      else if not spec.dom.wildcard
      then dom_hit
      else if not spec.dow.wildcard
      then dow_hit
      else true

  unfoldable pub matches : CronSpec → ℕ → Bool
  unfolding day_matches mem
  matches spec moment =
      mem (calendar.minute moment) spec.minute.values
      && (mem (calendar.hour moment) spec.hour.values
          && (mem (calendar.month moment) spec.month.values && day_matches spec moment))

  -- The loop of `next_run_at`, over as many candidates as are left.
  unfoldable pub search : ℕ → CronSpec → ℕ → Result CronError ℕ
  unfolding matches
  search zero spec candidate = err no_firing
  search (suc left) spec candidate =
      let later = search left spec (suc candidate) in
      if matches spec candidate then ok candidate else later

  -- What `next_run_at` does with the parsed expression, for any horizon.
  unfoldable pub run_within : ℕ → Result CronError CronSpec → ℕ → Result CronError ℕ
  run_within horizon parsed after = parsed >>= λ spec. search horizon spec (suc after)

  -- `after` is a moment with its seconds cut off.
  unfoldable pub next_run_at :
      (String → List String) → (String → Bool) → (String → ℕ) → String → ℕ → Result CronError ℕ
  next_run_at split_blanks is_digit int cron_expr after =
      run_within max_minutes_ahead (parse split_blanks is_digit int cron_expr) after
