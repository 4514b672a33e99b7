-- ===== src/Cron/Fields.antt =====
-- The values that a cron field can hold.
use mathlib.Core.Path.{subst}
use padrino.Base.{
  ℕ, zero, suc, ◌+◌, ◌-◌, ◌≡◌, ◌≤◌, inl, inr, Bool, false, ◌||◌, List, [], ◌∷◌, range_from, String,
  All, All-append, All-filter, ltb, ◌==◌, string_eq, Bool-cases, Result, ok, err, first_step,
  ok-injective, arith,
}
use padrino.Cron.{
  CronField, CronError, stepped_range, step_of, ends_of, parse_chunk, parse_chunks, parse_field,
  split_on, partition, out_of_range, empty_component,
}

abbrev pub IsWithin : ℕ → ℕ → ℕ → Type 0
IsWithin lo hi v = (lo ≤ v) × (v ≤ hi)

range_from-IsWithin :
    (lo hi start n : ℕ)
    → lo ≤ start
    → start + n ≤ suc hi
    → All (IsWithin lo hi) (range_from start n)
unfolding range_from
range_from-IsWithin lo hi start zero h k = tt
range_from-IsWithin lo hi start (suc n) h k =
    ((h, omega arith), range_from-IsWithin lo hi (suc start) n (omega arith) (omega arith))

module _ (split_blanks : String → List String) (is_digit : String → Bool) (int : String → ℕ) where
  stepped_range-IsWithin :
      (lo hi start end step : ℕ)
      → (ltb start lo || ltb hi end || ltb end start) ≡ false
      → All (IsWithin lo hi) (stepped_range split_blanks is_digit int start end step)
  unfolding stepped_range
  stepped_range-IsWithin lo hi start end step h =
      All-filter (IsWithin lo hi) _ (range_from start (suc end - start))
        (range_from-IsWithin lo hi start (suc end - start) (ground (arith, h)) (ground (arith, h)))

  parse_chunk-IsWithin :
      (lo hi : ℕ) (chunk : String) (values : List ℕ)
      → parse_chunk split_blanks is_digit int lo hi chunk ≡ ok values
      → All (IsWithin lo hi) values
  unfolding parse_chunk
  parse_chunk-IsWithin lo hi chunk values h = elim (Bool-cases (chunk == "")) [
    | inl blank ↦
        let no : ◌≡◌ {A = Result CronError (List ℕ)} (err empty_component) (ok values) =
          rw blank at h in
        cc
    | inr written ↦
        let (body, stepped, step_s) = partition 47 chunk in
        let (step, stepping, h') =
          first_step _ (step_of split_blanks is_digit int chunk stepped step_s) values
            (rw written at h) in
        let (ends, found, h'') =
          first_step _ (ends_of split_blanks is_digit int lo hi body) values h' in
        elim (Bool-cases (ltb (ends.0) lo || ltb hi (ends.1) || ltb (ends.1) (ends.0))) [
          | inl outside ↦
              let no : ◌≡◌ {A = Result CronError (List ℕ)} (err (out_of_range chunk lo hi))
                  (ok values) =
                rw outside at h'' in
              cc
          | inr inside ↦
              subst (All (IsWithin lo hi)) (ok-injective (rw inside at h''))
                (stepped_range-IsWithin lo hi (ends.0) (ends.1) step inside)
        ]
  ]

  parse_chunks-IsWithin :
      (lo hi : ℕ) (chunks : List String) (values : List ℕ)
      → parse_chunks split_blanks is_digit int lo hi chunks ≡ ok values
      → All (IsWithin lo hi) values
  unfolding parse_chunks
  parse_chunks-IsWithin lo hi [] values h = subst (All (IsWithin lo hi)) (ok-injective h) tt
  parse_chunks-IsWithin lo hi (chunk ∷ chunks) values h =
      let (vs, parsed, h') =
        first_step _ (parse_chunk split_blanks is_digit int lo hi chunk) values h in
      let (ws, rest, h'') =
        first_step _ (parse_chunks split_blanks is_digit int lo hi chunks) values h' in
      subst (All (IsWithin lo hi)) (ok-injective h'') (
        All-append (IsWithin lo hi) vs ws (parse_chunk-IsWithin lo hi chunk vs parsed)
          (parse_chunks-IsWithin lo hi chunks ws rest))

  -- The values of a field that `parse_field` returns lie within the bounds of the field.
  pub parse_field-IsWithin :
      (spec : String) (lo hi : ℕ) (parsed : CronField)
      → parse_field split_blanks is_digit int spec lo hi ≡ ok parsed
      → All (IsWithin lo hi) parsed.values
  unfolding parse_field
  parse_field-IsWithin spec lo hi parsed h =
      let (values, found, h') =
        first_step _ (parse_chunks split_blanks is_digit int lo hi (split_on 44 spec)) parsed h in
      subst (λ f. All (IsWithin lo hi) f.values) (ok-injective h')
        (parse_chunks-IsWithin lo hi (split_on 44 spec) values found)
