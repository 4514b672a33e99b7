-- ===== src/Budget.antt =====
-- src/padrino/economics/budget_reservations.py: slots of a budget, claimed by several sessions at once.
-- The rows are those of one scope. Amounts of money are natural numbers of one small unit. The table
-- refuses a second row with one index, by its unique constraint.
pub mod Amounts
pub mod Free
pub mod Capacity
use padrino.Base.{
  ◌≡◌, ℕ, zero, suc, ◌+◌, ◌/◌, ◌%◌, Bool, true, false, ◌&&◌, ◌||◌, not, Option, none, some, List,
  [], ◌∷◌, ◌++◌, map, count_if, length, mem, nat_eq, ltb, leb, ◌=ℕ=◌, if◌then◌else◌,
}

pub record Slot : Type 0 where
  pub slot_index : ℕ
  -- `released_at IS NULL`
  pub is_live : Bool

-- What one call of `claim_budget_slot` is given.
pub record Terms : Type 0 where
  pub spent_usd : ℕ
  pub budget_usd : ℕ
  pub reserve_usd : ℕ

unfoldable pub budget_slot_count : (budget_usd reserve_usd : ℕ) → ℕ
budget_slot_count budget_usd reserve_usd =
    if budget_usd =ℕ= 0 || reserve_usd =ℕ= 0 then 0 else budget_usd / reserve_usd

-- `math.ceil(n / d)`, for a positive `d`.
abbrev ceil_div : ℕ → ℕ → ℕ
ceil_div n d = if n % d =ℕ= 0 then n / d else suc (n / d)

unfoldable pub implicit_budget_used : (spent_usd reserve_usd : ℕ) → ℕ
implicit_budget_used spent_usd reserve_usd =
    if spent_usd =ℕ= 0 || reserve_usd =ℕ= 0 then 0 else ceil_div spent_usd reserve_usd

-- `cap` of `claim_budget_slot`.
unfoldable pub cap_of : Terms → ℕ
unfolding budget_slot_count
cap_of terms = budget_slot_count terms.budget_usd terms.reserve_usd

-- `implicit_used` of `claim_budget_slot`, at most the cap.
unfoldable pub implicit_of : Terms → ℕ
unfolding implicit_budget_used cap_of
implicit_of terms =
    let implicit_used = implicit_budget_used terms.spent_usd terms.reserve_usd in
    if ltb (cap_of terms) implicit_used then cap_of terms else implicit_used

-- `everything` of `_slot_indices`.
abbrev pub all_indices : List Slot → List ℕ
all_indices rows = map (λ r. r.slot_index) rows

-- `len(live)` of `_slot_indices`.
abbrev pub live_count : List Slot → ℕ
live_count rows = count_if (λ r. r.is_live) rows

-- The loop of `_next_free_index`; one round more than there are taken indices is enough.
unfoldable pub free_from : ℕ → ℕ → ℕ → List ℕ → ℕ
unfolding mem
free_from zero index implicit_used physical = index
free_from (suc fuel) index implicit_used physical =
    let next = free_from fuel (suc index) implicit_used physical in
    if ltb index implicit_used || mem index physical then next else index

unfoldable pub next_free_index : ℕ → List ℕ → ℕ
unfolding free_from
next_free_index implicit_used physical =
    free_from (suc (implicit_used + length physical)) 0 implicit_used physical

-- What one round of the loop of `claim_budget_slot` ends in.
pub data Attempt : Type 0 where
  -- `return None`
  exhausted : Attempt
  -- `IntegrityError`, and the loop goes on
  conflict : Attempt
  -- the rows after the insertion
  inserted : List Slot → Attempt

-- The index that a round inserts, if the rows that it has read leave a slot.
unfoldable pub planned : Terms → List Slot → Option ℕ
unfolding next_free_index cap_of implicit_of
planned terms rows =
    if cap_of terms =ℕ= 0
    then none
    else if leb (cap_of terms) (implicit_of terms + live_count rows)
    then none
    else some (next_free_index (implicit_of terms) (all_indices rows))

-- The insertion of an index into the rows, which may have changed since they were read.
unfoldable pub insert_planned : Option ℕ → List Slot → Attempt
unfolding mem
insert_planned none rows = exhausted
insert_planned (some index) rows =
    if mem index (all_indices rows)
    then conflict
    else inserted (rows ++ record { slot_index = index; is_live = true } ∷ [])

unfoldable pub release_slot : ℕ → List Slot → List Slot
release_slot index rows =
    map (λ r. if r.slot_index =ℕ= index then record r { is_live = false } else r) rows

-- A claim under way: what its call was given, and the rows that its round has read.
pub record Claim : Type 0 where
  pub terms : Terms
  pub seen : List Slot

pub record Sessions : Type 0 where
  pub rows : List Slot
  pub claims : List Claim

-- One step of one session; claims read, insert and end in any order, and slots are released between.
-- A claim that ran into a conflict ends here and reads again as a new one, of the same terms.
pub data Step : Sessions → Sessions → Type 0 where
  read :
      {s : Sessions} (terms : Terms)
      → Step s (record s { claims = record { terms = terms; seen = s.rows } ∷ s.claims })
  insert :
      {s : Sessions} (before after : List Claim) (claim : Claim) (rows : List Slot)
      → s.claims ≡ before ++ claim ∷ after
      → insert_planned (planned claim.terms claim.seen) s.rows ≡ inserted rows
      → Step s (record { rows = rows; claims = before ++ after })
  give_up :
      {s : Sessions} (before after : List Claim) (claim : Claim)
      → s.claims ≡ before ++ claim ∷ after
      → Step s (record s { claims = before ++ after })
  release : {s : Sessions} (index : ℕ) → Step s (record s { rows = release_slot index s.rows })

pub data Steps : Sessions → Sessions → Type 0 where
  here : {s : Sessions} → Steps s s
  then_step : {s t u : Sessions} → Step s t → Steps t u → Steps s u

-- Every claim that starts in the step, and in the steps, has the given terms.
unfoldable pub IsReadAt : Terms → {s t : Sessions} → Step s t → Type 0
IsReadAt given (read terms) = terms ≡ given
IsReadAt given (insert before after claim rows at done) = Unit
IsReadAt given (give_up before after claim at) = Unit
IsReadAt given (release index) = Unit

unfoldable pub AreReadAt : Terms → {s t : Sessions} → Steps s t → Type 0
unfolding IsReadAt
AreReadAt given here = Unit
AreReadAt given (then_step first rest) = IsReadAt given first × AreReadAt given rest
