-- ===== src/Budget/Capacity.antt =====
-- The capacity of a budget under claims and releases in any order.
use mathlib.Core.Path.{subst}
use padrino.Base.{
  ℕ, suc, ◌+◌, ◌-◌, ◌*◌, ◌≡◌, ◌≤◌, ◌<◌, ◌⊎◌, refl, sym, ap, ◌∙◌, inl, inr, true, false, ◌||◌, List,
  [], ◌∷◌, ◌++◌, count_if, All, mem, mem-append, nat_eq, ◌==◌, leb, ◌=ℕ=◌, Bool-cases, arith,
}
use padrino.Budget.Amounts.{live-le}
use padrino.Budget.{
  Slot, all_indices, live_count, next_free_index, planned, insert_planned, inserted, conflict,
  exhausted, release_slot, Terms, Claim, cap_of, implicit_of, Step, read, insert, Sessions, give_up,
  release, Steps, here, then_step, IsReadAt, AreReadAt,
}

-- The index that a claim would insert.
abbrev index_of : ℕ → List Slot → ℕ
index_of implicit seen = next_free_index implicit (all_indices seen)

-- A claim under way is stale, or nothing was inserted since it read the rows and no slot came to life.
abbrev IsCurrent : ℕ → List Slot → List Slot → Type 0
IsCurrent implicit rows seen =
    (mem (index_of implicit seen) (all_indices rows) ≡ true)
    ⊎ ((all_indices seen ≡ all_indices rows) × (live_count rows ≤ live_count seen))

all_indices-release :
    (index : ℕ) (rows : List Slot) → all_indices (release_slot index rows) ≡ all_indices rows
unfolding release_slot
all_indices-release index [] = refl
all_indices-release index (r ∷ rows) = elim (Bool-cases (r.slot_index =ℕ= index)) [
  | inl e ↦ rw e (ap (λ rest. r.slot_index ∷ rest) (all_indices-release index rows))
  | inr e ↦ rw e (ap (λ rest. r.slot_index ∷ rest) (all_indices-release index rows))
]

live_count-release :
    (index : ℕ) (rows : List Slot) → live_count (release_slot index rows) ≤ live_count rows
unfolding release_slot count_if
live_count-release index [] = omega arith
live_count-release index (r ∷ rows) = ground (arith, live_count-release index rows)

all_indices-snoc :
    (rows : List Slot) (r : Slot)
    → all_indices (rows ++ r ∷ []) ≡ all_indices rows ++ r.slot_index ∷ []
all_indices-snoc [] r = refl
all_indices-snoc (q ∷ rows) r = ap (λ rest. q.slot_index ∷ rest) (all_indices-snoc rows r)

live_count-snoc :
    (rows : List Slot) (r : Slot) → live_count (rows ++ r ∷ []) ≤ suc (live_count rows)
unfolding count_if
live_count-snoc [] r = ground arith
live_count-snoc (q ∷ rows) r = ground (arith, live_count-snoc rows r)

All-middle :
    (P : Claim → Type 0) (before : List Claim) (x : Claim) (after : List Claim)
    → All P (before ++ x ∷ after)
    → P x × All P (before ++ after)
All-middle P [] x after h = h
All-middle P (y ∷ before) x after h =
    let (found, rest) = All-middle P before x after h.1 in (found, (h.0, rest))

All-map :
    (P Q : Claim → Type 0) → ((x : Claim) → P x → Q x) → (xs : List Claim) → All P xs → All Q xs
All-map P Q f [] h = tt
All-map P Q f (x ∷ xs) h = (f x h.0, All-map P Q f xs h.1)

eq_refl : (n : ℕ) → n == n ≡ true
eq_refl n = ground arith

insert_planned-fresh :
    (terms : Terms) (seen rows rows' : List Slot)
    → insert_planned (planned terms seen) rows ≡ inserted rows'
    → (implicit_of terms + live_count seen < cap_of terms)
      × (mem (index_of (implicit_of terms) seen) (all_indices rows) ≡ false)
      × (rows'
          ≡ rows ++ record { slot_index = index_of (implicit_of terms) seen; is_live = true } ∷ [])
unfolding insert_planned planned
insert_planned-fresh terms seen rows rows' h = elim (Bool-cases (cap_of terms =ℕ= 0)) [
  | inl disabled ↦ let no : exhausted ≡ inserted rows' = rw disabled at h in cc
  | inr enabled ↦
      let h0 = rw enabled at h in
      elim (Bool-cases (leb (cap_of terms) (implicit_of terms + live_count seen))) [
        | inl full ↦ let no : exhausted ≡ inserted rows' = rw full at h0 in cc
        | inr room ↦
            let h1 = rw room at h0 in
            elim (Bool-cases (mem (index_of (implicit_of terms) seen) (all_indices rows))) [
              | inl taken ↦ let no : conflict ≡ inserted rows' = rw taken at h1 in cc
              | inr fresh ↦
                  let same : inserted (
                        rows
                        ++ record { slot_index = index_of (implicit_of terms) seen; is_live = true }
                          ∷ [])
                      ≡ inserted rows' =
                    rw fresh at h1 in
                  (ground (arith, room), fresh, cc)
            ]
      ]
]

-- Another claim after an insertion of the index that is free in the rows.
IsCurrent-insert :
    (implicit : ℕ) (rows : List Slot) (r : Slot) (x : List Slot)
    → r.slot_index ≡ index_of implicit rows
    → IsCurrent implicit rows x
    → IsCurrent implicit (rows ++ r ∷ []) x
unfolding mem
IsCurrent-insert implicit rows r x free (inl stale) = inl (
    ap (mem (index_of implicit x)) (all_indices-snoc rows r)
    ∙ mem-append (index_of implicit x) (all_indices rows) (r.slot_index ∷ [])
    ∙ ap (λ b. b || mem (index_of implicit x) (r.slot_index ∷ [])) stale)
IsCurrent-insert implicit rows r x free (inr (same, fewer)) =
    let at : index_of implicit x ≡ r.slot_index = ap (next_free_index implicit) same ∙ sym free in
    inl (
      ap (mem (index_of implicit x)) (all_indices-snoc rows r)
      ∙ mem-append (index_of implicit x) (all_indices rows) (r.slot_index ∷ [])
      ∙ ground (arith, at, eq_refl (r.slot_index)))

IsCurrent-release :
    (implicit index : ℕ) (rows x : List Slot)
    → IsCurrent implicit rows x
    → IsCurrent implicit (release_slot index rows) x
IsCurrent-release implicit index rows x (inl stale) =
    inl (ap (mem (index_of implicit x)) (all_indices-release index rows) ∙ stale)
IsCurrent-release implicit index rows x (inr (same, fewer)) =
    let released = live_count-release index rows in
    inr (same ∙ sym (all_indices-release index rows), omega (arith, released, fewer))

current_fresh :
    (implicit : ℕ) (rows seen : List Slot)
    → IsCurrent implicit rows seen
    → mem (index_of implicit seen) (all_indices rows) ≡ false
    → (all_indices seen ≡ all_indices rows) × (live_count rows ≤ live_count seen)
current_fresh implicit rows seen (inl stale) fresh = let no : true ≡ false = sym stale ∙ fresh in cc
current_fresh implicit rows seen (inr kept) fresh = kept

module _ (terms : Terms) where
  -- A claim of the given terms, current by its own reading.
  abbrev IsFit : List Slot → Claim → Type 0
  IsFit rows claim = (claim.terms ≡ terms) × IsCurrent (implicit_of terms) rows claim.seen

  abbrev IsSound : Sessions → Type 0
  IsSound s = (implicit_of terms + live_count s.rows ≤ cap_of terms) × All (IsFit s.rows) s.claims

  Step-IsSound : (s t : Sessions) (step : Step s t) → IsReadAt terms step → IsSound s → IsSound t
  unfolding IsReadAt
  Step-IsSound s t (read given) same (fits, fit) = (fits, ((same, inr (refl, omega arith)), fit))
  Step-IsSound s t (give_up before after claim at) same (fits, fit) =
      (fits, (All-middle (IsFit s.rows) before claim after (subst (All (IsFit s.rows)) at fit)).1)
  Step-IsSound s t (release index) same (fits, fit) =
      let released = live_count-release index s.rows in
      (
        omega (arith, released, fits),
        All-map (IsFit s.rows) (IsFit (release_slot index s.rows))
            (λ x h. (h.0, IsCurrent-release (implicit_of terms) index s.rows x.seen h.1)) s.claims
            fit,
      )
  Step-IsSound s t (insert before after claim rows at done) same (fits, fit) =
      let ((mine, current), others) =
        All-middle (IsFit s.rows) before claim after (subst (All (IsFit s.rows)) at fit) in
      let done' : insert_planned (planned terms claim.seen) s.rows ≡ inserted rows =
        ap (λ given. insert_planned (planned given claim.seen) s.rows) (sym mine) ∙ done in
      let (room, fresh, added) = insert_planned-fresh terms claim.seen s.rows rows done' in
      let r : Slot = record {
        slot_index = index_of (implicit_of terms) claim.seen;
        is_live = true;
      } in
      let (kept, fewer) = current_fresh (implicit_of terms) s.rows claim.seen current fresh in
      let counted = live_count-snoc s.rows r in
      let free : index_of (implicit_of terms) claim.seen ≡ index_of (implicit_of terms) s.rows =
        ap (next_free_index (implicit_of terms)) kept in
      subst
        (λ rows.
          (implicit_of terms + live_count rows ≤ cap_of terms) × All (IsFit rows) (before ++ after))
        (sym added)
        (
          omega (arith, room, fewer, counted),
          All-map (IsFit s.rows) (IsFit (s.rows ++ r ∷ []))
              (λ x h. (h.0, IsCurrent-insert (implicit_of terms) s.rows r x.seen free h.1))
              (before ++ after) others,
        )

  Steps-IsSound :
      (s t : Sessions) (steps : Steps s t) → AreReadAt terms steps → IsSound s → IsSound t
  unfolding AreReadAt
  Steps-IsSound s t here same sound = sound
  Steps-IsSound s t (then_step {t = u} first rest) (now, later) sound =
      Steps-IsSound u t rest later (Step-IsSound s u first now sound)

  -- While every claim is called with the same spend, budget and reserve: from rows whose live slots fit
  -- beside the implicit ones, and no claim under way, every interleaving of claims and releases keeps the
  -- live slots and the implicit ones within the cap, and the live slots together reserve no more than
  -- what is left of the budget after the spend, which is nothing where it is overspent.
  pub live_count-Steps :
      (rows : List Slot) (t : Sessions)
      → implicit_of terms + live_count rows ≤ cap_of terms
      → (steps : Steps (record { rows = rows; claims = [] }) t) → AreReadAt terms steps
      → (implicit_of terms + live_count t.rows ≤ cap_of terms)
        × (live_count t.rows * terms.reserve_usd ≤ terms.budget_usd - terms.spent_usd)
  live_count-Steps rows t fits steps same =
      let (kept, sound) =
        Steps-IsSound (record { rows = rows; claims = [] }) t steps same (fits, tt) in
      (kept, live-le terms (live_count t.rows) kept)
