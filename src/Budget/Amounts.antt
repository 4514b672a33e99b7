-- ===== src/Budget/Amounts.antt =====
-- What slots are worth in money.
use native.Mathlib.Nat.{
  mul-zero, add-mul, mul-le-mul_right, mul-div-le, div-add-mod, mod-lt, mul_comm,
}
use padrino.Base.{
  ℕ, ◌+◌, ◌-◌, ◌*◌, ◌/◌, ◌%◌, ◌≡◌, ◌≤◌, ◌<◌, ap, inl, inr, ◌∙◌, ◌||◌, nat_eq, ltb, ◌=ℕ=◌,
  Bool-cases, arith,
}
use padrino.Budget.{Terms, budget_slot_count, implicit_budget_used, cap_of, implicit_of}

-- The slots of a budget are worth no more than it.
budget_slot_count-le :
    (budget_usd reserve_usd : ℕ)
    → budget_slot_count budget_usd reserve_usd * reserve_usd ≤ budget_usd
unfolding budget_slot_count
budget_slot_count-le budget_usd reserve_usd =
    elim (Bool-cases (budget_usd =ℕ= 0 || reserve_usd =ℕ= 0)) [
      | inl off ↦ rw off (omega arith)
      | inr on ↦ rw on (
          let whole = mul-div-le budget_usd reserve_usd in
          let turned = mul_comm reserve_usd (budget_usd / reserve_usd) in
          omega (arith, whole, turned))
    ]

-- The implicit slots are worth at least what is spent.
implicit_budget_used-ge :
    (spent_usd reserve_usd : ℕ)
    → 0 < reserve_usd
    → spent_usd ≤ implicit_budget_used spent_usd reserve_usd * reserve_usd
unfolding implicit_budget_used
implicit_budget_used-ge spent_usd reserve_usd positive =
    elim (Bool-cases (spent_usd =ℕ= 0 || reserve_usd =ℕ= 0)) [
      | inl off ↦ rw off (ground (arith, off, positive))
      | inr on ↦
          let whole = div-add-mod spent_usd reserve_usd in
          let turned = mul_comm reserve_usd (spent_usd / reserve_usd) in
          let part = mod-lt spent_usd positive in
          let next = add-mul 1 (spent_usd / reserve_usd) reserve_usd in
          elim (Bool-cases (spent_usd % reserve_usd =ℕ= 0)) [
            | inl even ↦ rw on (rw even (ground (arith, even, whole, turned)))
            | inr odd ↦ rw on (rw odd (omega (arith, whole, turned, part, next)))
          ]
    ]

-- Live slots that fit beside the implicit ones are worth no more than what the budget has left.
pub live-le :
    (terms : Terms) (live : ℕ)
    → implicit_of terms + live ≤ cap_of terms
    → live * terms.reserve_usd ≤ terms.budget_usd - terms.spent_usd
unfolding implicit_of cap_of
live-le terms live fits = elim (Bool-cases (terms.reserve_usd =ℕ= 0)) [
  | inl none_reserved ↦
      let zero_reserve : terms.reserve_usd ≡ 0 = ground (arith, none_reserved) in
      let nothing = ap (λ r. live * r) zero_reserve ∙ mul-zero live in omega (arith, nothing)
  | inr reserved ↦
      let positive : 0 < terms.reserve_usd = ground (arith, reserved) in
      let worth : cap_of terms * terms.reserve_usd ≤ terms.budget_usd =
        budget_slot_count-le terms.budget_usd terms.reserve_usd in
      let used = implicit_budget_used-ge terms.spent_usd terms.reserve_usd positive in
      elim (Bool-cases
        (ltb (cap_of terms) (implicit_budget_used terms.spent_usd terms.reserve_usd))) [
          | inl over ↦
              let fits' : cap_of terms + live ≤ cap_of terms = rw over at fits in
              let no_live : live ≤ 0 = omega (arith, fits') in
              let nothing = mul-le-mul_right terms.reserve_usd no_live in omega (arith, nothing)
          | inr within ↦
              let implicit_used = implicit_budget_used terms.spent_usd terms.reserve_usd in
              let fits' : implicit_used + live ≤ cap_of terms = rw within at fits in
              let all = mul-le-mul_right terms.reserve_usd fits' in
              let parts = add-mul implicit_used live terms.reserve_usd in
              omega (arith, all, parts, worth, used)
        ]
]
