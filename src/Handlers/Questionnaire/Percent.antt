-- ===== src/Handlers/Questionnaire/Percent.antt =====
-- The range of the compatibility (bot/handlers/questionnaire.py).
use native.Mathlib.Nat.{
  mod-lt, div-add-mod, le_of_mul-le-mul_left, mul-suc, mul-le-mul_left, mul-le-mul_right,
}
use telegram_bot_new_version.Handlers.Questionnaire.{Choice, Answer}
use telegram_bot_new_version.Handlers.Questionnaire.Score.{
  options_of, is_match, compared_count, identical_count, round_div, is_pair, question_ids,
  compatibility,
}
use telegram_bot_new_version.Prelude.{
  if◌then◌else◌, ℕ, ◌*◌, ◌≤◌, List, [], ◌∷◌, arith, ltb, Bool-cases, ◌/◌, ◌%◌, ◌≡◌, ap, inl, inr,
  ◌==◌, suc, false,
}

identical-compared :
    (answers : List Answer) (ids : List ℕ)
    → identical_count answers ids ≤ compared_count answers ids
unfolding identical_count compared_count
identical-compared answers [] = omega arith
identical-compared answers (id ∷ ids) =
    let rest = identical-compared answers ids in
    let one = options-agree (options_of id answers) in omega (arith, rest, one)
  where
    options-agree :
        (cs : List Choice) → (if is_match cs then 1 else 0) ≤ (if is_pair cs then 1 else 0)
    options-agree [] = omega arith
    options-agree (c ∷ []) = omega arith
    options-agree (c ∷ d ∷ []) = ground arith
    options-agree (c ∷ d ∷ e ∷ cs) = omega arith

-- A quotient is bounded where the dividend is.
floor-le : (n d k : ℕ) → 1 ≤ d → n ≤ d * k → n / d ≤ k
floor-le n d k pos h =
    let whole = div-add-mod n d in
    let below : d * (n / d) ≤ d * k = omega (arith, whole, h) in le_of_mul-le-mul_left below pos

-- Where the quotient is as large as it may be, nothing is left over.
floor-full : (n d k : ℕ) → n ≤ d * k → n / d ≡ k → n % d ≡ 0
floor-full n d k h e =
    let whole = div-add-mod n d in
    let same : d * (n / d) ≡ d * k = ap (λ m. d * m) e in omega (arith, whole, h, same)

round-le : (n d k : ℕ) → 1 ≤ d → n ≤ d * k → round_div n d ≤ k
unfolding round_div
round-le n d k pos h = elim (Bool-cases (ltb (n / d) k)) [
  | inl less ↦ ground arith
  | inr most ↦
      let full : n / d ≡ k = ground (arith, floor-le n d k pos h) in
      let rest = floor-full n d k h full in ground (arith, rest, full)
]

exact-full : (n d k : ℕ) → 1 ≤ d → n ≡ d * k → n / d ≡ k
exact-full n d k pos h = elim (Bool-cases (ltb (n / d) k)) [
  | inl less ↦
      let whole = div-add-mod n d in
      let small = mod-lt n pos in
      let below : suc (n / d) ≤ k = ground arith in
      let far : d * suc (n / d) ≤ d * k = mul-le-mul_left d below in
      absurd (omega (arith, whole, small, h, far, mul-suc d (n / d)))
  | inr most ↦ ground (arith, floor-le n d k pos (omega (arith, h)))
]

round-exact : (n d k : ℕ) → 1 ≤ d → n ≡ d * k → round_div n d ≡ k
unfolding round_div
round-exact n d k pos h =
    let full = exact-full n d k pos h in
    let rest = floor-full n d k (omega (arith, h)) full in ground (arith, rest, full)

-- The compatibility is a percentage, and no more questions agree than can be compared.
pub compatibility_bounds :
    (answers : List Answer)
    → let ids = question_ids answers in
      (compatibility answers ≤ 100) × (identical_count answers ids ≤ compared_count answers ids)
unfolding compatibility
compatibility_bounds answers =
    let ids = question_ids answers in
    let c = compared_count answers ids in
    let less = identical-compared answers ids in
    (
      elim (Bool-cases (c == 0)) [
        | inl nothing ↦ rw nothing (omega arith)
        | inr some_compared ↦ rw some_compared (
            round-le (identical_count answers ids * 100) c 100 (ground arith)
              (mul-le-mul_right 100 less))
      ],
      less,
    )

-- Where some questions can be compared and all of these agree, it is 100.
pub compatibility-full :
    (answers : List Answer)
    → 1 ≤ compared_count answers (question_ids answers)
    → identical_count answers (question_ids answers) ≡ compared_count answers (question_ids answers)
    → compatibility answers ≡ 100
unfolding compatibility
compatibility-full answers h e =
    rw (nonzero (compared_count answers (question_ids answers)) h)
      (round-exact _ _ 100 h (ap (λ m. m * 100) e))
  where
    nonzero : (c : ℕ) → 1 ≤ c → (c == 0) ≡ false
    nonzero c h = ground arith
