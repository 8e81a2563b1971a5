-- ===== src/Automation/Ticks.antt =====
-- What `collapse_next_due` computes: the first tick of the schedule that is still to come.
use native.Mathlib.Nat.{
  add-mul, mul_assoc, mul_comm, mul-le-mul_right, lt-div-mul-add, div-lt_iff_lt-mul,
}
use coclai.Prelude.{
  ℕ, ◌+◌, ◌-◌, ◌*◌, ◌/◌, ◌%◌, ◌≤◌, ◌<◌, ◌≡◌, sym, ap, subst, ◌∙◌, min, some, ltb, ◌>>=◌, arith,
  Option-cases, Bool-cases, inl, inr, ◌⊎◌,
}
use coclai.Automation.Schedule.{
  nanos_per_sec, u128_max, u64_bound, checked_u128, checked_mul_duration, collapse_next_due,
  carry_over,
}

carry_over-some :
    (secs nanos r : ℕ)
    → carry_over secs nanos ≡ some r
    → (r ≡ secs * nanos_per_sec + nanos) × (r < u64_bound * nanos_per_sec)
unfolding carry_over
carry_over-some secs nanos r h = ground arith

-- Where the product of a duration and a factor is given, it is the product, and it is a duration.
checked_mul_duration-some :
    (delta factor scaled : ℕ)
    → checked_mul_duration delta factor ≡ some scaled
    → (scaled ≡ delta * factor) × (scaled < u64_bound * nanos_per_sec)
unfolding checked_mul_duration
checked_mul_duration-some delta factor scaled h =
    let a : ℕ = delta / nanos_per_sec * factor in
    let b : ℕ = delta % nanos_per_sec * factor in
    let parts : delta / nanos_per_sec * nanos_per_sec + delta % nanos_per_sec ≡ delta =
      omega arith in
    let turned : delta / nanos_per_sec * nanos_per_sec * factor ≡ a * nanos_per_sec =
      mul_assoc (delta / nanos_per_sec) nanos_per_sec factor
      ∙ ap (λ x. delta / nanos_per_sec * x) (mul_comm nanos_per_sec factor)
      ∙ sym (mul_assoc (delta / nanos_per_sec) factor nanos_per_sec) in
    let split : delta * factor ≡ a * nanos_per_sec + b =
      ap (λ d. d * factor) (sym parts)
      ∙ add-mul (delta / nanos_per_sec * nanos_per_sec) (delta % nanos_per_sec) factor
      ∙ ap (λ x. x + b) turned in
    let (eq, small) = whole a b h in (eq ∙ sym split, small)
  where
    whole :
        (a b : ℕ)
        → (checked_u128 a >>= λ secs. checked_u128 b >>= λ nanos. carry_over secs nanos)
          ≡ some scaled
        → (scaled ≡ a * nanos_per_sec + b) × (scaled < u64_bound * nanos_per_sec)
    whole a b g = ground (arith, carry_over-some a b scaled)

le_mul : (j n : ℕ) → 0 < j → n ≤ j * n
le_mul j n h = subst (λ x. x ≤ j * n) (omega arith) (mul-le-mul_right {m = 1} {n = j} n h)

-- The multiple of `every` in `collapse_next_due` is the first one past `gap`.
first_multiple :
    (gap every j : ℕ)
    → 0 < every
    → gap < every * j
    → (gap < every * (gap / every + 1)) × (every * (gap / every + 1) ≤ every * j)
first_multiple gap every j pos h =
    let split : (gap / every + 1) * every ≡ gap / every * every + every =
      add-mul (gap / every) 1 every ∙ omega arith in
    let fewer : gap / every < j =
      (div-lt_iff_lt-mul {k = every} {x = gap} {y = j} pos).1 (rw (mul_comm j every) h) in
    (
      rw (mul_comm every (gap / every + 1), split) (lt-div-mul-add pos),
      rw (mul_comm every (gap / every + 1), mul_comm every j)
          (mul-le-mul_right every (omega arith)),
    )

-- The multiple that is used when the next tick has been missed.
abbrev steps : ℕ → ℕ → ℕ → ℕ
steps last_due_at every now = min ((now - last_due_at) / every + 1) u128_max

collapse_next_due-cases :
    (last_time last_due_at every now due : ℕ)
    → 0 < every
    → collapse_next_due last_time last_due_at every now ≡ some due
    → ((now < due) × (due ≡ last_due_at + every))
      ⊎ ((scaled : ℕ) × (last_due_at + every ≤ now)
          × (due ≡ last_due_at + scaled)
          × (checked_mul_duration every (steps last_due_at every now) ≡ some scaled))
unfolding collapse_next_due
collapse_next_due-cases last_time last_due_at every now due pos h =
    elim (Bool-cases (ltb now (last_due_at + every))) [
      | inl soon ↦ inl (ground arith)
      | inr late ↦ elim (Option-cases (checked_mul_duration every (steps last_due_at every now))) [
        | inl e ↦ absurd (ground arith)
        | inr (scaled, e) ↦ inr (scaled, ground arith, ground arith, e)
      ]
    ]

-- The next due time, where there is one, is a tick of the schedule (`every` times some number after
-- the last due time), it is still to come, and it is no later than any tick that is still to come:
-- all missed ticks are collapsed into one run.
pub collapse_next_due-first :
    (last_time last_due_at every now due j : ℕ)
    → 0 < every
    → 0 < j
    → now < last_due_at + every * j
    → collapse_next_due last_time last_due_at every now ≡ some due
    → (now < due) × ((k : ℕ) × (due ≡ last_due_at + every * k)) × (due ≤ last_due_at + every * j)
collapse_next_due-first last_time last_due_at every now due j pos some_tick ahead h =
    let one_tick : every ≤ every * j = rw (mul_comm every j) (le_mul j every some_tick) in
    elim (collapse_next_due-cases last_time last_due_at every now due pos h) [
      | inl (soon, e) ↦ (soon, (1, omega (arith, e)), omega (arith, e, one_tick))
      | inr (scaled, late, e, product) ↦
          let m : ℕ = steps last_due_at every now in
          let gap : ℕ = now - last_due_at in
          let (whole, small) = checked_mul_duration-some every m scaled product in
          let fewer : m ≤ every * m = le_mul every m pos in
          let exact : m ≡ gap / every + 1 = omega (arith, whole, small, fewer) in
          let (past, least) = first_multiple gap every j pos (omega (arith, ahead, late)) in
          let amount : scaled ≡ every * (gap / every + 1) = whole ∙ ap (λ x. every * x) exact in
          (
            omega (arith, e, amount, past, late),
            (m, e ∙ ap (λ x. last_due_at + x) whole),
            omega (arith, e, amount, least),
          )
    ]
