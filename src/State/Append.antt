-- ===== src/State/Append.antt =====
-- The capped accumulators: `append_capped` of crates/codex-runtime/src/runtime/state.rs. A Rust
-- string is its UTF-8 bytes; `is_char_boundary` is the test of the standard library, a byte that
-- is no continuation byte, or either end.
use native.Mathlib.Decide.{dec_lt}
use coclai.Prelude.{
  ℕ, zero, suc, ◌-◌, ◌+◌, ◌≡◌, ◌≤◌, refl, Bool, true, false, ◌||◌, List, [], ◌∷◌, ◌++◌, length,
  take, ltb, leb, if◌then◌else◌, arith, length-append, length-take, Bool-cases, inl, inr, ap,
}

-- The byte begins a character: `b < 128 || b >= 192`.
abbrev pub is_char_start : ℕ → Bool
is_char_start b = ltb b 128 || leb 192 b

-- `str::is_char_boundary`.
abbrev pub is_char_boundary : List ℕ → ℕ → Bool
is_char_boundary bytes zero = true
is_char_boundary [] (suc i) = false
is_char_boundary (b ∷ []) (suc zero) = true
is_char_boundary (b ∷ c ∷ rest) (suc zero) = is_char_start c
is_char_boundary (b ∷ rest) (suc (suc i)) = is_char_boundary rest (suc i)

-- `while cut > 0 && !delta.is_char_boundary(cut) { cut -= 1; }`.
unfoldable pub cut_back : List ℕ → ℕ → ℕ
cut_back delta zero = 0
cut_back delta (suc n) = if is_char_boundary delta (suc n) then suc n else cut_back delta n

-- The accumulator and its flag after the call.
unfoldable pub append_capped : List ℕ → List ℕ → ℕ → Bool → List ℕ × Bool
append_capped out [] max_bytes truncated = (out, truncated)
append_capped out (b ∷ bs) max_bytes truncated =
    let delta = b ∷ bs in
    let remain = max_bytes - length out in
    if leb max_bytes (length out)
    then (out, true)
    else if leb (length delta) remain
    then (out ++ delta, truncated)
    else (out ++ take (cut_back delta remain) delta, true)

cut_back-le : (delta : List ℕ) (n : ℕ) → cut_back delta n ≤ n
unfolding cut_back
cut_back-le delta zero = omega arith
cut_back-le delta (suc n) = ground (arith, cut_back-le delta n)

-- An accumulator within its cap stays within it.
pub append_capped-le :
    (out delta : List ℕ) (max_bytes : ℕ) (truncated : Bool)
    → length out ≤ max_bytes
    → length (append_capped out delta max_bytes truncated).0 ≤ max_bytes
unfolding append_capped
append_capped-le out [] max_bytes truncated h = h
append_capped-le out (b ∷ bs) max_bytes truncated h = ground (
  arith,
  length-append out (b ∷ bs),
  length-append out (take (cut_back (b ∷ bs) (max_bytes - length out)) (b ∷ bs)),
  length-take (cut_back (b ∷ bs) (max_bytes - length out)) (b ∷ bs),
  cut_back-le (b ∷ bs) (max_bytes - length out),
)

is_char_boundary-zero : (delta : List ℕ) → is_char_boundary delta 0 ≡ true
is_char_boundary-zero [] = refl
is_char_boundary-zero (b ∷ bs) = refl

is_char_boundary-length : (delta : List ℕ) → is_char_boundary delta (length delta) ≡ true
is_char_boundary-length [] = refl
is_char_boundary-length (b ∷ []) = refl
is_char_boundary-length (b ∷ c ∷ rest) = is_char_boundary-length (c ∷ rest)

or_false : (b : Bool) → (b || false) ≡ b
or_false true = refl
or_false false = refl

or_true : (b : Bool) → (b || true) ≡ true
or_true true = refl
or_true false = refl

append_nil : (xs : List ℕ) → xs ++ [] ≡ xs
append_nil [] = refl
append_nil (x ∷ xs) = ap (◌∷◌ x) (append_nil xs)

take-length : (xs : List ℕ) → take (length xs) xs ≡ xs
take-length [] = refl
take-length (x ∷ xs) = ap (◌∷◌ x) (take-length xs)

cut_back-boundary : (delta : List ℕ) (n : ℕ) → is_char_boundary delta (cut_back delta n) ≡ true
unfolding cut_back
cut_back-boundary delta zero = is_char_boundary-zero delta
cut_back-boundary delta (suc n) = elim (Bool-cases (is_char_boundary delta (suc n))) [
  | inl e ↦ rw e e
  | inr e ↦ rw e (cut_back-boundary delta n)
]

cut_back_greatest :
    (delta : List ℕ) (m n : ℕ) → m ≤ n → is_char_boundary delta m ≡ true → m ≤ cut_back delta n
unfolding cut_back
cut_back_greatest delta m zero h b = h
cut_back_greatest delta m (suc n) h b = elim (Bool-cases (is_char_boundary delta (suc n))) [
  | inl e ↦ rw e h
  | inr e ↦ rw e (elim (dec_lt m (suc n)) [
    | yes less ↦ cut_back_greatest delta m n (omega arith) b
    | no over ↦
        let same : m ≡ suc n = omega arith in absurd (cc (ap (is_char_boundary delta) same, e, b))
  ])
]

-- For an accumulator within its cap, what is appended is a start of the delta that keeps it within
-- the cap and ends between two characters, the longest such start (`m` is any other such length),
-- and the flag is set exactly where something is cut off, or was set before.
pub append_capped-longest :
    (out delta : List ℕ) (max_bytes m : ℕ) (truncated : Bool)
    → length out ≤ max_bytes
    → length out + m ≤ max_bytes
    → m ≤ length delta
    → is_char_boundary delta m ≡ true
    → (n : ℕ) × (append_capped out delta max_bytes truncated
        ≡ (out ++ take n delta, truncated || ltb n (length delta)))
      × (length out + n ≤ max_bytes)
      × (n ≤ length delta)
      × (is_char_boundary delta n ≡ true)
      × (m ≤ n)
unfolding append_capped
append_capped-longest out [] max_bytes m truncated h f l b =
    (0, rw (append_nil out, or_false truncated) refl, omega (arith, h), omega arith, refl, l)
append_capped-longest out (c ∷ cs) max_bytes m truncated h f l b =
    let delta : List ℕ = c ∷ cs in
    let remain : ℕ = max_bytes - length out in
    elim (Bool-cases (leb max_bytes (length out))) [
      | inl full ↦
          let some_cut : ltb 0 (length delta) ≡ true = ground arith in
          (
            0,
            rw (full, append_nil out, some_cut, or_true truncated) refl,
            omega (arith, h),
            omega arith,
            is_char_boundary-zero delta,
            ground arith,
          )
      | inr room ↦ elim (Bool-cases (leb (length delta) remain)) [
        | inl fits ↦
            let uncut : ltb (length delta) (length delta) ≡ false = ground arith in
            (
              length delta,
              rw (room, fits, take-length delta, uncut, or_false truncated) refl,
              ground arith,
              omega arith,
              is_char_boundary-length delta,
              l,
            )
        | inr cut ↦
            let less : cut_back delta remain ≤ remain = cut_back-le delta remain in
            let some_cut : ltb (cut_back delta remain) (length delta) ≡ true = ground arith in
            (
              cut_back delta remain,
              rw (room, cut, some_cut, or_true truncated) refl,
              omega (arith, less, h),
              ground (arith, less),
              cut_back-boundary delta remain,
              cut_back_greatest delta m remain (omega (arith, f)) b,
            )
      ]
    ]
