-- ===== src/Prelude/Ints.antt =====
-- Integers over the native numbers, and the decimal texts of `u64`.
use Prim.Native.Nat.{ℕ, zero, suc, ◌+◌, ◌-◌, ◌*◌, ◌/◌, ◌%◌}
use Prim.Native.String.{String, ◌++◌}
use mathlib.Core.Bool.{Bool, true, false, ◌||◌}
use mathlib.Core.Option.{Option, none, some}
use mathlib.Core.List.{List, [], ◌∷◌}
use coclai.Prelude.Tests.{ltb, eqb, if◌then◌else◌, u64_max}

pub data ℤ : Type 0 where
  pos : ℕ → ℤ
  negsuc : ℕ → ℤ

abbrev pub is_negative : ℤ → Bool
is_negative (pos n) = false
is_negative (negsuc n) = true

-- `i32::try_from(…).is_ok()`.
abbrev pub fits_i32 : ℤ → Bool
fits_i32 (pos n) = ltb n 2147483648
fits_i32 (negsuc n) = ltb n 2147483648

-- The digits of `str::parse::<u64>`, behind an accumulated number.
abbrev pub parse_digits : ℕ → List ℕ → Option ℕ
parse_digits n [] = some n
parse_digits n (c ∷ cs) =
    let rest = parse_digits (n * 10 + (c - 48)) cs in
    if ltb c 48 || ltb 57 c then none else if ltb u64_max (n * 10 + (c - 48)) then none else rest

abbrev pub parse_some_digits : List ℕ → Option ℕ
parse_some_digits [] = none
parse_some_digits (c ∷ cs) = parse_digits 0 (c ∷ cs)

-- `str::parse::<u64>` on the characters of a text: one sign `+` may stand in front.
abbrev pub parse_u64 : List ℕ → Option ℕ
parse_u64 [] = none
parse_u64 (c ∷ cs) = if eqb c 43 then parse_some_digits cs else parse_some_digits (c ∷ cs)

abbrev pub digit : ℕ → String
digit n =
    if eqb n 0
    then "0"
    else if eqb n 1
    then "1"
    else if eqb n 2
    then "2"
    else if eqb n 3
    then "3"
    else if eqb n 4
    then "4"
    else if eqb n 5
    then "5"
    else if eqb n 6
    then "6"
    else if eqb n 7
    then "7"
    else if eqb n 8
    then "8"
    else "9"

-- The last `places` digits of a number, without zeros in front.
abbrev pub decimal_places : ℕ → ℕ → String
decimal_places zero n = ""
decimal_places (suc places) n =
    let front = decimal_places places (n / 10) in
    if ltb n 10 then digit n else front ++ digit (n % 10)

-- `format!("{n}")` of a `u64`, which has at most 20 digits.
abbrev pub decimal : ℕ → String
decimal n = decimal_places 20 n
