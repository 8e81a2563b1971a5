-- ===== src/Prelude/Texts.antt =====
-- UTF-8: a text as the bytes that Rust stores.
use Prim.Native.Nat.{ℕ, ◌+◌, ◌/◌, ◌%◌}
use Prim.Native.Char.{code}
use Prim.Native.String.{String}
use mathlib.Core.List.{List, [], ◌∷◌, ◌++◌, reverse}
use mathlib.Core.Bool.{Bool, true, false, not, ◌&&◌, ◌||◌}
use coclai.Prelude.Tests.{ltb, leb, eqb, if◌then◌else◌}

-- The code points of a text.
abbrev pub codes : String → List ℕ
codes String.[] = []
codes (String.◌∷◌ c s) = code c ∷ codes s

-- The bytes of one code point.
abbrev pub encode_char : ℕ → List ℕ
encode_char c =
    if ltb c 0x80
    then c ∷ []
    else if ltb c 0x800
    then (0xc0 + c / 64) ∷ (0x80 + c % 64) ∷ []
    else if ltb c 0x10000
    then (0xe0 + c / 4096) ∷ (0x80 + c / 64 % 64) ∷ (0x80 + c % 64) ∷ []
    else (0xf0 + c / 262144) ∷ (0x80 + c / 4096 % 64) ∷ (0x80 + c / 64 % 64) ∷ (0x80 + c % 64) ∷ []

abbrev pub encode : List ℕ → List ℕ
encode [] = []
encode (c ∷ cs) = encode_char c ++ encode cs

abbrev pub utf8 : String → List ℕ
utf8 s = encode (codes s)

-- `char::is_whitespace`: the code points with the property White_Space.
abbrev pub is_whitespace : ℕ → Bool
is_whitespace c =
    (leb 0x9 c && leb c 0xd)
    || eqb c 0x20
    || eqb c 0x85
    || eqb c 0xa0
    || eqb c 0x1680
    || (leb 0x2000 c && leb c 0x200a)
    || eqb c 0x2028
    || eqb c 0x2029
    || eqb c 0x202f
    || eqb c 0x205f
    || eqb c 0x3000

-- The text has only whitespace: `trim().is_empty()`.
abbrev pub is_blank_codes : List ℕ → Bool
is_blank_codes [] = true
is_blank_codes (c ∷ cs) = is_whitespace c && is_blank_codes cs

abbrev pub is_blank : String → Bool
is_blank s = is_blank_codes (codes s)

-- The last code point is whitespace.
abbrev pub ends_blank : List ℕ → Bool
ends_blank [] = false
ends_blank (c ∷ []) = is_whitespace c
ends_blank (c ∷ d ∷ cs) = ends_blank (d ∷ cs)

abbrev pub starts_blank : List ℕ → Bool
starts_blank [] = false
starts_blank (c ∷ cs) = is_whitespace c

-- `s == s.trim()`: no whitespace at either end.
abbrev pub is_trimmed : String → Bool
is_trimmed s = not (starts_blank (codes s)) && not (ends_blank (codes s))

-- `str::trim`, on the characters of a text.
abbrev pub drop_blank : List ℕ → List ℕ
drop_blank [] = []
drop_blank (c ∷ cs) = let rest = drop_blank cs in if is_whitespace c then rest else c ∷ cs

abbrev pub trim : List ℕ → List ℕ
trim cs = reverse (drop_blank (reverse (drop_blank cs)))

-- Equality of texts that are lists of characters.
infix 50 ◌===◌
abbrev pub ◌===◌ : List ℕ → List ℕ → Bool
[] === [] = true
[] === (c ∷ cs) = false
(c ∷ cs) === [] = false
(c ∷ cs) === (d ∷ ds) = eqb c d && cs === ds

-- `str::starts_with` and `str::ends_with`, on the characters of the texts.
abbrev pub starts_with : List ℕ → List ℕ → Bool
starts_with cs [] = true
starts_with [] (d ∷ ds) = false
starts_with (c ∷ cs) (d ∷ ds) = eqb c d && starts_with cs ds

abbrev pub ends_with : List ℕ → List ℕ → Bool
ends_with [] ds = [] === ds
ends_with (c ∷ cs) ds = (c ∷ cs) === ds || ends_with cs ds
