-- ===== src/Money/Text.antt =====
-- Texts as lists of code points, with what money.go uses of the packages strings and fmt.
use bytedance_double_entry_l.Prelude.{
  ℕ, zero, suc, ◌+◌, ◌-◌, ◌/◌, ◌%◌, Bool, true, false, ◌&&◌, ◌||◌, List, [], ◌∷◌, ◌++◌, ltb, leb,
  ◌==◌, if◌then◌else◌, length,
}
use bytedance_double_entry_l.Prelude.Int.{ℤ, pos, negsuc}

abbrev pub Text : Type 0
Text = List ℕ

-- unicode.IsSpace
unfoldable pub is_space : ℕ → Bool
is_space c =
    (leb 9 c && leb c 13)
    || (c == 32)
    || (c == 0x85)
    || (c == 0xa0)
    || (c == 0x1680)
    || (leb 0x2000 c && leb c 0x200a)
    || (c == 0x2028)
    || (c == 0x2029)
    || (c == 0x202f)
    || (c == 0x205f)
    || (c == 0x3000)

unfoldable pub trim_left : Text → Text
unfolding is_space
trim_left [] = []
trim_left (c ∷ s) = let rest = trim_left s in if is_space c then rest else c ∷ s

-- a trailing space is one with nothing but spaces behind it
unfoldable pub trim_right : Text → Text
unfolding is_space
trim_right [] = []
trim_right (c ∷ s) = elim (trim_right s) [
  | [] ↦ if is_space c then [] else c ∷ []
  | d ∷ rest ↦ c ∷ d ∷ rest
]

-- strings.TrimSpace
unfoldable pub trim_space : Text → Text
unfolding trim_left trim_right
trim_space s = trim_right (trim_left s)

-- the bytes of a code point in UTF-8, and `len` of a text
unfoldable pub utf8_len : ℕ → ℕ
utf8_len c = if ltb c 0x80 then 1 else if ltb c 0x800 then 2 else if ltb c 0x10000 then 3 else 4

unfoldable pub byte_len : Text → ℕ
unfolding utf8_len
byte_len [] = 0
byte_len (c ∷ s) = utf8_len c + byte_len s

-- strings.Cut at a dot: what stands before, what stands behind, and whether there is one
unfoldable pub cut_dot : Text → Text × Text × Bool
cut_dot [] = ([], [], false)
cut_dot (c ∷ s) =
    let rest = cut_dot s in if c == b'.' then ([], s, true) else (c ∷ rest.0, rest.1, rest.2)

unfoldable pub replicate : ℕ → ℕ → Text
replicate zero c = []
replicate (suc n) c = c ∷ replicate n c

-- The decimal digits of a number, most significant first. The fuel is more than the number.
unfoldable pub digits_from : ℕ → ℕ → Text
digits_from zero n = []
digits_from (suc f) n =
    let front = digits_from f (n / 10) in
    if ltb n 10 then (b'0' + n) ∷ [] else front ++ (b'0' + n % 10) ∷ []

unfoldable pub digits : ℕ → Text
unfolding digits_from
digits n = digits_from (suc n) n

-- fmt's `%d`
unfoldable pub format_d : ℤ → Text
unfolding digits
format_d (pos n) = digits n
format_d (negsuc n) = b'-' ∷ digits (suc n)

-- fmt's `%0*d`: zeros behind the sign, up to the width
unfoldable pub format_0d : ℕ → ℤ → Text
unfolding digits replicate
format_0d width (pos n) = replicate (width - length (digits n)) b'0' ++ digits n
format_0d width (negsuc n) =
    b'-' ∷ replicate (width - 1 - length (digits (suc n))) b'0' ++ digits (suc n)
