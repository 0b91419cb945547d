-- ===== src/Text.antt =====
-- Texts as lists of UTF-16 code units, with the `String` methods that the sources call.
pub mod Decimal
pub mod Hex
pub mod Trim
pub mod Scale
use Prim.Native.Char.{code}
use Prim.Native.String.{String}
use atlas_erpbackend.Prelude.{
  ℕ, zero, suc, ◌+◌, ◌-◌, ◌≡◌, refl, Bool, true, false, ◌&&◌, ◌||◌, List, [], ◌∷◌, ◌++◌, map, arith,
  ltb, leb, ◌==◌, if◌then◌else◌, length, replicate,
}

abbrev pub Text : Type 0
Text = List ℕ

-- The units of an ASCII literal.
abbrev pub codes : String → Text
codes String.[] = []
codes (String.◌∷◌ c s) = code c ∷ codes s

abbrev pub text_eq : Text → Text → Bool
text_eq [] [] = true
text_eq [] (d ∷ t) = false
text_eq (c ∷ s) [] = false
text_eq (c ∷ s) (d ∷ t) = c == d && text_eq s t

pub text_eq_sound : (s t : Text) → text_eq s t ≡ true → s ≡ t
text_eq_sound [] [] h = refl
text_eq_sound [] (d ∷ t) h = ground arith
text_eq_sound (c ∷ s) [] h = ground arith
text_eq_sound (c ∷ s) (d ∷ t) h = ground (arith, text_eq_sound s t)

pub text_eq_refl : (s : Text) → text_eq s s ≡ true
text_eq_refl [] = refl
text_eq_refl (c ∷ s) = ground (arith, text_eq_refl s)

-- `\d`
abbrev pub is_digit : ℕ → Bool
is_digit c = leb b'0' c && leb c b'9'

-- White space and line ends, as `trim` takes them.
unfoldable pub is_space : ℕ → Bool
is_space c =
    leb 9 c && leb c 13
    || c == 32
    || c == 160
    || c == 0x1680
    || leb 0x2000 c && leb c 0x200a
    || c == 0x2028
    || c == 0x2029
    || c == 0x202f
    || c == 0x205f
    || c == 0x3000
    || c == 0xfeff

abbrev pub trim_start : Text → Text
trim_start [] = []
trim_start (c ∷ s) = if is_space c then trim_start s else c ∷ s

abbrev all_space : Text → Bool
all_space [] = true
all_space (c ∷ s) = is_space c && all_space s

abbrev pub trim_end : Text → Text
trim_end [] = []
trim_end (c ∷ s) = if is_space c && all_space s then [] else c ∷ trim_end s

unfoldable pub trim : Text → Text
trim s = trim_end (trim_start s)

-- `padStart` and `padEnd` with a fill of one unit.
abbrev pub pad_start : ℕ → ℕ → Text → Text
pad_start width c s = replicate (width - length s) c ++ s

abbrev pub pad_end : ℕ → ℕ → Text → Text
pad_end width c s = s ++ replicate (width - length s) c

-- `toUpperCase` for the letters whose upper case is one ASCII letter.
abbrev pub upper_unit : ℕ → ℕ
upper_unit c =
    if leb b'a' c && leb c b'z'
    then c - 32
    else if c == 0x131
    then b'I'
    else if c == 0x17f
    then b'S'
    else c

unfoldable pub to_upper : Text → Text
to_upper = map upper_unit

-- The text before the first unit `d`, and from there on: `none` of it where `d` does not occur.
abbrev pub before : ℕ → Text → Text
before d [] = []
before d (c ∷ s) = if c == d then [] else c ∷ before d s

abbrev pub after : ℕ → Text → Text
after d [] = []
after d (c ∷ s) = if c == d then s else after d s

-- `split(d)[0]` and `split(d)[1] ?? ''`.
abbrev pub split_0 : ℕ → Text → Text
split_0 = before

abbrev pub split_1 : ℕ → Text → Text
split_1 d s = before d (after d s)
