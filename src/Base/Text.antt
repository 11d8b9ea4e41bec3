-- ===== src/Base/Text.antt =====
-- JavaScript strings as lists of UTF-16 code units, and the string methods that the code calls.
use Prim.Native.Nat.{ℕ, ◌+◌, ◌-◌, ◌*◌, ◌/◌, ◌%◌}
use Prim.Native.Char.{code}
use Prim.Native.String.{String}
use mathlib.Core.Path.{◌≡◌, refl}
use mathlib.Core.Bool.{Bool, true, false, ◌&&◌, ◌||◌}
use mathlib.Core.Option.{Option, none, some}
use mathlib.Core.List.{List, [], ◌∷◌, ◌++◌, map, reverse}
use native.Mathlib.Omega.{arith}
use vehicle_lifecycle_manage.Base.Tests.{◌==◌, leb, ltb, if◌then◌else◌}

abbrev pub Text : Type 0
Text = List ℕ

-- A literal of the source, all of whose characters are ASCII.
abbrev pub text : String → Text
text String.[] = []
text (String.◌∷◌ c s) = code c ∷ text s

-- `===` on strings
abbrev pub text_eq : Text → Text → Bool
text_eq [] [] = true
text_eq [] (_ ∷ _) = false
text_eq (_ ∷ _) [] = false
text_eq (x ∷ xs) (y ∷ ys) = (x == y) && text_eq xs ys

pub text_eq→eq : (s t : Text) → text_eq s t ≡ true → s ≡ t
text_eq→eq [] [] h = refl
text_eq→eq [] (y ∷ ys) h = cc
text_eq→eq (x ∷ xs) [] h = cc
text_eq→eq (x ∷ xs) (y ∷ ys) h = ground (arith, text_eq→eq xs ys)

pub text_eq_refl : (s : Text) → text_eq s s ≡ true
text_eq_refl [] = refl
text_eq_refl (x ∷ xs) = ground (arith, text_eq_refl xs)

-- `if (s)` on a string that may be missing: the empty string is falsy
abbrev pub truthy : Option Text → Bool
truthy none = false
truthy (some []) = false
truthy (some (_ ∷ _)) = true

unfoldable pub starts_with : Text → Text → Bool
starts_with [] s = true
starts_with (p ∷ ps) [] = false
starts_with (p ∷ ps) (c ∷ s) = (p == c) && starts_with ps s

-- the white space and line terminators that `trim` removes
unfoldable pub is_space : ℕ → Bool
is_space c =
    (leb 9 c && leb c 13)
    || (c == 32)
    || (c == 160)
    || (c == 0x1680)
    || (leb 0x2000 c && leb c 0x200a)
    || (c == 0x2028)
    || (c == 0x2029)
    || (c == 0x202f)
    || (c == 0x205f)
    || (c == 0x3000)
    || (c == 0xfeff)

unfoldable pub trim_start : Text → Text
unfolding is_space
trim_start [] = []
trim_start (c ∷ s) = if is_space c then trim_start s else c ∷ s

unfoldable pub trim : Text → Text
unfolding trim_start
trim s = reverse (trim_start (reverse (trim_start s)))

-- `s.split(',')[0]`: what stands before the first comma
unfoldable pub before_comma : Text → Text
before_comma [] = []
before_comma (c ∷ s) = if c == b',' then [] else c ∷ before_comma s

abbrev pub lower_unit : ℕ → ℕ
lower_unit c = if leb b'A' c && leb c b'Z' then c + 32 else c

-- `toLowerCase` on the ASCII text of a hexadecimal wallet address
unfoldable pub to_lower : Text → Text
to_lower = map lower_unit

abbrev is_high : ℕ → Bool
is_high c = leb 0xd800 c && leb c 0xdbff

abbrev is_low : ℕ → Bool
is_low c = leb 0xdc00 c && leb c 0xdfff

-- The bytes of `Buffer.from(s)`, in UTF-8; a lone surrogate is written as U+FFFD.
unit_bytes : ℕ → List ℕ
unit_bytes c =
    if ltb c 0x80
    then c ∷ []
    else if ltb c 0x800
    then (0xc0 + c / 64) ∷ (0x80 + c % 64) ∷ []
    else if is_high c || is_low c
    then 0xef ∷ 0xbf ∷ 0xbd ∷ []
    else (0xe0 + c / 4096) ∷ (0x80 + c / 64 % 64) ∷ (0x80 + c % 64) ∷ []

pair_bytes : ℕ → ℕ → List ℕ
pair_bytes h l =
    let p : ℕ = 0x10000 + (h - 0xd800) * 1024 + (l - 0xdc00) in
    (0xf0 + p / 262144) ∷ (0x80 + p / 4096 % 64) ∷ (0x80 + p / 64 % 64) ∷ (0x80 + p % 64) ∷ []

unfoldable pub utf8 : Text → List ℕ
unfolding unit_bytes pair_bytes
utf8 [] = []
utf8 (c ∷ []) = unit_bytes c
utf8 (c ∷ d ∷ s) =
    let paired = pair_bytes c d ++ utf8 s in
    let single = unit_bytes c ++ utf8 (d ∷ s) in if is_high c && is_low d then paired else single
