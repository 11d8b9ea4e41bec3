-- ===== src/Crypto.antt =====
-- The functions of Node's `crypto` and `Buffer` that the code calls on tokens and signatures.
use vehicle_lifecycle_manage.Base.{
  ℕ, ◌+◌, ◌-◌, ◌*◌, Option, none, some, List, [], ◌∷◌, Bool, true, ◌&&◌, ◌==◌, leb, if◌then◌else◌,
  ◌≡◌, arith, ==_refl,
}
use vehicle_lifecycle_manage.Base.Lists.{length}
use vehicle_lifecycle_manage.Base.Text.{Text, text, text_eq, text_eq→eq, text_eq_refl}
use vehicle_lifecycle_manage.Domain.Failure.{other, Result, ok, err}

-- `crypto.timingSafeEqual`, which throws on buffers of different lengths
unfoldable pub timing_safe_equal : List ℕ → List ℕ → Result Bool
timing_safe_equal a b =
    if length a == length b
    then ok (text_eq a b)
    else err (other (text "Input buffers must have the same byte length"))

pub timing_safe_equal_refl : (a : List ℕ) → timing_safe_equal a a ≡ ok true
unfolding timing_safe_equal
timing_safe_equal_refl a = ground (arith, text_eq_refl a, ==_refl (length a))

pub timing_safe_equal→eq : (a b : List ℕ) → timing_safe_equal a b ≡ ok true → a ≡ b
unfolding timing_safe_equal
timing_safe_equal→eq a b h = ground (arith, text_eq→eq a b)

abbrev hex_value : ℕ → Option ℕ
hex_value c =
    if leb b'0' c && leb c b'9'
    then some (c - b'0')
    else if leb b'a' c && leb c b'f'
    then some (c - b'a' + 10)
    else if leb b'A' c && leb c b'F'
    then some (c - b'A' + 10)
    else none

abbrev hex_pair : Option ℕ → Option ℕ → List ℕ → List ℕ
hex_pair (some a) (some b) rest = (16 * a + b) ∷ rest
hex_pair _ _ rest = []

-- `Buffer.from(s, 'hex')`, which stops at the first pair that is no byte
unfoldable pub hex_bytes : Text → List ℕ
hex_bytes [] = []
hex_bytes (_ ∷ []) = []
hex_bytes (c ∷ d ∷ s) = hex_pair (hex_value c) (hex_value d) (hex_bytes s)
