-- ===== src/Http/Sanitize.antt =====
-- backend/src/utils/sanitizer.ts: search texts for LIKE, and values for JSON.
pub mod Laws
pub mod Plain
use vehicle_lifecycle_manage.Base.{
  ℕ, zero, suc, Option, none, some, List, [], ◌∷◌, ◌++◌, Bool, ◌==◌, if◌then◌else◌,
}
use vehicle_lifecycle_manage.Base.Text.{Text, text, trim}

-- `s.substring(0, n)`
abbrev pub take : ℕ → Text → Text
take zero s = []
take (suc n) [] = []
take (suc n) (c ∷ s) = c ∷ take n s

-- `s.replace(/c/g, by)` for a single code unit
unfoldable pub replace_all : ℕ → Text → Text → Text
replace_all c by [] = []
replace_all c by (d ∷ s) = if d == c then by ++ replace_all c by s else d ∷ replace_all c by s

-- backslash, percent sign and underscore
abbrev pub backslash : ℕ
backslash = 92

abbrev pub percent : ℕ
percent = 37

abbrev pub underscore : ℕ
underscore = 95

unfoldable pub escape_wildcards : Text → Text
unfolding replace_all
escape_wildcards s = replace_all underscore (backslash ∷ underscore ∷ []) (
    replace_all percent (backslash ∷ percent ∷ [])
      (replace_all backslash (backslash ∷ backslash ∷ []) s))

-- The empty text is falsy, as is a missing one.
unfoldable pub sanitize_search_input : Option Text → Option Text
unfolding escape_wildcards trim
sanitize_search_input none = none
sanitize_search_input (some []) = none
sanitize_search_input (some (c ∷ s)) = some (escape_wildcards (take 100 (trim (c ∷ s))))

-- A value of a response, with what the code tells apart by `typeof` and `instanceof`. The numbers
-- of a BigInt and of a Decimal are opaque.
mutual
  pub data Value : Type 0 where
    null : Value
    undefined : Value
    boolean : Bool → Value
    number : ℕ → Value
    string : Text → Value
    bigint : ℕ → Value
    date : ℕ → Value
    decimal : ℕ → Value
    array : Items → Value
    object : Fields → Value

  pub data Items : Type 0 where
    nil : Items
    cons : Value → Items → Items

  pub data Fields : Type 0 where
    end : Fields
    field : Text → Value → Fields → Fields

-- `toString` of a BigInt, and `toNumber` of a Decimal
pub record Conversions : Type 0 where
  pub to_string : ℕ → Text
  pub to_number : ℕ → ℕ

unfoldable mutual
  pub sanitize : Conversions → Value → Value
  sanitize c null = null
  sanitize c undefined = undefined
  sanitize c (boolean b) = boolean b
  sanitize c (number n) = number n
  sanitize c (string s) = string s
  sanitize c (bigint n) = string (c.to_string n)
  sanitize c (date d) = date d
  sanitize c (decimal n) = number (c.to_number n)
  sanitize c (array xs) = array (sanitize_items c xs)
  sanitize c (object fs) = object (sanitize_fields c fs)

  pub sanitize_items : Conversions → Items → Items
  sanitize_items c nil = nil
  sanitize_items c (cons x xs) = cons (sanitize c x) (sanitize_items c xs)

  pub sanitize_fields : Conversions → Fields → Fields
  sanitize_fields c end = end
  sanitize_fields c (field k v fs) = field k (sanitize c v) (sanitize_fields c fs)
