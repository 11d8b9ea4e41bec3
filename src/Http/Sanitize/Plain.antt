-- ===== src/Http/Sanitize/Plain.antt =====
-- A sanitized value can be written as JSON.
use vehicle_lifecycle_manage.Base.{◌≡◌, refl, ap}
use vehicle_lifecycle_manage.Http.Sanitize.{
  Value, Items, Fields, null, undefined, boolean, number, string, bigint, date, decimal, array,
  object, nil, cons, end, field, Conversions, sanitize, sanitize_items, sanitize_fields,
}

unfoldable mutual
  -- There is no BigInt and no Decimal in the value.
  pub IsPlain : Value → Type 0
  IsPlain (bigint n) = ⊥
  IsPlain (decimal n) = ⊥
  IsPlain (array xs) = ArePlain xs
  IsPlain (object fs) = HavePlain fs
  IsPlain null = Unit
  IsPlain undefined = Unit
  IsPlain (boolean _) = Unit
  IsPlain (number _) = Unit
  IsPlain (string _) = Unit
  IsPlain (date _) = Unit

  pub ArePlain : Items → Type 0
  ArePlain nil = Unit
  ArePlain (cons x xs) = IsPlain x × ArePlain xs

  pub HavePlain : Fields → Type 0
  HavePlain end = Unit
  HavePlain (field k v fs) = IsPlain v × HavePlain fs

mutual
  unfolding sanitize sanitize_items sanitize_fields IsPlain ArePlain HavePlain

  sanitize-IsPlain : (c : Conversions) (v : Value) → IsPlain (sanitize c v)
  sanitize-IsPlain c null = tt
  sanitize-IsPlain c undefined = tt
  sanitize-IsPlain c (boolean b) = tt
  sanitize-IsPlain c (number n) = tt
  sanitize-IsPlain c (string s) = tt
  sanitize-IsPlain c (bigint n) = tt
  sanitize-IsPlain c (date d) = tt
  sanitize-IsPlain c (decimal n) = tt
  sanitize-IsPlain c (array xs) = sanitize_items-ArePlain c xs
  sanitize-IsPlain c (object fs) = sanitize_fields-HavePlain c fs

  sanitize_items-ArePlain : (c : Conversions) (xs : Items) → ArePlain (sanitize_items c xs)
  sanitize_items-ArePlain c nil = tt
  sanitize_items-ArePlain c (cons x xs) = (sanitize-IsPlain c x, sanitize_items-ArePlain c xs)

  sanitize_fields-HavePlain : (c : Conversions) (fs : Fields) → HavePlain (sanitize_fields c fs)
  sanitize_fields-HavePlain c end = tt
  sanitize_fields-HavePlain c (field k v fs) =
      (sanitize-IsPlain c v, sanitize_fields-HavePlain c fs)

mutual
  unfolding sanitize sanitize_items sanitize_fields IsPlain ArePlain HavePlain

  plain_kept : (c : Conversions) (v : Value) → IsPlain v → sanitize c v ≡ v
  plain_kept c null p = refl
  plain_kept c undefined p = refl
  plain_kept c (boolean b) p = refl
  plain_kept c (number n) p = refl
  plain_kept c (string s) p = refl
  plain_kept c (bigint n) p = elim p [ ]
  plain_kept c (date d) p = refl
  plain_kept c (decimal n) p = elim p [ ]
  plain_kept c (array xs) p = ap array (plain_items_kept c xs p)
  plain_kept c (object fs) p = ap object (plain_fields_kept c fs p)

  plain_items_kept : (c : Conversions) (xs : Items) → ArePlain xs → sanitize_items c xs ≡ xs
  plain_items_kept c nil p = refl
  plain_items_kept c (cons x xs) (p, ps) = cc (plain_kept c x p, plain_items_kept c xs ps)

  plain_fields_kept : (c : Conversions) (fs : Fields) → HavePlain fs → sanitize_fields c fs ≡ fs
  plain_fields_kept c end p = refl
  plain_fields_kept c (field k v fs) (p, ps) = cc (plain_kept c v p, plain_fields_kept c fs ps)

-- The response of a handler is sanitized to a value without BigInts and Decimals at any depth, and a
-- value without them, such as one that was sanitized before, is returned as it is.
pub sanitize_lem :
    (c : Conversions) (v : Value)
    → IsPlain (sanitize c v)
      × (IsPlain v → sanitize c v ≡ v)
      × (sanitize c (sanitize c v) ≡ sanitize c v)
sanitize_lem c v =
    (sanitize-IsPlain c v, plain_kept c v, plain_kept c (sanitize c v) (sanitize-IsPlain c v))
