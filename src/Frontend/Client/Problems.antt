-- ===== src/Frontend/Client/Problems.antt =====
-- The errors of axios, and the `ApiError` that the interceptor makes of them.
use vehicle_lifecycle_manage.Base.{
  ℕ, zero, suc, Option, none, some, List, [], ◌∷◌, ◌++◌, Bool, false, ◌==◌, if◌then◌else◌,
}
use vehicle_lifecycle_manage.Base.Text.{Text, text, text_eq}

-- The fields of the body of an answer that the interceptor reads; the details in the order of
-- `Object.keys`.
pub record Body : Type 0 where
  pub error : Option Text
  pub message : Option Text
  pub code : Option Text
  pub details : List (Text × List Text)

-- An `AxiosError`: without a status and a body where no answer came.
pub record Problem : Type 0 where
  pub status : Option ℕ
  pub body : Option Body
  pub message : Text

-- `ApiError`, without the copy of the whole body that it carries.
pub record ApiError : Type 0 where
  pub status : ℕ
  pub message : Text
  pub code : Option Text

-- `status || n`
abbrev pub or_default : Option ℕ → ℕ → ℕ
or_default none n = n
or_default (some zero) n = n
or_default (some (suc s)) n = suc s

-- `error.response?.status === 401`
abbrev pub is_unauthorized : Problem → Bool
is_unauthorized p = elim p.status [ none ↦ false | some s ↦ s == 401 ]

-- `a || b` on texts
abbrev pub or_text : Option Text → Text → Text
or_text none t = t
or_text (some []) t = t
or_text (some (c ∷ s)) t = c ∷ s

-- the first message under the first key
abbrev pub detail_of : List (Text × List Text) → Option Text
detail_of [] = none
detail_of (([], _) ∷ _) = none
detail_of ((k ∷ ks, []) ∷ _) = none
detail_of ((k ∷ ks, [] ∷ _) ∷ _) = none
detail_of ((k ∷ ks, (c ∷ s) ∷ _) ∷ _) = some (c ∷ s)

abbrev pub with_detail : Text → Option Text → Text
with_detail message none = message
with_detail message (some d) =
    if text_eq message (text "Validation failed") then d else message ++ text ": " ++ d

unfoldable pub standardized : Problem → ApiError
standardized p = elim p.body [
  | none ↦ record {
    status = or_default p.status 500;
    message = or_text (some p.message) (text "Request failed");
    code = none;
  }
  | some b ↦ record {
    status = or_default p.status 500;
    message =
        with_detail
          (or_text b.error (or_text b.message (or_text (some p.message) (text "Request failed"))))
          (detail_of b.details);
    code = b.code;
  }
]
