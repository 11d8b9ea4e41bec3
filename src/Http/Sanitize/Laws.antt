-- ===== src/Http/Sanitize/Laws.antt =====
-- A sanitized search text matches literally, and a sanitized value is plain.
use vehicle_lifecycle_manage.Base.{
  ℕ, ◌≡◌, refl, ap, subst, some, List, [], ◌∷◌, ◌++◌, ◌==◌, arith, if◌then◌else◌, map,
}
use vehicle_lifecycle_manage.Base.Text.{Text, trim}
use vehicle_lifecycle_manage.Http.Sanitize.{
  take, escape_wildcards, sanitize_search_input, backslash, percent, underscore,
}

-- What a part of a LIKE pattern matches.
pub data Part : Type 0 where
  literal : ℕ → Part
  any_text : Part
  any_character : Part

-- A pattern of LIKE, with the backslash as its escape character.
abbrev pub read_part : ℕ → Part
read_part c =
    if c == percent then any_text else if c == underscore then any_character else literal c

abbrev pub read_pattern : Text → List Part
read_pattern [] = []
read_pattern (c ∷ []) = read_part c ∷ []
read_pattern (c ∷ d ∷ s) =
    let escaped = literal d ∷ read_pattern s in
    let plain = read_part c ∷ read_pattern (d ∷ s) in if c == backslash then escaped else plain

abbrev escaped_unit : ℕ → Text
escaped_unit c =
    if c == backslash
    then backslash ∷ backslash ∷ []
    else if c == percent
    then backslash ∷ percent ∷ []
    else if c == underscore
    then backslash ∷ underscore ∷ []
    else c ∷ []

-- The three passes do what one pass would.
escape_wildcards-step :
    (c : ℕ) (s : Text) → escape_wildcards (c ∷ s) ≡ escaped_unit c ++ escape_wildcards s
unfolding escape_wildcards
escape_wildcards-step c s = ground arith

read_pattern-escaped :
    (c : ℕ) (s : Text) → read_pattern (escaped_unit c ++ s) ≡ literal c ∷ read_pattern s
read_pattern-escaped c [] = ground arith
read_pattern-escaped c (d ∷ s) = ground arith

escape_wildcards-literal : (s : Text) → read_pattern (escape_wildcards s) ≡ map literal s
unfolding escape_wildcards
escape_wildcards-literal [] = refl
escape_wildcards-literal (c ∷ s) =
    rw (escape_wildcards-step c s, read_pattern-escaped c (escape_wildcards s))
      (ap (λ ps. literal c ∷ ps) (escape_wildcards-literal s))

-- A search text that is neither missing nor empty becomes a pattern of LIKE that matches literally:
-- read with the backslash as its escape character, it stands for the characters of the trimmed
-- text, cut after 100, and holds no wildcard.
pub sanitize_search_input-literal :
    (s : Text) (pattern : Text)
    → sanitize_search_input (some s) ≡ some pattern
    → read_pattern pattern ≡ map literal (take 100 (trim s))
unfolding sanitize_search_input
sanitize_search_input-literal [] pattern h = cc
sanitize_search_input-literal (c ∷ s) pattern h =
    let e : escape_wildcards (take 100 (trim (c ∷ s))) ≡ pattern = cc h in
    subst (λ p. read_pattern p ≡ map literal (take 100 (trim (c ∷ s)))) e
      (escape_wildcards-literal (take 100 (trim (c ∷ s))))
