-- ===== src/Http/Csrf/Laws.antt =====
-- What the CSRF check lets through, and how it fails.
use vehicle_lifecycle_manage.Base.{
  ◌≡◌, ◌⊎◌, ◌↔◌, ◌≢◌, refl, inl, inr, Option, none, some, Bool, true, false, arith, Bool-cases,
  ◌==◌,
}
use vehicle_lifecycle_manage.Base.Lists.{length}
use vehicle_lifecycle_manage.Base.Text.{Text, utf8, text_eq→eq, text_eq_refl}
use vehicle_lifecycle_manage.Domain.Failure.{Failure, ok, err}
use vehicle_lifecycle_manage.Http.Request.{HeaderValue, absent, single, multiple, Request}
use vehicle_lifecycle_manage.Http.Csrf.{is_exempt, check_tokens, csrf_protection, csrf_token_length}
use vehicle_lifecycle_manage.Http.Errors.{error_handler}

-- Cookie and header hold tokens of the full length with the same bytes.
pub record HasEqualTokens (req : Request) : Type 0 where
  pub cookie : Text
  pub header : Text
  pub in_cookie : req.cookie_csrf ≡ some cookie
  pub in_header : req.csrf_header ≡ single header
  pub cookie_full : length cookie ≡ csrf_token_length
  pub header_full : length header ≡ csrf_token_length
  pub same_bytes : utf8 cookie ≡ utf8 header

check_tokens-eq-ok :
    (req req' : Request) (c : Option Text) (h : HeaderValue)
    → check_tokens req c h ≡ ok req'
    → (cookie : Text) × (header : Text) × (c ≡ some cookie)
      × (h ≡ single header)
      × (length cookie ≡ csrf_token_length)
      × (length header ≡ csrf_token_length)
      × (utf8 cookie ≡ utf8 header)
      × (req' ≡ req)
unfolding check_tokens
check_tokens-eq-ok req req' none h e = cc
check_tokens-eq-ok req req' (some c) absent e = cc
check_tokens-eq-ok req req' (some c) (multiple _) e = cc
check_tokens-eq-ok req req' (some c) (single h) e = (
  c,
  h,
  refl,
  refl,
  ground arith,
  ground arith,
  ground (arith, text_eq→eq (utf8 c) (utf8 h)),
  ground arith,
)

check_tokens_of_HasEqualTokens :
    (req : Request) → HasEqualTokens req → check_tokens req req.cookie_csrf req.csrf_header ≡ ok req
unfolding check_tokens
check_tokens_of_HasEqualTokens req t =
    rw (t.in_cookie, t.in_header, check_tokens) (ground (arith, text_eq_refl (utf8 t.header)))

-- The check lets a request through exactly if the server does not run in production, the request
-- is exempt by its method or path, or its cookie and its header hold tokens of 32 units with the
-- same bytes; the request goes on unchanged.
pub csrf_protection_iff :
    (production : Bool) (req req' : Request)
    → (csrf_protection production req ≡ ok req')
      ↔ (((production ≡ false) ⊎ (is_exempt req ≡ true) ⊎ HasEqualTokens req) × (req' ≡ req))
unfolding csrf_protection
csrf_protection_iff production req req' = (forth production, back production)
  where
    forth :
        (p : Bool)
        → csrf_protection p req ≡ ok req'
        → ((p ≡ false) ⊎ (is_exempt req ≡ true) ⊎ HasEqualTokens req) × (req' ≡ req)
    forth false h = (inl refl, ground arith)
    forth true h = elim (Bool-cases (is_exempt req)) [
      | inl exempt ↦ (inr (inl exempt), ground arith)
      | inr checked ↦
          let (c, t, e1, e2, e3, e4, e5, e6) =
            check_tokens-eq-ok req req' req.cookie_csrf req.csrf_header
              (rw (checked, csrf_protection) at h) in
          (
            inr (
                inr (record {
                  cookie = c;
                  header = t;
                  in_cookie = e1;
                  in_header = e2;
                  cookie_full = e3;
                  header_full = e4;
                  same_bytes = e5;
                })),
            e6,
          )
    ]

    back :
        (p : Bool)
        → ((p ≡ false) ⊎ (is_exempt req ≡ true) ⊎ HasEqualTokens req) × (req' ≡ req)
        → csrf_protection p req ≡ ok req'
    back p (inl off, same) = ground arith
    back p (inr (inl exempt), same) = ground arith
    back p (inr (inr t), same) = ground (arith, check_tokens_of_HasEqualTokens req t)

-- Two tokens of the full length whose UTF-8 encodings differ in length.
pub record HasUnequalBuffers (req : Request) : Type 0 where
  pub cookie : Text
  pub header : Text
  pub in_cookie : req.cookie_csrf ≡ some cookie
  pub in_header : req.csrf_header ≡ single header
  pub cookie_full : length cookie ≡ csrf_token_length
  pub header_full : length header ≡ csrf_token_length
  pub other_length : length (utf8 cookie) ≢ length (utf8 header)

check_tokens-status :
    (req : Request) (c : Option Text) (h : HeaderValue) {e : Failure} (production : Bool)
    → req.cookie_csrf ≡ c
    → req.csrf_header ≡ h
    → check_tokens req c h ≡ err e
    → ((error_handler production e).status ≡ 403)
      ⊎ (((error_handler production e).status ≡ 500) × HasUnequalBuffers req)
unfolding check_tokens error_handler
check_tokens-status req none h p ec eh f = inl (ground arith)
check_tokens-status req (some c) absent p ec eh f = inl (ground arith)
check_tokens-status req (some c) (multiple _) p ec eh f = inl (ground arith)
check_tokens-status req (some c) (single h) p ec eh f =
    elim (Bool-cases (length (utf8 c) == length (utf8 h))) [
      | inl same_length ↦ inl (ground arith)
      | inr differ ↦ elim (Bool-cases (length c == csrf_token_length)) [
        | inl full ↦ elim (Bool-cases (length h == csrf_token_length)) [
          | inl also ↦ inr (
            ground arith,
            record {
              cookie = c;
              header = h;
              in_cookie = ec;
              in_header = eh;
              cookie_full = ground arith;
              header_full = ground arith;
              other_length = ground arith;
            },
          )
          | inr short ↦ inl (ground arith)
        ]
        | inr short ↦ inl (ground arith)
      ]
    ]

-- A request that the check refuses is answered with 403, except where cookie and header hold
-- tokens of 32 units whose UTF-8 encodings differ in length: there the comparison throws and the
-- answer is 500.
pub csrf_protection-status :
    (production : Bool) (req : Request) {e : Failure}
    → csrf_protection production req ≡ err e
    → ((error_handler production e).status ≡ 403)
      ⊎ (((error_handler production e).status ≡ 500) × HasUnequalBuffers req)
unfolding csrf_protection
csrf_protection-status false req h = absurd (ground arith)
csrf_protection-status true req h =
    check_tokens-status req req.cookie_csrf req.csrf_header true refl refl (ground arith)
