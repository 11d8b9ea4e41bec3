-- ===== src/Accounts/Auth.antt =====
-- backend/src/modules/auth: signing in, one-time codes, refresh and logout.
pub mod Laws
use vehicle_lifecycle_manage.Base.{
  ℕ, suc, ◌+◌, ◌*◌, Option, none, some, List, [], ◌∷◌, ◌++◌, Bool, true, false, ◌==◌, ◌&&◌, ◌||◌,
  not, ltb, is_none, if◌then◌else◌,
}
use vehicle_lifecycle_manage.Base.Text.{Text, text, text_eq, to_lower, starts_with}
use vehicle_lifecycle_manage.Domain.Failure.{Failure, http, Result, ok, err}
use vehicle_lifecycle_manage.Store.Rows.{User, B2bEntity, B2bMember, OtpCode, VehicleOwnership}
use vehicle_lifecycle_manage.Store.Table.{find?, find_last?, update_first}
use vehicle_lifecycle_manage.Store.World.{
  World, Action, pure, throw, gets, or_throw, throw_if, modify, record_not_found, ◌>>=◌, ◌>>◌,
}
use vehicle_lifecycle_manage.Accounts.Tokens.{
  Keys, Claims, TokenPair, issue_token_pair_institution, issue_token_pair_citizen,
  refresh_access_token, revoke_token, revoke_all_member_tokens, member_with, entity_with, user_with,
}

abbrev pub with_email : Text → B2bMember → Bool
with_email email m = text_eq m.email email

-- `member && member.isActive`
abbrev pub if_active : Option B2bMember → Option B2bMember
if_active none = none
if_active (some m) = if m.is_active then some m else none

abbrev pub sets_password : Text → B2bMember → B2bMember
sets_password hash m = record m { password_hash = hash }

-- `updateMemberPassword` of a row that exists
unfoldable pub update_member_password : ℕ → Text → Action (Unit {0})
update_member_password id hash =
    modify λ w. record w { members = update_first (member_with id) (sets_password hash) w.members }

unfoldable pub create_otp : ℕ → ℕ → Action (Unit {0})
create_otp member hash = modify λ w. record w {
  otps =
      w.otps
      ++ record {
        id = w.next_id;
        member_id = member;
        code_hash = hash;
        -- OTP_EXPIRY_MINUTES
        expires_at = w.now + 15 * 60 * 1000;
        used_at = none;
      }
        ∷ [];
  next_id = suc w.next_id;
}

abbrev pub is_valid_otp : ℕ → ℕ → OtpCode → Bool
is_valid_otp now member o = (o.member_id == member) && is_none o.used_at && ltb now o.expires_at

abbrev pub otp_with : ℕ → OtpCode → Bool
otp_with id o = o.id == id

abbrev pub used_at_time : ℕ → OtpCode → OtpCode
used_at_time now o = record o { used_at = some now }

unfoldable pub mark_otp_used : ℕ → Action (Unit {0})
mark_otp_used id =
    modify λ w. record w { otps = update_first (otp_with id) (used_at_time w.now) w.otps }

-- `message.includes(part)`
unfoldable pub includes : Text → Text → Bool
unfolding starts_with
includes part [] = starts_with part []
includes part (c ∷ s) = starts_with part (c ∷ s) || includes part s

-- `upsert` by the wallet, in lower case
unfoldable pub find_or_create_citizen : Text → Action User
find_or_create_citizen wallet w =
    let address = to_lower wallet in
    elim (find? (λ (u : User). text_eq u.wallet_address address) w.users) [
      | some u ↦ (ok u, w)
      | none ↦
          let user : User = record {
            id = w.next_id;
            wallet_address = address;
            is_verified = false;
            rto_entity_id = none;
          } in
          (ok user, record w { users = w.users ++ user ∷ []; next_id = suc w.next_id })
    ]

-- `findCitizenByVehicleAndAadhaar`, for a vehicle id that `BigInt` reads
unfoldable pub verified_owner : ℕ → Text → World → Option User
verified_owner own_tid document_number w =
    elim (find? (λ (o : VehicleOwnership). elim o.own_tid [ none ↦ false | some t ↦ t == own_tid ])
      w.ownerships) [
        | none ↦ none
        | some o ↦ if not o.is_active then none else elim o.owner_user_id [
          | none ↦ none
          | some id ↦ elim (find? (user_with id) w.users) [
            | none ↦ none
            | some u ↦ if u.is_verified then some u else none
          ]
        ]
      ]

-- the `catch` of `loginCitizen`: an error of the handler itself goes on, any other becomes 401
unfoldable pub unless_http : Result TokenPair × World → Result TokenPair × World
unless_http (ok pair, w) = (ok pair, w)
unless_http (err (http status m), w) = (err (http status m), w)
unless_http (err e, w) = (err (http 401 (text "Invalid wallet signature")), w)

module _ (keys : Keys) where
  unfoldable pub login_institution : Text → Text → Text → Action TokenPair
  unfolding issue_token_pair_institution
  login_institution email password raw = do
    found ← gets (λ w. find? (with_email email) w.members)
    member ← or_throw (if_active found) (http 401 (text "Invalid credentials or inactive account"))
    throw_if (not (keys.compare password member.password_hash))
        (http 401 (text "Invalid credentials"))
    owner ← gets (λ w. find? (entity_with member.entity_id) w.entities)
    entity ←
        or_throw owner (http 400 (text "Account configuration error: No associated entity found"))
    throw_if (not entity.is_active)
        (http 403 (text "Institutional entity account is currently suspended or inactive"))
    issue_token_pair_institution keys member entity raw

  -- The route of the login first gives one account a fixed password.
  unfoldable pub login_institution_route : Text → Text → Text → ℕ → Action TokenPair
  unfolding login_institution
  login_institution_route email password raw salt w =
      if text_eq email (text "admin1@test.com")
      then (let hash = keys.hash salt (text "password123") in
          elim (find? (with_email email) w.members) [
            | none ↦ (err record_not_found, w)
            | some _ ↦ login_institution email password raw (record w {
              members = update_first (with_email email) (sets_password hash) w.members;
            })
          ])
      else login_institution email password raw w

  unfoldable pub request_password_reset : Text → Text → Action (Unit {0})
  unfolding create_otp
  request_password_reset email otp w = elim (if_active (find? (with_email email) w.members)) [
    | none ↦ (ok tt, w)
    | some member ↦ (keys.send_otp email otp, (create_otp member.id (keys.sha256 otp) w).1)
  ]

  unfoldable pub reset_password : Text → Text → Text → ℕ → Action (Unit {0})
  unfolding update_member_password mark_otp_used revoke_all_member_tokens
  reset_password email otp new_password salt = do
    found ← gets (λ w. find? (with_email email) w.members)
    member ← or_throw (if_active found) (http 400 (text "Invalid request"))
    latest ← gets (λ w. find_last? (is_valid_otp w.now member.id) w.otps)
    valid ← or_throw latest (http 400 (text "Invalid or expired OTP"))
    throw_if (not (keys.sha256 otp == valid.code_hash)) (http 401 (text "Invalid OTP"))
    update_member_password member.id (keys.hash salt new_password)
    mark_otp_used valid.id
    revoke_all_member_tokens member.id

  -- the `try` of `loginCitizen`, after the address of the signer was recovered
  unfoldable pub sign_in_wallet : Text → Text → Text → Text → Text → Action TokenPair
  sign_in_wallet address wallet message nonce raw = do
    throw_if (not (text_eq (to_lower address) (to_lower wallet)))
        (http 401 (text "Signature verification failed"))
    throw_if (not (includes (text "Nonce: " ++ nonce) message))
        (http 401 (text "Invalid or mismatched nonce in signed message."))
    user ← find_or_create_citizen wallet
    issue_token_pair_citizen keys user raw

  unfoldable pub login_citizen : Text → Text → Text → Text → Text → Action TokenPair
  unfolding unless_http
  login_citizen wallet message signature nonce raw w = elim (keys.signer message signature) [
    | err _ ↦ (err (http 401 (text "Invalid wallet signature")), w)
    | ok address ↦ unless_http (sign_in_wallet address wallet message nonce raw w)
  ]

  unfoldable pub login_citizen_aadhaar : ℕ → Text → Text → Action TokenPair
  unfolding verified_owner issue_token_pair_citizen
  login_citizen_aadhaar own_tid document_number raw = do
    found ← gets (verified_owner own_tid document_number)
    user ← or_throw found (http 401 (text "Access Denied"))
    issue_token_pair_citizen keys user raw

  -- `refresh` of the controller, with the cookie of the refresh token
  unfoldable pub refresh : Option Text → Action Claims
  unfolding refresh_access_token
  refresh cookie = do
    raw ← or_throw cookie (http 401 (text "No refresh token provided"))
    renewed ← gets (refresh_access_token keys raw)
    or_throw renewed (http 401 (text "Invalid or expired refresh token"))

  unfoldable pub logout : Option Text → Action (Unit {0})
  unfolding revoke_token
  logout none = pure tt
  logout (some raw) = revoke_token (keys.sha256 raw)
