-- ===== src/Tests/Accounts.antt =====
-- The theorems on accounts, notifications and sanitizing at concrete inputs.
use vehicle_lifecycle_manage.Base.{
  ℕ, ◌≡◌, ◌+◌, refl, none, some, List, [], ◌∷◌, true, false, arith, map, is_none,
}
use vehicle_lifecycle_manage.Base.Text.{Text, text, text_eq, trim}
use vehicle_lifecycle_manage.Domain.{admin, operator}
use vehicle_lifecycle_manage.Domain.Failure.{ok}
use vehicle_lifecycle_manage.Store.Rows.{B2bMember, OtpCode}
use vehicle_lifecycle_manage.Store.World.{World}
use vehicle_lifecycle_manage.Accounts.Tokens.{
  Keys, TokenPair, member_claims, refresh_access_token, create_refresh_token,
  issue_token_pair_institution,
}
use vehicle_lifecycle_manage.Accounts.Auth.{login_institution, reset_password, logout}
use vehicle_lifecycle_manage.Accounts.Machine.{Step, Reachable}
use vehicle_lifecycle_manage.Accounts.SignOut.{logout_is_final, Resets, reset_password-Resets}
use vehicle_lifecycle_manage.Accounts.Renewal.{SignsIn, with_session, login_institution-SignsIn}
use vehicle_lifecycle_manage.Accounts.Renewal.RoundTrip.{renewed, refresh_after_login}
use vehicle_lifecycle_manage.Accounts.Members.{Caller, toggle_member_status}
use vehicle_lifecycle_manage.Accounts.Suspension.{toggle_keeps_refresh}
use vehicle_lifecycle_manage.Accounts.Staff.{Request, serve, IsConfined}
use vehicle_lifecycle_manage.Accounts.Staff.Confinement.{serve-IsConfined}
use vehicle_lifecycle_manage.Notify.Streams.{is_empty}
use vehicle_lifecycle_manage.Notify.Streams.Board.{Event, members, promised_all, handled_all}
use vehicle_lifecycle_manage.Notify.Streams.Refinement.{new_manager, new_board, manager_refines}
use vehicle_lifecycle_manage.Http.Sanitize.{
  take, backslash, percent, replace_all, escape_wildcards, sanitize_search_input, Value,
  Conversions, bigint, decimal, array, cons, nil,
}
use vehicle_lifecycle_manage.Http.Sanitize.Laws.{
  literal, read_pattern, sanitize_search_input-literal,
}
use vehicle_lifecycle_manage.Tests.Data.{station, world}

-- A token hashes to its first character, and a password to itself.
abbrev first_character : Text → ℕ
first_character [] = 0
first_character (c ∷ s) = c

abbrev keys : Keys
keys = record {
  access_ttl = 900;
  refresh_ttl = 600;
  sha256 = first_character;
  compare = λ password hash. text_eq password hash;
  hash = λ salt password. password;
  signer = λ message signature. ok signature;
  send_otp = λ email otp. ok tt;
}

abbrev chief : B2bMember
chief = record {
  id = 8;
  entity_id = 1;
  email = text "chief";
  password_hash = text "secret";
  role = admin;
  is_active = true;
  wallet_address = none;
}

abbrev clerk : B2bMember
clerk = record chief { id = 9; email = text "clerk"; role = operator }

abbrev code : OtpCode
code = record { id = 12; member_id = 9; code_hash = b'6'; expires_at = 90; used_at = none }

abbrev staffed : World
staffed = record world { members = chief ∷ clerk ∷ []; otps = code ∷ [] }

abbrev signed_in : World
signed_in = with_session staffed b't' 9 600

abbrev signed_off : World
signed_off = (logout keys (some (text "token")) signed_in).1

logout_is_final_example :
    refresh_access_token keys (text "token") (record signed_off { now = signed_off.now + 5 }) ≡ none
logout_is_final_example =
    logout_is_final keys (text "token") signed_in (record signed_off { now = signed_off.now + 5 })
      refl (Reachable.next Reachable.here (Step.time_passes 5))

reset_password-Resets_example :
    Resets keys signed_in
      (text "clerk")
      (text "613")
      (text "new")
      2
      (reset_password keys (text "clerk") (text "613") (text "new") 2 signed_in)
reset_password-Resets_example =
    reset_password-Resets keys (text "clerk") (text "613") (text "new") 2 signed_in

login_institution-SignsIn_example :
    SignsIn keys staffed
      (text "clerk")
      (text "secret")
      (text "token")
      (login_institution keys (text "clerk") (text "secret") (text "token") staffed)
login_institution-SignsIn_example =
    login_institution-SignsIn keys (text "clerk") (text "secret") (text "token") staffed

abbrev issued : TokenPair
issued = record { access = member_claims keys clerk station b't' 50; refresh = text "token" }

clerk_signs_in :
    login_institution keys (text "clerk") (text "secret") (text "token") staffed
    ≡ (ok issued, signed_in)
unfolding login_institution issue_token_pair_institution create_refresh_token
clerk_signs_in = refl

refresh_after_login_example :
    refresh_access_token keys (text "token") (record signed_in { now = 4000 })
    ≡ some (renewed keys issued.access 4000)
refresh_after_login_example =
    refresh_after_login keys (text "token") staffed 4000 (text "clerk") (text "secret") issued
      signed_in (refl, (refl, tt)) clerk_signs_in (omega arith)

abbrev chief_calls : Caller
chief_calls = record { sub = 8; entity_id = 1; role = admin }

toggle_keeps_refresh_example :
    refresh_access_token keys
      (text "token")
      (toggle_member_status keys 9 false chief_calls signed_in).1
    ≡ refresh_access_token keys (text "token") signed_in
toggle_keeps_refresh_example =
    toggle_keeps_refresh keys 9 false chief_calls (text "token") signed_in

serve-IsConfined_example :
    IsConfined chief_calls staffed (serve keys (Request.change_role 9 operator) chief_calls staffed)
serve-IsConfined_example =
    serve-IsConfined keys chief_calls staffed (refl, (refl, tt)) (Request.change_role 9 operator)

-- Two tabs of one user, a message to both, and one tab closes.
abbrev two_tabs : List Event
two_tabs = Event.connects 1 10 ∷ Event.connects 1 11 ∷ Event.notifies 1 5 ∷ Event.closes 10 ∷ []

manager_refines_example :
    ((handled_all two_tabs new_manager).written ≡ (promised_all two_tabs new_board).written)
    × ((r : ℕ)
        → is_none ((handled_all two_tabs new_manager).clients r)
          ≡ is_empty (members r (promised_all two_tabs new_board).open_now))
manager_refines_example = manager_refines two_tabs (refl, (refl, (tt, (refl, tt))))

half_escaped :
    sanitize_search_input (some (text "50%")) ≡ some (b'5' ∷ b'0' ∷ backslash ∷ percent ∷ [])
unfolding sanitize_search_input escape_wildcards replace_all trim
half_escaped = refl

sanitize_search_input-literal_example :
    read_pattern (b'5' ∷ b'0' ∷ backslash ∷ percent ∷ [])
    ≡ map literal (take 100 (trim (text "50%")))
sanitize_search_input-literal_example =
    sanitize_search_input-literal (text "50%") (b'5' ∷ b'0' ∷ backslash ∷ percent ∷ []) half_escaped

abbrev conversions : Conversions
conversions = record { to_string = λ n. b'n' ∷ []; to_number = λ n. n }

abbrev response : Value
response = array (cons (bigint 7) (cons (decimal 4) nil))
