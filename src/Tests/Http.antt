-- ===== src/Tests/Http.antt =====
-- The theorems on the middlewares at concrete requests.
use vehicle_lifecycle_manage.Base.{ℕ, ◌≡◌, ◌⊎◌, ◌↔◌, refl, Option, some, Bool, true, false}
use vehicle_lifecycle_manage.Base.Text.{Text, text}
use vehicle_lifecycle_manage.Domain.{CallerIdentity}
use vehicle_lifecycle_manage.Domain.Failure.{http, ok, err}
use vehicle_lifecycle_manage.Http.Request.{Request}
use vehicle_lifecycle_manage.Http.Routes.{bank_write_chain}
use vehicle_lifecycle_manage.Http.Access.{IsAuthenticated, MayWriteLoans, bank_write_chain_iff}
use vehicle_lifecycle_manage.Http.Csrf.{normalized_path, is_exempt, check_tokens, csrf_protection}
use vehicle_lifecycle_manage.Http.Csrf.Laws.{HasEqualTokens, csrf_protection_iff}
use vehicle_lifecycle_manage.Http.Address.{is_valid_ip, from_peer, extract_real_ip}
use vehicle_lifecycle_manage.Tests.Data.{banker, verify_as, request}

abbrev seen_as : CallerIdentity → Request
seen_as p = record request { caller = some p }

bank_write_chain_example : (bank_write_chain (verify_as banker) request ≡ ok (seen_as banker)) ↔ (
    (p : CallerIdentity) × IsAuthenticated (verify_as banker) request p
    × MayWriteLoans p
    × (seen_as banker ≡ record request { caller = some p }))
bank_write_chain_example = bank_write_chain_iff (verify_as banker) request (seen_as banker)

abbrev all_verified : Text → Option Bool
all_verified sub = some true

abbrev reading : Request
reading = record request { method = text "GET" }

csrf_protection_example :
    (csrf_protection true reading ≡ ok reading)
    ↔ (((true ≡ false) ⊎ (is_exempt reading ≡ true) ⊎ HasEqualTokens reading) × (reading ≡ reading))
csrf_protection_example = csrf_protection_iff true reading reading

without_token : csrf_protection true request ≡ err (http 403 (text "CSRF token missing"))
unfolding csrf_protection is_exempt check_tokens normalized_path
without_token = refl

abbrev no_ip : Text → ℕ
no_ip s = 0

local_address : extract_real_ip no_ip request ≡ some (text "127.0.0.1")
unfolding extract_real_ip is_valid_ip from_peer
local_address = refl
