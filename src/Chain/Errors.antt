-- ===== src/Chain/Errors.antt =====
-- `parseEthersError` of backend/src/utils/blockchainErrorHandler.ts.
use vehicle_lifecycle_manage.Base.{Option, none, some, [], ◌∷◌, ◌&&◌, if◌then◌else◌}
use vehicle_lifecycle_manage.Base.Lists.{drop, length}
use vehicle_lifecycle_manage.Base.Text.{Text, text, text_eq, starts_with, truthy}
use vehicle_lifecycle_manage.Domain.Failure.{Failure, http, zod, prisma, ethers, other, EthersError}

abbrev text_or_empty : Option Text → Text
text_or_empty none = []
text_or_empty (some s) = s

-- `message.replace(marker, '')`: the first occurrence goes
unfoldable pub without_first : Text → Text → Text
unfolding starts_with
without_first marker [] = []
without_first marker (c ∷ s) =
    if starts_with marker (c ∷ s) then drop (length marker) (c ∷ s) else c ∷ without_first marker s

unfoldable pub parse_ethers_error : EthersError → Text
unfolding without_first
parse_ethers_error e =
    if text_eq (text_or_empty e.code) (text "CALL_EXCEPTION") && truthy e.revert_name
    then text_or_empty e.revert_name
    else if truthy e.info_message
    then without_first (text "execution reverted: ") (text_or_empty e.info_message)
    else if truthy e.reason
    then text_or_empty e.reason
    else if truthy e.message
    then text_or_empty e.message
    else text "Error"

-- What it yields for each kind of error that a submission can throw.
unfoldable pub parse_error : Failure → Text
unfolding parse_ethers_error
parse_error (ethers e) = parse_ethers_error e
parse_error (http _ message) = message
parse_error (prisma _ message) = message
parse_error zod = text "Error"
parse_error (other []) = text "Error"
parse_error (other message) = message
