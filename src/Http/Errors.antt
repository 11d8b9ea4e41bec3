-- ===== src/Http/Errors.antt =====
-- backend/src/middlewares/errorHandler.ts: the response to each kind of error.
use vehicle_lifecycle_manage.Base.{ℕ, Option, none, some, Bool, true, false, not, if◌then◌else◌}
use vehicle_lifecycle_manage.Base.Text.{Text, text, text_eq}
use vehicle_lifecycle_manage.Domain.Failure.{Failure, http, zod, prisma, ethers, other}

-- The body without its `meta`: `details` says whether the error's own message and stack go out.
pub record Response : Type 0 where
  pub status : ℕ
  pub error : Text
  pub code : Option Text
  pub details : Bool

-- what the last statement of the handler sends
abbrev internal_error : Bool → Response
internal_error production = record {
  status = 500;
  error = text "Internal server error";
  code = none;
  details = not production;
}

unfoldable pub error_handler : Bool → Failure → Response
error_handler production (http status message) = record {
  status = status;
  error = message;
  code = none;
  details = false;
}
error_handler production zod = record {
  status = 422;
  error = text "Validation failed";
  code = none;
  details = true;
}
error_handler production (prisma code message) =
    if text_eq code (text "P2002")
    then record {
      status = 409;
      error = text "Resource already exists";
      code = some code;
      details = false;
    }
    else if text_eq code (text "P2025")
    then record {
      status = 404;
      error = text "Resource not found";
      code = some code;
      details = false;
    }
    else internal_error production
error_handler production (ethers e) = internal_error production
error_handler production (other message) = internal_error production
