-- ===== src/GoError.antt =====
-- Go's `error` values as the services build and inspect them: sentinels (`errors.New`), wrapping
-- (`fmt.Errorf` with `%w`), and the error types of the AWS SDK that the code looks for.
use cli_demo.Prelude.{
  ℕ, String, ◌<>◌, ◌==◌, nat_eq, string_eq, Bool, true, false, List, [], ◌∷◌, Option, none, some,
}

-- The package-level `Err…` variables, `context.Canceled` and `bcrypt.ErrMismatchedHashAndPassword`.
pub data Sentinel : Type 0 where
  runner_not_found no_idle_runner condition_failed conflict : Sentinel
  connection_not_found slides_not_presenter hands_on_not_presenter : Sentinel
  max_choices_exceeded duplicate_vote vote_not_found poll_not_found invalid_choice : Sentinel
  session_not_found canceled mismatched_hash_and_password : Sentinel

abbrev tag : Sentinel → ℕ
tag runner_not_found = 0
tag no_idle_runner = 1
tag condition_failed = 2
tag conflict = 3
tag connection_not_found = 4
tag slides_not_presenter = 5
tag hands_on_not_presenter = 6
tag max_choices_exceeded = 7
tag duplicate_vote = 8
tag vote_not_found = 9
tag poll_not_found = 10
tag invalid_choice = 11
tag session_not_found = 12
tag canceled = 13
tag mismatched_hash_and_password = 14

-- The text of each sentinel.
abbrev text : Sentinel → String
text runner_not_found = "runner not found"
text no_idle_runner = "no idle runner available"
text condition_failed = "condition check failed"
text conflict = "runner already exists with different attributes"
text connection_not_found = "connection not found"
text slides_not_presenter = "only presenter can sync slides"
text hands_on_not_presenter = "only presenter can send hands_on"
text max_choices_exceeded = "max choices exceeded"
text duplicate_vote = "duplicate vote"
text vote_not_found = "vote not found"
text poll_not_found = "poll not found"
text invalid_choice = "invalid choice"
text session_not_found = "session not found"
text canceled = "context canceled"
text mismatched_hash_and_password =
    "crypto/bcrypt: hashedPassword is not the hash of the given password"

pub data Error : Type 0 where
  sentinel : Sentinel → Error
  wrap : String → Error → Error
  -- an error with no cause that the code looks for, by its text
  plain : String → Error
  -- types.ConditionalCheckFailedException
  conditional_check_failed : Error
  -- types.TransactionCanceledException with the codes of its reasons
  transaction_canceled : List (Option String) → Error
  -- any other smithy.APIError, by its code
  api_error : String → Error
  -- ValidationUnavailableError with its cause
  validation_unavailable : Error → Error

-- errors.Is(err, ErrX)
abbrev pub is_error : Sentinel → Error → Bool
is_error t (sentinel s) = tag t == tag s
is_error t (wrap m e) = is_error t e
is_error t (plain m) = false
is_error t conditional_check_failed = false
is_error t (transaction_canceled cs) = false
is_error t (api_error c) = false
is_error t (validation_unavailable e) = is_error t e

-- errors.As(err, &cfe) for *types.ConditionalCheckFailedException
abbrev pub is_conditional_check_failed : Error → Bool
is_conditional_check_failed (wrap m e) = is_conditional_check_failed e
is_conditional_check_failed conditional_check_failed = true
is_conditional_check_failed (sentinel s) = false
is_conditional_check_failed (plain m) = false
is_conditional_check_failed (transaction_canceled cs) = false
is_conditional_check_failed (api_error c) = false
is_conditional_check_failed (validation_unavailable e) = is_conditional_check_failed e

-- errors.As(err, &apiErr) for smithy.APIError, and its ErrorCode. The exceptions of the DynamoDB
-- client are API errors too, with codes of their own.
abbrev pub is_gone_error : Error → Bool
is_gone_error (wrap m e) = is_gone_error e
is_gone_error (api_error c) = c == "GoneException"
is_gone_error conditional_check_failed = false
is_gone_error (sentinel s) = false
is_gone_error (plain m) = false
is_gone_error (transaction_canceled cs) = false
is_gone_error (validation_unavailable e) = is_gone_error e

-- `*r.Code`, or the empty string where the code is nil
abbrev codes : List (Option String) → List String
codes [] = []
codes (none ∷ cs) = "" ∷ codes cs
codes (some c ∷ cs) = c ∷ codes cs

-- The codes of a canceled transaction, the empty list for any other error.
abbrev pub transaction_canceled_reasons : Error → List String
transaction_canceled_reasons (transaction_canceled cs) = codes cs
transaction_canceled_reasons (wrap m e) = transaction_canceled_reasons e
transaction_canceled_reasons (sentinel s) = []
transaction_canceled_reasons (plain m) = []
transaction_canceled_reasons conditional_check_failed = []
transaction_canceled_reasons (api_error c) = []
transaction_canceled_reasons (validation_unavailable e) = transaction_canceled_reasons e

-- errors.As(err, &unavail) for *ValidationUnavailableError
abbrev pub is_validation_unavailable : Error → Bool
is_validation_unavailable (validation_unavailable e) = true
is_validation_unavailable (wrap m e) = is_validation_unavailable e
is_validation_unavailable (sentinel s) = false
is_validation_unavailable (plain m) = false
is_validation_unavailable conditional_check_failed = false
is_validation_unavailable (transaction_canceled cs) = false
is_validation_unavailable (api_error c) = false

-- err.Error()
unfoldable pub error_text : Error → String
error_text (sentinel s) = text s
error_text (wrap m e) = m <> ": " <> error_text e
error_text (plain m) = m
error_text conditional_check_failed = "ConditionalCheckFailedException"
error_text (transaction_canceled cs) = "TransactionCanceledException"
error_text (api_error c) = c
error_text (validation_unavailable e) = "validation unavailable: " <> error_text e
