-- ===== src/Http/Enlist/Validation.antt =====
-- What `handleAdd` accepts: the sign-up form.
use waitinglist.Prelude.{◌≡◌, ◌↔◌, String, true, none, arith}
use waitinglist.Prelude.Text.{str_eq, trim_space, contains_code}
use waitinglist.Http.Types.{AddToWaitingListRequest}
use waitinglist.Http.Enlist.{validate_waiting_list_request}

abbrev pub IsBlank : String → Type 0
IsBlank s = str_eq (trim_space s) "" ≡ true

-- A form that is complete: no field is blank, and the email has an `@`.
abbrev pub IsComplete : AddToWaitingListRequest → Type 0
IsComplete req =
    (IsBlank req.firstname → ⊥)
    × (IsBlank req.lastname → ⊥)
    × (IsBlank req.email → ⊥)
    × (contains_code b'@' req.email ≡ true)

-- `validateWaitingListRequest` finds nothing to complain about exactly when the names and the email
-- are not blank and the email contains `@`.
pub validate_waiting_list_request-IsComplete :
    (req : AddToWaitingListRequest) → (validate_waiting_list_request req ≡ none) ↔ IsComplete req
unfolding validate_waiting_list_request
validate_waiting_list_request-IsComplete req = ground arith
