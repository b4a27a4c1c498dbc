-- ===== src/Faults/Table.antt =====
-- The table has one row for each fault, and a public code names one fault.
use duckdb_data.Faults.{
  AuthFault, invalid_login_origin, invalid_client_id, callback_port_unavailable,
  callback_protocol_error, state_mismatch, user_denied, session_expired, network_unavailable,
  tls_failure, token_exchange_failed, data360_exchange_failed, org_policy_denied,
  secret_name_invalid, persistence_forbidden, auth_session_not_found, auth_session_limit_reached,
  reauth_required, unsupported_platform, get_safe_fault, format_safe_fault,
}
use duckdb_data.Base.{ℕ, ◌+◌, ◌-◌, ◌*◌, ◌≡◌, refl, sym, ap, ◌∙◌, ◌==◌, if◌then◌else◌, get_or, Bytes}

-- The last digit pair of a code, "D360-AUTH-0xy".
abbrev code_number : Bytes → ℕ
code_number text = (get_or text 11 48 - 48) * 10 + (get_or text 12 48 - 48)

abbrev fault_of_number : ℕ → AuthFault
fault_of_number number =
    if number == 1
    then invalid_login_origin
    else if number == 2
    then invalid_client_id
    else if number == 3
    then callback_port_unavailable
    else if number == 4
    then callback_protocol_error
    else if number == 5
    then state_mismatch
    else if number == 6
    then user_denied
    else if number == 7
    then session_expired
    else if number == 8
    then network_unavailable
    else if number == 9
    then tls_failure
    else if number == 10
    then token_exchange_failed
    else if number == 11
    then data360_exchange_failed
    else if number == 12
    then org_policy_denied
    else if number == 13
    then secret_name_invalid
    else if number == 14
    then persistence_forbidden
    else if number == 15
    then auth_session_not_found
    else if number == 16
    then auth_session_limit_reached
    else if number == 17
    then reauth_required
    else if number == 18
    then unsupported_platform
    else unsupported_platform

-- Each fault finds its own row: the fallback row is never taken for another fault.
pub get_safe_fault-fault : (fault : AuthFault) → (get_safe_fault fault).fault ≡ fault
unfolding get_safe_fault
get_safe_fault-fault invalid_login_origin = refl
get_safe_fault-fault invalid_client_id = refl
get_safe_fault-fault callback_port_unavailable = refl
get_safe_fault-fault callback_protocol_error = refl
get_safe_fault-fault state_mismatch = refl
get_safe_fault-fault user_denied = refl
get_safe_fault-fault session_expired = refl
get_safe_fault-fault network_unavailable = refl
get_safe_fault-fault tls_failure = refl
get_safe_fault-fault token_exchange_failed = refl
get_safe_fault-fault data360_exchange_failed = refl
get_safe_fault-fault org_policy_denied = refl
get_safe_fault-fault secret_name_invalid = refl
get_safe_fault-fault persistence_forbidden = refl
get_safe_fault-fault auth_session_not_found = refl
get_safe_fault-fault auth_session_limit_reached = refl
get_safe_fault-fault reauth_required = refl
get_safe_fault-fault unsupported_platform = refl

fault_of_number-format :
    (fault : AuthFault) → fault_of_number (code_number (format_safe_fault fault)) ≡ fault
unfolding format_safe_fault
fault_of_number-format invalid_login_origin = refl
fault_of_number-format invalid_client_id = refl
fault_of_number-format callback_port_unavailable = refl
fault_of_number-format callback_protocol_error = refl
fault_of_number-format state_mismatch = refl
fault_of_number-format user_denied = refl
fault_of_number-format session_expired = refl
fault_of_number-format network_unavailable = refl
fault_of_number-format tls_failure = refl
fault_of_number-format token_exchange_failed = refl
fault_of_number-format data360_exchange_failed = refl
fault_of_number-format org_policy_denied = refl
fault_of_number-format secret_name_invalid = refl
fault_of_number-format persistence_forbidden = refl
fault_of_number-format auth_session_not_found = refl
fault_of_number-format auth_session_limit_reached = refl
fault_of_number-format reauth_required = refl
fault_of_number-format unsupported_platform = refl

-- The text that the user sees determines the fault: no two faults share a formatted text.
pub format_safe_fault-injective :
    (f g : AuthFault) → format_safe_fault f ≡ format_safe_fault g → f ≡ g
format_safe_fault-injective f g e =
    sym (fault_of_number-format f)
    ∙ ap (λ text. fault_of_number (code_number text)) e
    ∙ fault_of_number-format g
