-- ===== src/SystemTimeService/Typed.antt =====
-- The typed results of errors and of constructions.
use system_settings.Prelude.{
  true, Option, none, some, Bytes, is_some, ◌≡◌, ◌≢◌, ◌↔◌, inl, inr, refl, arith, Option-cases,
}
use system_settings.SystemTimeService.Results.{
  SystemTimeResult, ok, access_denied, auth_failed, invalid_args, service_unknown,
  name_has_no_owner, unknown_object, unknown_interface, other_code, ErrorCode, io_cancelled, dbus,
  elsewhere, GError, default_message, result_from_code, result_from_error, remote_result,
  result_message,
}

remote_result-not-ok : (remote : Option Bytes) → remote_result remote ≢ ok
remote_result-not-ok remote e = ground arith

result_from_code-not-ok :
    (code : ErrorCode) (remote : Option Bytes) → result_from_code code remote ≢ ok
result_from_code-not-ok io_cancelled remote e = ground arith
result_from_code-not-ok (dbus access_denied) remote e = ground arith
result_from_code-not-ok (dbus auth_failed) remote e = ground arith
result_from_code-not-ok (dbus invalid_args) remote e = ground arith
result_from_code-not-ok (dbus service_unknown) remote e = ground arith
result_from_code-not-ok (dbus name_has_no_owner) remote e = ground arith
result_from_code-not-ok (dbus unknown_object) remote e = ground arith
result_from_code-not-ok (dbus unknown_interface) remote e = ground arith
result_from_code-not-ok (dbus other_code) remote e = remote_result-not-ok remote e
result_from_code-not-ok elsewhere remote e = remote_result-not-ok remote e

-- An error is never reported as a success, and its absence always is.
pub result_from_error_iff :
    (error : Option GError) → (result_from_error error ≡ ok) ↔ (error ≡ none)
unfolding result_from_error
result_from_error_iff none = (λ e. refl, λ e. refl)
result_from_error_iff (some error) =
    (λ e. absurd (result_from_code-not-ok error.code error.remote e), λ e. absurd (ground arith))

default_message_iff : (r : SystemTimeResult) → (default_message r ≡ none) ↔ (r ≡ ok)
unfolding default_message
default_message_iff ok = (λ e. refl, λ e. refl)
default_message_iff _ = (λ e. absurd (ground arith), λ e. absurd (ground arith))

-- A callback that is told of a failure is told in words, whether or not GLib's error has any.
pub result_message-is_some :
    (r : SystemTimeResult) (error : Option GError)
    → r ≢ ok
    → is_some (result_message r error) ≡ true
unfolding result_message
result_message-is_some r error n = elim (Option-cases (default_message r)) [
  | inl e ↦ absurd (n ((default_message_iff r).0 e))
  | inr (text, e) ↦ ground arith
]
