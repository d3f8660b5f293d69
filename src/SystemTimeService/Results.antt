-- ===== src/SystemTimeService/Results.antt =====
-- The typed results, and what they are for an error of GLib.
use system_settings.Prelude.{
  Bool, false, ◌||◌, Option, none, some, Bytes, codes, equal, is_empty, if◌then◌else◌,
}

pub data SystemTimeResult : Type 0 where
  ok invalid_argument unavailable cancelled permission_denied transport_error protocol_error :
      SystemTimeResult

-- `GDBusError`, with the codes that are told apart
pub data DbusCode : Type 0 where
  access_denied auth_failed invalid_args service_unknown name_has_no_owner unknown_object
        unknown_interface other_code :
      DbusCode

-- The domain and the code of a `GError`: G_IO_ERROR_CANCELLED, G_DBUS_ERROR, or anything else
pub data ErrorCode : Type 0 where
  io_cancelled : ErrorCode
  dbus : DbusCode → ErrorCode
  elsewhere : ErrorCode

pub record GError : Type 0 where
  pub code : ErrorCode
  pub message : Option Bytes
  -- `g_dbus_error_get_remote_error`
  pub remote : Option Bytes

unfoldable pub default_message : SystemTimeResult → Option Bytes
default_message ok = none
default_message invalid_argument =
    some (codes "The requested operating-system date/time value is invalid.")
default_message unavailable = some (codes "The operating-system date/time service is unavailable.")
default_message cancelled = some (codes "The operating-system date/time request was cancelled.")
default_message permission_denied =
    some (codes "Authorisation to change the operating-system date/time setting was denied.")
default_message transport_error =
    some (codes "The operating-system date/time service could not be reached.")
default_message protocol_error =
    some (codes "The operating-system date/time service returned incompatible state.")

-- The switch over the codes of G_DBUS_ERROR; `none` goes on behind it.
abbrev pub dbus_result : DbusCode → Option SystemTimeResult
dbus_result access_denied = some permission_denied
dbus_result auth_failed = some permission_denied
dbus_result invalid_args = some invalid_argument
dbus_result service_unknown = some unavailable
dbus_result name_has_no_owner = some unavailable
dbus_result unknown_object = some unavailable
dbus_result unknown_interface = some unavailable
dbus_result other_code = none

unfoldable pub denied_remotely : Option Bytes → Bool
denied_remotely none = false
denied_remotely (some name) =
    equal name (codes "org.freedesktop.DBus.Error.AccessDenied")
    || equal name (codes "org.freedesktop.PolicyKit1.Error.NotAuthorized")
    || equal name (codes "org.freedesktop.PolicyKit1.Error.Failed")

abbrev pub remote_result : Option Bytes → SystemTimeResult
remote_result remote = if denied_remotely remote then permission_denied else transport_error

abbrev pub result_from_code : ErrorCode → Option Bytes → SystemTimeResult
result_from_code io_cancelled remote = cancelled
result_from_code (dbus code) remote = elim (dbus_result code) [
  | some r ↦ r
  | none ↦ remote_result remote
]
result_from_code elsewhere remote = remote_result remote

unfoldable pub result_from_error : Option GError → SystemTimeResult
result_from_error none = ok
result_from_error (some error) = result_from_code error.code error.remote

abbrev pub message_of : Option GError → Option Bytes
message_of error = elim error [ none ↦ none | some e ↦ e.message ]

unfoldable pub result_message : SystemTimeResult → Option GError → Option Bytes
result_message result error = elim (message_of error) [
  | none ↦ default_message result
  | some text ↦ if is_empty text then default_message result else some text
]
