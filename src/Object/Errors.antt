-- ===== src/Object/Errors.antt =====
-- dbus/dbus-gobject.c and dbus/dbus-glib.c: the errors of D-Bus as a GError, and back. The texts of the
-- names that libdbus defines, the strings of quarks and the nicks of enumerations are arguments.
pub mod Returned
use dbus_glib.Prelude.{
  ℕ, suc, Bool, true, false, not, ◌&&◌, Option, none, some, List, [], ◌∷◌, ◌++◌, ◌==◌, Bytes, codes,
  str_equal, if◌then◌else◌,
}
use dbus_glib.Outcome.{Outcome, ok, ◌>>=◌}
use dbus_glib.Heap.{is_some}
use dbus_glib.Memory.{strlen, advance, string_at}
use dbus_glib.Parser.State.{decimal}
use dbus_glib.Utils.{uscore_to_wincaps, uscore_to_wincaps_full}

-- `DBUS_ERROR_...`
pub data DBusErrorName : Type 0 where
  dbus_error_failed : DBusErrorName
  dbus_error_no_memory : DBusErrorName
  dbus_error_service_unknown : DBusErrorName
  dbus_error_name_has_no_owner : DBusErrorName
  dbus_error_no_reply : DBusErrorName
  dbus_error_io_error : DBusErrorName
  dbus_error_bad_address : DBusErrorName
  dbus_error_not_supported : DBusErrorName
  dbus_error_limits_exceeded : DBusErrorName
  dbus_error_access_denied : DBusErrorName
  dbus_error_auth_failed : DBusErrorName
  dbus_error_no_server : DBusErrorName
  dbus_error_timeout : DBusErrorName
  dbus_error_no_network : DBusErrorName
  dbus_error_address_in_use : DBusErrorName
  dbus_error_disconnected : DBusErrorName
  dbus_error_invalid_args : DBusErrorName
  dbus_error_file_not_found : DBusErrorName
  dbus_error_file_exists : DBusErrorName
  dbus_error_unknown_method : DBusErrorName
  dbus_error_timed_out : DBusErrorName
  dbus_error_match_rule_not_found : DBusErrorName
  dbus_error_match_rule_invalid : DBusErrorName
  dbus_error_spawn_exec_failed : DBusErrorName
  dbus_error_spawn_fork_failed : DBusErrorName
  dbus_error_spawn_child_exited : DBusErrorName
  dbus_error_spawn_child_signaled : DBusErrorName
  dbus_error_spawn_failed : DBusErrorName
  dbus_error_unix_process_id_unknown : DBusErrorName
  dbus_error_invalid_signature : DBusErrorName
  dbus_error_invalid_file_content : DBusErrorName
  dbus_error_selinux_security_context_unknown : DBusErrorName

-- `DBUS_GERROR_...`
pub data DBusGError : Type 0 where
  dbus_gerror_failed : DBusGError
  dbus_gerror_no_memory : DBusGError
  dbus_gerror_service_unknown : DBusGError
  dbus_gerror_name_has_no_owner : DBusGError
  dbus_gerror_no_reply : DBusGError
  dbus_gerror_io_error : DBusGError
  dbus_gerror_bad_address : DBusGError
  dbus_gerror_not_supported : DBusGError
  dbus_gerror_limits_exceeded : DBusGError
  dbus_gerror_access_denied : DBusGError
  dbus_gerror_auth_failed : DBusGError
  dbus_gerror_no_server : DBusGError
  dbus_gerror_timeout : DBusGError
  dbus_gerror_no_network : DBusGError
  dbus_gerror_address_in_use : DBusGError
  dbus_gerror_disconnected : DBusGError
  dbus_gerror_invalid_args : DBusGError
  dbus_gerror_file_not_found : DBusGError
  dbus_gerror_file_exists : DBusGError
  dbus_gerror_unknown_method : DBusGError
  dbus_gerror_timed_out : DBusGError
  dbus_gerror_match_rule_not_found : DBusGError
  dbus_gerror_match_rule_invalid : DBusGError
  dbus_gerror_spawn_exec_failed : DBusGError
  dbus_gerror_spawn_fork_failed : DBusGError
  dbus_gerror_spawn_child_exited : DBusGError
  dbus_gerror_spawn_child_signaled : DBusGError
  dbus_gerror_spawn_failed : DBusGError
  dbus_gerror_unix_process_id_unknown : DBusGError
  dbus_gerror_invalid_signature : DBusGError
  dbus_gerror_invalid_file_content : DBusGError
  dbus_gerror_selinux_security_context_unknown : DBusGError
  dbus_gerror_remote_exception : DBusGError

-- `message` is a buffer, with its NULs.
pub data MethodError : Type 0 where
  in_dbus_gerror : DBusGError → Bytes → MethodError
  in_domain : ℕ → ℕ → Bytes → MethodError

-- the cases that give a constant
unfoldable pub error_name_of : DBusGError → Option DBusErrorName
error_name_of dbus_gerror_failed = some dbus_error_failed
error_name_of dbus_gerror_no_memory = some dbus_error_no_memory
error_name_of dbus_gerror_service_unknown = some dbus_error_service_unknown
error_name_of dbus_gerror_name_has_no_owner = some dbus_error_name_has_no_owner
error_name_of dbus_gerror_no_reply = some dbus_error_no_reply
error_name_of dbus_gerror_io_error = some dbus_error_io_error
error_name_of dbus_gerror_bad_address = some dbus_error_bad_address
error_name_of dbus_gerror_not_supported = some dbus_error_not_supported
error_name_of dbus_gerror_limits_exceeded = some dbus_error_limits_exceeded
error_name_of dbus_gerror_access_denied = some dbus_error_access_denied
error_name_of dbus_gerror_auth_failed = some dbus_error_auth_failed
error_name_of dbus_gerror_no_server = some dbus_error_no_server
error_name_of dbus_gerror_timeout = some dbus_error_timeout
error_name_of dbus_gerror_no_network = some dbus_error_no_network
error_name_of dbus_gerror_address_in_use = some dbus_error_address_in_use
error_name_of dbus_gerror_disconnected = some dbus_error_disconnected
error_name_of dbus_gerror_invalid_args = some dbus_error_invalid_args
error_name_of dbus_gerror_file_not_found = some dbus_error_file_not_found
error_name_of dbus_gerror_file_exists = some dbus_error_file_exists
error_name_of dbus_gerror_unknown_method = some dbus_error_unknown_method
error_name_of dbus_gerror_timed_out = some dbus_error_timed_out
error_name_of dbus_gerror_match_rule_not_found = some dbus_error_match_rule_not_found
error_name_of dbus_gerror_match_rule_invalid = some dbus_error_match_rule_invalid
error_name_of dbus_gerror_spawn_exec_failed = some dbus_error_spawn_exec_failed
error_name_of dbus_gerror_spawn_fork_failed = some dbus_error_spawn_fork_failed
error_name_of dbus_gerror_spawn_child_exited = some dbus_error_spawn_child_exited
error_name_of dbus_gerror_spawn_child_signaled = some dbus_error_spawn_child_signaled
error_name_of dbus_gerror_spawn_failed = some dbus_error_spawn_failed
error_name_of dbus_gerror_unix_process_id_unknown = some dbus_error_unix_process_id_unknown
error_name_of dbus_gerror_invalid_signature = some dbus_error_invalid_signature
error_name_of dbus_gerror_invalid_file_content = some dbus_error_invalid_file_content
error_name_of dbus_gerror_selinux_security_context_unknown =
    some dbus_error_selinux_security_context_unknown
error_name_of dbus_gerror_remote_exception = none

-- the comparisons in their order
abbrev pub comparisons : List (DBusErrorName × DBusGError)
comparisons =
    (dbus_error_failed, dbus_gerror_failed)
    ∷ (dbus_error_no_memory, dbus_gerror_no_memory)
    ∷ (dbus_error_service_unknown, dbus_gerror_service_unknown)
    ∷ (dbus_error_name_has_no_owner, dbus_gerror_name_has_no_owner)
    ∷ (dbus_error_no_reply, dbus_gerror_no_reply)
    ∷ (dbus_error_io_error, dbus_gerror_io_error)
    ∷ (dbus_error_bad_address, dbus_gerror_bad_address)
    ∷ (dbus_error_not_supported, dbus_gerror_not_supported)
    ∷ (dbus_error_limits_exceeded, dbus_gerror_limits_exceeded)
    ∷ (dbus_error_access_denied, dbus_gerror_access_denied)
    ∷ (dbus_error_auth_failed, dbus_gerror_auth_failed)
    ∷ (dbus_error_no_server, dbus_gerror_no_server)
    ∷ (dbus_error_timeout, dbus_gerror_timeout)
    ∷ (dbus_error_no_network, dbus_gerror_no_network)
    ∷ (dbus_error_address_in_use, dbus_gerror_address_in_use)
    ∷ (dbus_error_disconnected, dbus_gerror_disconnected)
    ∷ (dbus_error_invalid_args, dbus_gerror_invalid_args)
    ∷ (dbus_error_file_not_found, dbus_gerror_file_not_found)
    ∷ (dbus_error_file_exists, dbus_gerror_file_exists)
    ∷ (dbus_error_unknown_method, dbus_gerror_unknown_method)
    ∷ (dbus_error_timed_out, dbus_gerror_timed_out)
    ∷ (dbus_error_match_rule_not_found, dbus_gerror_match_rule_not_found)
    ∷ (dbus_error_match_rule_invalid, dbus_gerror_match_rule_invalid)
    ∷ (dbus_error_spawn_exec_failed, dbus_gerror_spawn_exec_failed)
    ∷ (dbus_error_spawn_fork_failed, dbus_gerror_spawn_fork_failed)
    ∷ (dbus_error_spawn_child_exited, dbus_gerror_spawn_child_exited)
    ∷ (dbus_error_spawn_child_signaled, dbus_gerror_spawn_child_signaled)
    ∷ (dbus_error_spawn_failed, dbus_gerror_spawn_failed)
    ∷ (dbus_error_unix_process_id_unknown, dbus_gerror_unix_process_id_unknown)
    ∷ (dbus_error_invalid_signature, dbus_gerror_invalid_signature)
    ∷ (dbus_error_invalid_file_content, dbus_gerror_invalid_file_content)
    ∷ (dbus_error_selinux_security_context_unknown, dbus_gerror_selinux_security_context_unknown)
    ∷ []

unfoldable pub compare_names :
    (DBusErrorName → Bytes) → Bytes → List (DBusErrorName × DBusGError) → DBusGError
compare_names text derr [] = dbus_gerror_remote_exception
compare_names text derr ((name, error_code) ∷ rest) =
    if str_equal derr (text name) then error_code else compare_names text derr rest

unfoldable pub dbus_error_to_gerror_code : (DBusErrorName → Bytes) → Bytes → DBusGError
unfolding compare_names
dbus_error_to_gerror_code text derr = compare_names text derr comparisons

abbrev or_empty_message : Option Bytes → Bytes
or_empty_message none = []
or_empty_message (some message) = message

-- A known error has its message and NUL, another one its name after that. `g_set_error` takes a NULL
-- message of a known error for "(null)".
abbrev pub message_of : DBusGError → Bytes → Option Bytes → Bytes
message_of dbus_gerror_remote_exception name message =
    or_empty_message message ++ (0 ∷ (name ++ (0 ∷ [])))
message_of error_code name none = codes "(null)" ++ 0 ∷ []
message_of error_code name (some message) = message ++ 0 ∷ []

unfoldable pub dbus_set_g_error : (DBusErrorName → Bytes) → Bytes → Option Bytes → MethodError
unfolding dbus_error_to_gerror_code
dbus_set_g_error text name message =
    let error_code = dbus_error_to_gerror_code text name in
    in_dbus_gerror error_code (message_of error_code name message)

-- for an error of the domain and code that it asks for
unfoldable pub error_get_name : Bytes → Outcome Bytes
unfolding strlen advance string_at
error_get_name message = do len ← strlen message; string_at (advance (suc len) message)

pub record DBusGErrorInfo : Type 0 where
  pub default_iface : Option Bytes
  pub code_enum : ℕ

unfoldable pub lookup_error_info : ℕ → List (ℕ × DBusGErrorInfo) → Option DBusGErrorInfo
lookup_error_info domain [] = none
lookup_error_info domain ((key, info) ∷ rest) =
    if key == domain then some info else lookup_error_info domain rest

-- A domain that is registered keeps what it has, with a warning. `is_enum` says which types are
-- enumerations; for another one, or a domain with no string, the function returns.
unfoldable pub error_domain_register :
    (ℕ → Option Bytes)
    → (ℕ → Bool)
    → ℕ
    → Option Bytes
    → ℕ
    → List (ℕ × DBusGErrorInfo)
    → List (ℕ × DBusGErrorInfo)
unfolding lookup_error_info
error_domain_register quark_to_string is_enum domain default_iface code_enum error_metadata =
    let with_domain : List (ℕ × DBusGErrorInfo) = elim (lookup_error_info domain error_metadata) [
      | some info ↦ error_metadata
      | none ↦
          (domain, record { default_iface = default_iface; code_enum = code_enum }) ∷ error_metadata
    ] in
    if is_some (quark_to_string domain) && not (code_enum == 0) && is_enum code_enum
    then with_domain
    else error_metadata

module _ (text : DBusErrorName → Bytes) (quark_to_string : ℕ → Option Bytes)
    (value_nick : ℕ → ℕ → Option Bytes) (error_metadata : List (ℕ × DBusGErrorInfo)) where
  -- The metadata of an object never has a name for an error; `error_code` is the code as a `guint`.
  unfoldable pub gerror_domaincode_to_dbus_error_name : Option Bytes → ℕ → ℕ → Bytes
  unfolding lookup_error_info uscore_to_wincaps uscore_to_wincaps_full decimal
  gerror_domaincode_to_dbus_error_name msg_interface domain error_code =
      let info = lookup_error_info domain error_metadata in
      let registered : Option Bytes = elim info [ none ↦ none | some i ↦ i.default_iface ] in
      let domain_str : Option Bytes = elim registered [ none ↦ msg_interface | some s ↦ some s ] in
      let code_str : Option Bytes = elim info [
        | none ↦ none
        | some i ↦ value_nick i.code_enum error_code
      ] in
      let unmapped =
        codes "org.freedesktop.DBus.GLib.UnmappedError."
        ++ (elim (quark_to_string domain) [ none ↦ [] | some s ↦ uscore_to_wincaps s ++ b'.' ∷ [] ])
        ++ codes "Code"
        ++ decimal error_code in
      elim domain_str [
        | none ↦ unmapped
        | some d ↦ elim code_str [
          | none ↦ unmapped
          | some c ↦ d ++ b'.' ∷ uscore_to_wincaps_full c false false
        ]
      ]

  -- the name and the message of the reply
  unfoldable pub gerror_to_dbus_error_message :
      Option Bytes → Bytes → Option MethodError → Outcome (Bytes × Bytes)
  unfolding error_name_of error_get_name gerror_domaincode_to_dbus_error_name string_at
  gerror_to_dbus_error_message interface member none = ok (
    codes "org.freedesktop.DBus.GLib.ErrorError",
    codes "Method invoked for " ++ member ++ codes " returned FALSE but did not set error",
  )
  gerror_to_dbus_error_message interface member (some (in_domain domain error_code message)) = do
    shown ← string_at message
    ok (gerror_domaincode_to_dbus_error_name interface domain error_code, shown)
  gerror_to_dbus_error_message interface member (some (in_dbus_gerror error_code message)) = do
    name ← elim (error_name_of error_code) [
      | some constant ↦ ok (text constant)
      | none ↦ error_get_name message
    ]
    shown ← string_at message
    ok (name, shown)
