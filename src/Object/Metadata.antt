-- ===== src/Object/Metadata.antt =====
-- dbus/dbus-gobject.c: the string tables of `DBusGObjectInfo`, read entry by entry. Loops over a table
-- are on fuel; an entry is never empty, so the length of the table is enough.
use dbus_glib.Prelude.{
  ℕ, zero, suc, Bool, true, false, not, Option, none, some, List, [], ◌++◌, ◌==◌, length, Bytes,
  codes, str_equal, if◌then◌else◌,
}
use dbus_glib.Outcome.{Outcome, ok, abort, ◌>>=◌}
use dbus_glib.Memory.{strlen, advance, string_at, char_at}
use dbus_glib.Utils.{compare_strings_ignoring_uscore_vs_dash, wincaps_to_uscore}

-- The C function and its marshaller are left out.
pub record DBusGMethodInfo : Type 0 where
  pub data_offset : ℕ

-- `blob` is the field `data`, and `method_infos` has its length with it.
pub record DBusGObjectInfo : Type 0 where
  pub format_version : ℕ
  pub method_infos : List DBusGMethodInfo
  pub blob : Bytes
  pub exported_signals : Option Bytes
  pub exported_properties : Option Bytes

unfoldable pub string_table_next : Bytes → Outcome Bytes
unfolding strlen advance
string_table_next table = do len ← strlen table; ok (advance (suc len) table)

unfoldable pub string_table_lookup : Bytes → ℕ → Outcome Bytes
unfolding string_table_next
string_table_lookup ret zero = ok ret
string_table_lookup ret (suc index) = do
  ret' ← string_table_next ret
  string_table_lookup ret' index

unfoldable pub get_method_data : DBusGObjectInfo → DBusGMethodInfo → Bytes
unfolding advance
get_method_data object method = advance method.data_offset object.blob

unfoldable pub method_interface_from_object_info : DBusGObjectInfo → DBusGMethodInfo → Outcome Bytes
unfolding string_table_lookup get_method_data
method_interface_from_object_info object method =
    string_table_lookup (get_method_data object method) 0

unfoldable pub method_name_from_object_info : DBusGObjectInfo → DBusGMethodInfo → Outcome Bytes
unfolding string_table_lookup get_method_data
method_name_from_object_info object method = string_table_lookup (get_method_data object method) 1

unfoldable pub method_arg_info_from_object_info : DBusGObjectInfo → DBusGMethodInfo → Outcome Bytes
unfolding string_table_lookup get_method_data
method_arg_info_from_object_info object method =
    string_table_lookup (get_method_data object method) 3

pub data RetvalType : Type 0 where
  retval_none retval_noerror retval_error : RetvalType

-- What `arg_iterate` puts behind its pointers, and what it returns.
pub record ArgEntry : Type 0 where
  pub name : Bytes
  pub is_in : Bool
  pub constval : Bool
  pub retval : RetvalType
  pub type : Bytes
  pub next : Bytes

-- Any letter but 'I' is a direction "out", with a warning if it is not 'O'.
abbrev pub inarg_of : ℕ → Bool
inarg_of c = c == b'I'

-- A letter that is not known leaves what was there.
abbrev pub constval_of : ℕ → Bool → Bool
constval_of c constval = if c == b'F' then false else if c == b'C' then true else constval

abbrev pub retval_of : ℕ → RetvalType → RetvalType
retval_of c retval =
    if c == b'N'
    then retval_none
    else if c == b'E'
    then retval_error
    else if c == b'R'
    then retval_noerror
    else retval

-- the two strings that an "out" argument has more, and where the last of the two starts
abbrev pub out_flags : Bytes → Bool → RetvalType → Outcome (Bool × RetvalType × Bytes)
out_flags direction constval retval = do
  const_at ← string_table_next direction
  const_char ← char_at const_at
  retval_at ← string_table_next const_at
  retval_char ← char_at retval_at
  ok (constval_of const_char constval, retval_of retval_char retval, retval_at)

-- `constval` and `retval` are what the caller has there before the call.
unfoldable pub arg_iterate : Bytes → Bool → RetvalType → Outcome ArgEntry
unfolding string_table_next
arg_iterate name constval retval = do
  direction ← string_table_next name
  direction_char ← char_at direction
  flags ←
      if inarg_of direction_char
      then ok (false, retval_none, direction)
      else out_flags direction constval retval
  type ← string_table_next flags.2
  next ← string_table_next type
  ok (record {
    name = name;
    is_in = inarg_of direction_char;
    constval = flags.0;
    retval = flags.1;
    type = type;
    next = next;
  })

abbrev pub same : Bool → Bool → Bool
same true b = b
same false b = not b

-- `while (*arg)`
unfoldable pub dir_signature_loop : ℕ → Bool → Bytes → Bytes → Outcome Bytes
unfolding arg_iterate string_at
dir_signature_loop zero is_in arg ret = abort
dir_signature_loop (suc fuel) is_in arg ret = do
  c ← char_at arg
  elim (c == 0) [
    | true ↦ ok ret
    | false ↦ (do
      entry ← arg_iterate arg false retval_none
      type ← string_at entry.type
      dir_signature_loop fuel is_in entry.next
          (if same entry.is_in is_in then ret ++ type else ret))
  ]

unfoldable pub method_dir_signature_from_object_info :
    DBusGObjectInfo → DBusGMethodInfo → Bool → Outcome Bytes
unfolding method_arg_info_from_object_info dir_signature_loop
method_dir_signature_from_object_info object method is_in = do
  arg ← method_arg_info_from_object_info object method
  dir_signature_loop (suc (length arg)) is_in arg []

unfoldable pub method_input_signature_from_object_info :
    DBusGObjectInfo → DBusGMethodInfo → Outcome Bytes
unfolding method_dir_signature_from_object_info
method_input_signature_from_object_info object method =
    method_dir_signature_from_object_info object method true

unfoldable pub method_output_signature_from_object_info :
    DBusGObjectInfo → DBusGMethodInfo → Outcome Bytes
unfolding method_dir_signature_from_object_info
method_output_signature_from_object_info object method =
    method_dir_signature_from_object_info object method false

pub record SignalEntry : Type 0 where
  pub iface : Bytes
  pub name : Bytes
  pub next : Bytes

unfoldable pub signal_iterate : Bytes → Outcome SignalEntry
unfolding string_table_next
signal_iterate iface = do
  name ← string_table_next iface
  next ← string_table_next name
  ok (record { iface = iface; name = name; next = next })

-- `name_uscored` may be NULL; the access type is the string itself.
pub record PropertyEntry : Type 0 where
  pub iface : Bytes
  pub exported_name : Bytes
  pub name_uscored : Option Bytes
  pub access_type : Bytes
  pub next : Bytes

unfoldable pub property_iterate : Bytes → ℕ → Outcome PropertyEntry
unfolding string_table_next string_at
property_iterate iface format_version = do
  exported_name ← string_table_next iface
  after ← string_table_next exported_name
  if format_version == 1
      then (do
        access_at ← string_table_next after
        access_type ← string_at access_at
        next ← string_table_next access_at
        ok (record {
          iface = iface;
          exported_name = exported_name;
          name_uscored = some after;
          access_type = access_type;
          next = next;
        }))
      else ok (record {
        iface = iface;
        exported_name = exported_name;
        name_uscored = none;
        access_type = codes "readwrite";
        next = after;
      })

-- No name stands for any interface.
abbrev pub iface_fits : Option Bytes → Bytes → Bool
iface_fits none cur = true
iface_fits (some interface_name) cur = str_equal interface_name cur

-- the comparison with the two forms of the name that an entry has
abbrev pub uscore_refuses : Bytes → Option Bytes → Outcome Bool
uscore_refuses property_name none = ok false
uscore_refuses property_name (some at) = do
  cur_uscore ← string_at at
  ok (not (compare_strings_ignoring_uscore_vs_dash property_name cur_uscore))

unfoldable pub property_fits : Bytes → PropertyEntry → Outcome Bool
unfolding string_at compare_strings_ignoring_uscore_vs_dash wincaps_to_uscore
property_fits property_name entry = do
  cur ← string_at entry.exported_name
  if compare_strings_ignoring_uscore_vs_dash property_name cur then ok true else (do
    refused ← uscore_refuses property_name entry.name_uscored
    if refused
        then ok false
        else ok (compare_strings_ignoring_uscore_vs_dash property_name (wincaps_to_uscore cur)))

-- `while (properties_iter != NULL && *properties_iter)`
unfoldable pub property_info_loop : ℕ → ℕ → Option Bytes → Bytes → Bytes → Outcome (Option Bytes)
unfolding property_iterate property_fits string_at
property_info_loop zero version interface_name property_name iter = abort
property_info_loop (suc fuel) version interface_name property_name iter = do
  c ← char_at iter
  elim (c == 0) [
    | true ↦ ok none
    | false ↦ (do
      entry ← property_iterate iter version
      iface ← string_at entry.iface
      found ←
          if iface_fits interface_name iface then property_fits property_name entry else ok false
      elim found [
        | true ↦ ok (some entry.access_type)
        | false ↦ property_info_loop fuel version interface_name property_name entry.next
      ])
  ]

-- `*access_type` if the property was found
unfoldable pub property_info_from_object_info :
    DBusGObjectInfo → Option Bytes → Bytes → Outcome (Option Bytes)
unfolding property_info_loop
property_info_from_object_info object interface_name property_name =
    elim object.exported_properties [
      | none ↦ ok none
      | some iter ↦
          property_info_loop (suc (length iter)) object.format_version interface_name property_name
            iter
    ]
