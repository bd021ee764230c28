-- ===== src/BindingTool/Glue.antt =====
-- dbus/dbus-binding-tool-glib.c: the tables of an exported object, and the C text around them. The
-- channel is what was written to it; a channel that fails is left out. `%d` prints a length that is
-- less than 2 ^ 31.
use dbus_glib.Prelude.{
  ℕ, ◌+◌, ◌%◌, ◌^◌, ◌&&◌, Bool, true, false, not, Option, none, some, List, [], ◌∷◌, ◌++◌, ◌==◌,
  Bytes, length, codes, str_equal, if◌then◌else◌,
}
use dbus_glib.Outcome.{
  Outcome, ok, err, abort, GError, AnnotationFault, const_input, repeated_return, input_return,
  late_return, silent_return, invalid_return, invalid_annotation, guard, ◌>>=◌, ◌>>◌,
}
use dbus_glib.Heap.{load}
use dbus_glib.Utils.{wincaps_to_uscore}
use dbus_glib.Parser.State.{decimal}
use dbus_glib.Idl.Data.{
  ArgInfo, MethodInfo, InterfaceInfo, PropertyInfo, PropertyAccessFlags, ArgDirection, arg_invalid,
  arg_in, arg_out, Store, hash_lookup,
}
use dbus_glib.Types.{gtype_can_signal_error}
use dbus_glib.Signature.{SignatureIter, gtype_from_signature}
use dbus_glib.Idl.Members.{is_in, is_out}
use dbus_glib.BindingTool.Marshallers.{
  c_symbol, async, const, returnval, is_annotated, load_args, compute_marshaller_name,
}

pub record DBusBindingToolCData : Type 0 where
  pub prefix : Option Bytes
  pub channel : Bytes
  pub generated : List Bytes
  pub blob : Bytes
  pub signal_blob : Bytes
  pub property_blob : Bytes
  pub count : ℕ

-- `g_string_append` of a string that may be NULL, which appends nothing
abbrev pub text : Option Bytes → Bytes
text none = []
text (some s) = s

-- a string with its NUL, as it is appended to a blob
abbrev pub c_string : Bytes → Bytes
c_string s = s ++ 0 ∷ []

abbrev pub put : Bytes → DBusBindingToolCData → DBusBindingToolCData
put s data' = record data' { channel = data'.channel ++ s }

abbrev pub direction_letter : ArgDirection → Outcome ℕ
direction_letter arg_in = ok b'I'
direction_letter arg_out = ok b'O'
direction_letter arg_invalid = abort

-- where an argument stands, for its errors
pub record Place : Type 0 where
  pub interface : Bytes
  pub method : Bytes

-- the variables of the loop over the arguments
pub record Entry : Type 0 where
  pub found_retval : Bool
  pub found_out_args : ℕ
  pub blob : Bytes

abbrev pub fault : AnnotationFault → Place → ArgInfo → GError
fault f place arg = invalid_annotation f (text arg.base.name) place.method place.interface

unfoldable pub const_flag : Place → ArgInfo → Outcome Bytes
unfolding is_annotated
const_flag place arg = elim (is_annotated const arg.annotations) [
  | true ↦ (do
    guard (not (is_in arg.direction)) (fault const_input place arg)
    ok (c_string (b'C' ∷ [])))
  | false ↦ ok (if is_out arg.direction then c_string (b'F' ∷ []) else [])
]

abbrev pub method_c_name : Bytes → MethodInfo → Bytes
method_c_name interface_c_name method = elim (hash_lookup c_symbol method.annotations) [
  | some name ↦ name
  | none ↦ interface_c_name ++ b'_' ∷ wincaps_to_uscore (text method.base.name)
]

module _ {I : Type 0} (dbus : SignatureIter I) where
  unfoldable pub retval_letter : Place → ArgInfo → Bytes → Outcome ℕ
  unfolding gtype_from_signature gtype_can_signal_error str_equal
  retval_letter place arg annotation = elim (str_equal [] annotation) [
    | true ↦ ok b'R'
    | false ↦ elim (str_equal (codes "error") annotation) [
      | true ↦ (do
        gtype ← gtype_from_signature dbus arg.type
        guard (gtype_can_signal_error gtype) (fault silent_return place arg)
        ok b'E')
      | false ↦ err (fault invalid_return place arg)
    ]
  ]

  -- the letter of the return value, and whether there was one
  unfoldable pub retval_flag : Place → ArgInfo → Bool → ℕ → Outcome (Bytes × Bool)
  unfolding retval_letter hash_lookup
  retval_flag place arg found_retval found_out_args = elim (hash_lookup returnval arg.annotations) [
    | none ↦ ok (if is_out arg.direction then c_string (b'N' ∷ []) else [], found_retval)
    | some annotation ↦ (do
      guard (not found_retval) (fault repeated_return place arg)
      guard (not (is_in arg.direction)) (fault input_return place arg)
      guard (found_out_args == 1) (fault late_return place arg)
      letter ← retval_letter place arg annotation
      ok (c_string (letter ∷ []), true))
  ]

  unfoldable pub append_arg : Place → ArgInfo → Entry → Outcome Entry
  unfolding const_flag retval_flag
  append_arg place arg entry = do
    letter ← direction_letter arg.direction
    let found_out_args =
        (if is_out arg.direction then entry.found_out_args + 1 else entry.found_out_args) % 2 ^ 32
    const ← const_flag place arg
    retval ← retval_flag place arg entry.found_retval found_out_args
    ok (record {
      found_retval = retval.1;
      found_out_args = found_out_args;
      blob =
          entry.blob
          ++ (c_string (text arg.base.name)
              ++ (c_string (letter ∷ []) ++ (const ++ (retval.0 ++ c_string arg.type))));
    })

  unfoldable pub append_args : Place → List ArgInfo → Entry → Outcome Entry
  unfolding append_arg
  append_args place [] entry = ok entry
  append_args place (arg ∷ args) entry = do
    entry' ← append_arg place arg entry
    append_args place args entry'

  -- the entry of a method in the blob
  unfoldable pub append_method : Place → MethodInfo → Store → Bytes → Outcome Bytes
  unfolding append_args load_args is_annotated
  append_method place method s blob = do
    args ← load_args method.args s
    let head =
        blob
        ++ (c_string place.interface
            ++ (c_string place.method
                ++ c_string ((if is_annotated async method.annotations then b'A' else b'S') ∷ [])))
    entry ←
        append_args place args (record { found_retval = false; found_out_args = 0; blob = head })
    ok (entry.blob ++ 0 ∷ [])

  unfoldable pub generate_method :
      InterfaceInfo
      → Bytes
      → MethodInfo
      → Store
      → DBusBindingToolCData
      → Outcome DBusBindingToolCData
  unfolding compute_marshaller_name append_method hash_lookup wincaps_to_uscore decimal
  generate_method interface interface_c_name method s data' = do
    let place : Place = record {
      interface = text interface.base.name;
      method = text method.base.name;
    }
    marshaller_name ← compute_marshaller_name dbus method (text data'.prefix) s
    blob ← append_method place method s data'.blob
    let row =
        codes "  { (GCallback) "
        ++ method_c_name interface_c_name method
        ++ codes ", "
        ++ marshaller_name
        ++ codes ", "
        ++ decimal (length data'.blob)
        ++ codes " },\n"
    ok (record (put row data') { blob = blob; count = (data'.count + 1) % 2 ^ 32 })

  unfoldable pub generate_methods :
      InterfaceInfo → Bytes → List ℕ → Store → DBusBindingToolCData → Outcome DBusBindingToolCData
  unfolding generate_method
  generate_methods interface interface_c_name [] s data' = ok data'
  generate_methods interface interface_c_name (p ∷ ps) s data' = do
    method ← load s.methods p
    data1 ← generate_method interface interface_c_name method s data'
    generate_methods interface interface_c_name ps s data1

unfoldable pub generate_signals :
    Bytes → List ℕ → Store → DBusBindingToolCData → Outcome DBusBindingToolCData
generate_signals interface [] s data' = ok data'
generate_signals interface (p ∷ ps) s data' = do
  sig ← load s.signals p
  generate_signals interface ps s (record data' {
    signal_blob = data'.signal_blob ++ (c_string interface ++ c_string (text sig.base.name));
  })

-- NULL for a property that can neither be read nor written
unfoldable pub access_string : PropertyAccessFlags → Option Bytes
access_string access_flags =
    if access_flags.property_read && access_flags.property_write
    then some (codes "readwrite")
    else if access_flags.property_read
    then some (codes "read")
    else if access_flags.property_write
    then some (codes "write")
    else none

unfoldable pub property_entry : Bytes → PropertyInfo → Bytes
unfolding access_string wincaps_to_uscore
property_entry interface prop = elim (access_string prop.access) [
  | none ↦ []
  | some access ↦
      c_string interface
      ++ (c_string (text prop.base.name)
          ++ (c_string (wincaps_to_uscore (text prop.base.name)) ++ c_string access))
]

unfoldable pub generate_properties :
    Bytes → List ℕ → Store → DBusBindingToolCData → Outcome DBusBindingToolCData
unfolding property_entry
generate_properties interface [] s data' = ok data'
generate_properties interface (p ∷ ps) s data' = do
  prop ← load s.properties p
  generate_properties interface ps s
      (record data' { property_blob = data'.property_blob ++ property_entry interface prop })
