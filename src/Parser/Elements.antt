-- ===== src/Parser/Elements.antt =====
-- The handlers `parse_node` to `parse_annotation` of dbus/dbus-gparser.c. Each reads the parser and
-- the attributes first, and changes the parser and the store only when all its checks have passed.
pub mod Checks
pub mod Safety
pub mod Annotations
use dbus_glib.Prelude.{
  ℕ, Bool, true, false, not, ◌&&◌, ◌||◌, Option, none, some, List, [], ◌∷◌, ◌++◌, Bytes, str_equal,
  codes, if◌then◌else◌,
}
use dbus_glib.Outcome.{
  Outcome, ok, err, abort, or_abort, guard, ◌>>=◌, ◌>>◌, cannot_put_here, attribute_required,
  must_be_absolute, must_not_be_absolute, not_interface_name, not_member_name, dbus_error,
  bad_access, not_utf8, signal_not_out, bad_direction,
}
use dbus_glib.Heap.{is_some}
use dbus_glib.Idl.Data.{Store, ArgDirection, arg_invalid, arg_in, arg_out, PropertyAccessFlags}
use dbus_glib.Idl.Members.{signal_info_get_n_args, method_info_get_n_args, is_in}
use dbus_glib.Parser.Attach.{
  attach_node, attach_interface, attach_method, attach_signal, attach_property, attach_arg,
  add_annotation,
}
use dbus_glib.Parser.Attributes.{Attributes, locate_attributes}
use dbus_glib.Parser.State.{
  External, Parser, World, in_member, is_cons, top, value_of, required, starts_slash, decimal,
}

abbrev is_none : {A : Type 0} → Option A → Bool
is_none o = not (is_some o)

abbrev is_relative : Option Bytes → Bool
is_relative none = false
is_relative (some name) = not (starts_slash name)

abbrev is_absolute : Option Bytes → Bool
is_absolute none = false
is_absolute (some name) = starts_slash name

abbrev text : Option Bytes → Bytes
text none = []
text (some name) = name

-- The checks of `parse_node`; the root alone may have no name.
unfoldable pub check_node : Bytes → Attributes → Parser → Outcome (Option Bytes)
check_node element_name attributes p = do
  guard (not (is_some p.interface || in_member p || is_some p.arg || p.in_annotation))
      (cannot_put_here element_name)
  slots ← locate_attributes element_name attributes (codes "name" ∷ [])
  let name = value_of slots 0
  guard (not (is_cons p.node_stack && is_none name))
      (attribute_required (codes "name") element_name)
  guard (not (not (is_cons p.node_stack) && is_relative name)) (must_be_absolute (text name))
  guard (not (is_cons p.node_stack && is_absolute name)) (must_not_be_absolute (text name))
  ok name

unfoldable pub parse_node : Bytes → Attributes → World → Outcome World
parse_node element_name attributes w = do
  let p = w.parser
  name ← check_node element_name attributes p
  made ← attach_node p.node_stack name w.store
  ok (record { parser = record p { node_stack = made.0 ∷ p.node_stack }; store = made.1 })

-- The checks of `parse_interface`.
unfoldable pub check_interface : External → Bytes → Attributes → Parser → Outcome Bytes
check_interface ext element_name attributes p = do
  guard
      (not (is_some p.interface || in_member p || is_some p.arg || p.in_annotation)
        && is_cons p.node_stack)
      (cannot_put_here element_name)
  slots ← locate_attributes element_name attributes (codes "name" ∷ [])
  name ← required (codes "name") element_name (value_of slots 0)
  guard (ext.is_interface_name name) (not_interface_name name)
  ok name

unfoldable pub parse_interface : External → Bytes → Attributes → World → Outcome World
parse_interface ext element_name attributes w = do
  let p = w.parser
  name ← check_interface ext element_name attributes p
  node ← or_abort (top p.node_stack)
  made ← attach_interface ext.is_interface_name name node w.store
  ok (record { parser = record p { interface = some made.0 }; store = made.1 })

-- The guard of methods, signals and properties.
abbrev may_open_member : Parser → Bool
may_open_member p =
    is_some p.interface
    && is_cons p.node_stack
    && not (in_member p || p.in_annotation || is_some p.arg)

-- The checks of `parse_method`, and of `parse_signal`.
unfoldable pub check_member : External → Bytes → Attributes → Parser → Outcome Bytes
check_member ext element_name attributes p = do
  guard (may_open_member p) (cannot_put_here element_name)
  slots ← locate_attributes element_name attributes (codes "name" ∷ [])
  name ← required (codes "name") element_name (value_of slots 0)
  guard (ext.is_member_name name) (not_member_name name)
  ok name

unfoldable pub parse_method : External → Bytes → Attributes → World → Outcome World
parse_method ext element_name attributes w = do
  let p = w.parser
  name ← check_member ext element_name attributes p
  iface ← or_abort p.interface
  made ← attach_method ext.is_member_name name iface w.store
  ok (record { parser = record p { method = some made.0 }; store = made.1 })

unfoldable pub parse_signal : External → Bytes → Attributes → World → Outcome World
parse_signal ext element_name attributes w = do
  let p = w.parser
  name ← check_member ext element_name attributes p
  iface ← or_abort p.interface
  made ← attach_signal ext.is_member_name name iface w.store
  ok (record { parser = record p { signal = some made.0 }; store = made.1 })

unfoldable pub validate_signature : External → Bytes → Outcome (Unit {0})
validate_signature ext str = elim (ext.signature_validate str) [
  | none ↦ ok tt
  | some message ↦ err (dbus_error message)
]

unfoldable pub access_flags_of : Bytes → Bytes → Outcome PropertyAccessFlags
access_flags_of element_name access =
    if str_equal access (codes "readwrite")
    then ok (record { property_read = true; property_write = true })
    else if str_equal access (codes "read")
    then ok (record { property_read = true; property_write = false })
    else if str_equal access (codes "write")
    then ok (record { property_read = false; property_write = true })
    else err (bad_access access)

-- The checks of `parse_property`: its name, its type and its access flags.
unfoldable pub check_property :
    External → Bytes → Attributes → Parser → Outcome (Bytes × Bytes × PropertyAccessFlags)
unfolding validate_signature access_flags_of
check_property ext element_name attributes p = do
  guard (may_open_member p) (cannot_put_here element_name)
  slots ←
      locate_attributes element_name attributes (codes "name" ∷ codes "access" ∷ codes "type" ∷ [])
  name ← required (codes "name") element_name (value_of slots 0)
  access ← required (codes "access") element_name (value_of slots 1)
  type ← required (codes "type") element_name (value_of slots 2)
  validate_signature ext type
  access_flags ← access_flags_of element_name access
  guard (ext.utf8_validate name) (not_utf8 name)
  ok (name, type, access_flags)

unfoldable pub parse_property : External → Bytes → Attributes → World → Outcome World
parse_property ext element_name attributes w = do
  let p = w.parser
  found ← check_property ext element_name attributes p
  iface ← or_abort p.interface
  made ← attach_property ext.utf8_validate ext.is_signature found.0 found.1 found.2 iface w.store
  ok (record { parser = record p { property = some made.0 }; store = made.1 })

-- methods default to in, signals to out
abbrev pub direction_text : Parser → Option Bytes → Outcome Bytes
direction_text p (some direction) = ok direction
direction_text p none =
    if is_some p.method
    then ok (codes "in")
    else if is_some p.signal
    then ok (codes "out")
    else abort

abbrev pub direction_of : Bytes → ArgDirection
direction_of direction =
    if str_equal direction (codes "in")
    then arg_in
    else if str_equal direction (codes "out")
    then arg_out
    else arg_invalid

abbrev is_invalid : ArgDirection → Bool
is_invalid arg_invalid = true
is_invalid _ = false

abbrev pub check_direction : Bytes → Parser → ArgDirection → Outcome (Unit {0})
check_direction element_name p dir =
    guard (not (is_invalid dir || is_some p.signal && is_in dir))
      (if is_some p.signal then signal_not_out else bad_direction element_name)

-- the n-th argument that has no name is called after its place
abbrev pub arg_name : Parser → Option Bytes → Store → Outcome Bytes
arg_name p (some name) s = ok name
arg_name p none s = do
  n ← elim p.method [
    | some method ↦ method_info_get_n_args method s
    | none ↦ (do signal ← or_abort p.signal; signal_info_get_n_args signal s)
  ]
  ok (codes "arg" ++ decimal n)

-- The checks of `parse_arg`: its name, which may be missing, its direction and its type.
unfoldable pub check_arg :
    External → Bytes → Attributes → Parser → Outcome (Option Bytes × ArgDirection × Bytes)
unfolding validate_signature
check_arg ext element_name attributes p = do
  guard
      ((is_some p.method || is_some p.signal)
        && is_cons p.node_stack
        && not (is_some p.property || p.in_annotation || is_some p.arg))
      (cannot_put_here element_name)
  slots ←
      locate_attributes element_name attributes
        (codes "name" ∷ codes "type" ∷ codes "direction" ∷ [])
  type ← required (codes "type") element_name (value_of slots 1)
  direction ← direction_text p (value_of slots 2)
  let dir = direction_of direction
  check_direction element_name p dir
  validate_signature ext type
  ok (value_of slots 0, dir, type)

unfoldable pub parse_arg : External → Bytes → Attributes → World → Outcome World
parse_arg ext element_name attributes w = do
  let p = w.parser
  found ← check_arg ext element_name attributes p
  name ← arg_name p found.0 w.store
  made ← attach_arg ext.slist_sort p.method p.signal name found.1 found.2 w.store
  ok (record { parser = record p { arg = some made.0 }; store = made.1 })

-- The checks of `parse_annotation`: its name and its value.
unfoldable pub check_annotation : Bytes → Attributes → Parser → Outcome (Bytes × Bytes)
check_annotation element_name attributes p = do
  guard
      ((is_some p.interface || in_member p || is_some p.arg)
        && is_cons p.node_stack
        && not p.in_annotation)
      (cannot_put_here element_name)
  slots ← locate_attributes element_name attributes (codes "name" ∷ codes "value" ∷ [])
  name ← required (codes "name") element_name (value_of slots 0)
  value ← required (codes "value") element_name (value_of slots 1)
  ok (name, value)

unfoldable pub parse_annotation : Bytes → Attributes → World → Outcome World
parse_annotation element_name attributes w = do
  let p = w.parser
  found ← check_annotation element_name attributes p
  s ← add_annotation p.arg p.method p.interface found.0 found.1 w.store
  ok (record { parser = record p { in_annotation = true }; store = s })
