-- ===== src/Parser/Attach.antt =====
-- What the handlers of dbus/dbus-gparser.c do once their checks have passed: make an object, add it
-- to the one it belongs to, and give back the reference that its making left.
pub mod Growth
pub mod Args
use Prim.Native.Nat.{Ordering}
use dbus_glib.Prelude.{ℕ, Bool, Option, none, some, List, [], ◌∷◌, Bytes}
use dbus_glib.Outcome.{Outcome, ok, abort, or_abort, ◌>>=◌}
use dbus_glib.Idl.Data.{Store, ArgDirection, PropertyAccessFlags}
use dbus_glib.Idl.Members.{
  arg_info_new, arg_info_unref, arg_info_add_annotation, property_info_new, property_info_unref,
  signal_info_new, signal_info_unref, signal_info_add_arg, method_info_new, method_info_unref,
  method_info_add_annotation, method_info_add_arg,
}
use dbus_glib.Idl.Containers.{
  interface_info_new, interface_info_unref, interface_info_add_annotation,
  interface_info_add_method, interface_info_add_signal, interface_info_add_property, node_info_new,
  node_info_add_node, node_info_add_interface,
}

-- `if (parser->node_stack != NULL) node_info_add_node (parser->node_stack->data, node);`
abbrev pub add_to_top : List ℕ → ℕ → Store → Outcome Store
add_to_top [] node s = ok s
add_to_top (parent ∷ rest) node s = node_info_add_node parent node s

unfoldable pub attach_node : List ℕ → Option Bytes → Store → Outcome (ℕ × Store)
unfolding node_info_new node_info_add_node
attach_node stack name s = do
  let made = node_info_new name s
  s1 ← add_to_top stack made.0 made.1
  ok (made.0, s1)

unfoldable pub attach_interface : (Bytes → Bool) → Bytes → ℕ → Store → Outcome (ℕ × Store)
unfolding interface_info_new node_info_add_interface interface_info_unref
attach_interface is_interface_name name node s = do
  let made = interface_info_new is_interface_name name s
  iface ← or_abort made.0
  s1 ← node_info_add_interface node iface made.1
  s2 ← interface_info_unref iface s1
  ok (iface, s2)

unfoldable pub attach_method : (Bytes → Bool) → Bytes → ℕ → Store → Outcome (ℕ × Store)
unfolding method_info_new interface_info_add_method method_info_unref
attach_method is_member_name name iface s = do
  let made = method_info_new is_member_name name s
  method ← or_abort made.0
  s1 ← interface_info_add_method iface method made.1
  s2 ← method_info_unref method s1
  ok (method, s2)

unfoldable pub attach_signal : (Bytes → Bool) → Bytes → ℕ → Store → Outcome (ℕ × Store)
unfolding signal_info_new interface_info_add_signal signal_info_unref
attach_signal is_member_name name iface s = do
  let made = signal_info_new is_member_name name s
  signal ← or_abort made.0
  s1 ← interface_info_add_signal iface signal made.1
  s2 ← signal_info_unref signal s1
  ok (signal, s2)

unfoldable pub attach_property :
    (Bytes → Bool)
    → (Bytes → Bool)
    → Bytes
    → Bytes
    → PropertyAccessFlags
    → ℕ
    → Store
    → Outcome (ℕ × Store)
unfolding property_info_new interface_info_add_property property_info_unref
attach_property utf8_validate is_signature name type access iface s = do
  let made = property_info_new utf8_validate is_signature name type access s
  property ← or_abort made.0
  s1 ← interface_info_add_property iface property made.1
  s2 ← property_info_unref property s1
  ok (property, s2)

-- the method that is open, else the signal
abbrev pub add_arg :
    ((ℕ → ℕ → Ordering) → List ℕ → List ℕ) → Option ℕ → Option ℕ → ℕ → Store → Outcome Store
add_arg slist_sort (some method) signal arg s = method_info_add_arg slist_sort method arg s
add_arg slist_sort none (some signal) arg s = signal_info_add_arg signal arg s
add_arg slist_sort none none arg s = abort

unfoldable pub attach_arg :
    ((ℕ → ℕ → Ordering) → List ℕ → List ℕ)
    → Option ℕ
    → Option ℕ
    → Bytes
    → ArgDirection
    → Bytes
    → Store
    → Outcome (ℕ × Store)
unfolding arg_info_new method_info_add_arg signal_info_add_arg arg_info_unref
attach_arg slist_sort method signal name dir type s = do
  let made = arg_info_new (some name) dir type s
  s1 ← add_arg slist_sort method signal made.0 made.1
  s2 ← arg_info_unref made.0 s1
  ok (made.0, s2)

-- An annotation goes to the argument, else to the method, else to the interface that is open.
unfoldable pub add_annotation :
    Option ℕ → Option ℕ → Option ℕ → Bytes → Bytes → Store → Outcome Store
unfolding arg_info_add_annotation method_info_add_annotation interface_info_add_annotation
add_annotation (some arg) method iface name value s = arg_info_add_annotation arg name value s
add_annotation none (some method) iface name value s =
    method_info_add_annotation method name value s
add_annotation none none (some iface) name value s =
    interface_info_add_annotation iface name value s
add_annotation none none none name value s = abort
