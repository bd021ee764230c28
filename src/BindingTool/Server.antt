-- ===== src/BindingTool/Server.antt =====
-- dbus/dbus-binding-tool-glib.c: the walk over a description, and the whole text for the server's side.
-- The walk recurses along the tree of nodes, on fuel for its depth.
use dbus_glib.Prelude.{
  ℕ, zero, suc, ◌||◌, Bool, false, Option, none, some, List, [], ◌∷◌, ◌++◌, ◌==◌, Bytes, codes,
  str_equal, if◌then◌else◌,
}
use dbus_glib.Outcome.{Outcome, ok, abort, ◌>>=◌}
use dbus_glib.Heap.{load}
use dbus_glib.Parser.State.{decimal}
use dbus_glib.Idl.Data.{InterfaceInfo, Store, hash_lookup}
use dbus_glib.Signature.{SignatureIter}
use dbus_glib.BindingTool.Marshallers.{c_symbol, compute_marshaller}
use dbus_glib.BindingTool.Glue.{
  DBusBindingToolCData, text, put, generate_methods, generate_signals, generate_properties,
}

-- a `BaseInfo` that is a node, or else is taken for an interface
pub data Base : Type 0 where
  a_node : ℕ → Base
  an_interface : ℕ → Base

abbrev pub Walk : Type 0
Walk = Base → Store → DBusBindingToolCData → Outcome DBusBindingToolCData

-- `generate_glue_list` and `gather_marshallers_list`
unfoldable pub walk_list :
    Walk → List Base → Store → DBusBindingToolCData → Outcome DBusBindingToolCData
walk_list walk [] s data' = ok data'
walk_list walk (base ∷ list) s data' = do data1 ← walk base s data'; walk_list walk list s data1

abbrev bases : (ℕ → Base) → List ℕ → List Base
bases kind [] = []
bases kind (p ∷ ps) = kind p ∷ bases kind ps

-- the nodes below a node, then its interfaces
unfoldable pub walk_node : Walk → ℕ → Store → DBusBindingToolCData → Outcome DBusBindingToolCData
unfolding walk_list
walk_node walk p s data' = do
  info ← load s.nodes p
  data1 ← walk_list walk (bases a_node info.nodes) s data'
  walk_list walk (bases an_interface info.interfaces) s data1

abbrev interface_c_name : InterfaceInfo → Option Bytes → Option Bytes
interface_c_name interface prefix = elim (hash_lookup c_symbol interface.annotations) [
  | none ↦ prefix
  | some name ↦ some name
]

abbrev mem : Bytes → List Bytes → Bool
mem name [] = false
mem name (x ∷ xs) = str_equal x name || mem name xs

-- every byte as it is, and `\0` for a NUL
unfoldable pub quoted_bytes : Bytes → Bytes
quoted_bytes [] = []
quoted_bytes (c ∷ cs) = if c == 0 then codes "\\0" ++ quoted_bytes cs else c ∷ quoted_bytes cs

unfoldable pub write_quoted_string : Bytes → DBusBindingToolCData → DBusBindingToolCData
unfolding quoted_bytes
write_quoted_string string data' = put (codes "\"" ++ quoted_bytes string ++ codes "\\0\"") data'

-- printf's text for a NULL string
abbrev printed : Option Bytes → Bytes
printed none = codes "(null)"
printed (some s) = s

abbrev lines : List Bytes → Bytes
lines [] = []
lines (x ∷ xs) = x ++ codes "\n" ++ lines xs

module _ {I : Type 0} (dbus : SignatureIter I) where
  -- An interface with no name in C and no prefix is left out.
  unfoldable pub generate_interface :
      ℕ → Store → DBusBindingToolCData → Outcome DBusBindingToolCData
  unfolding generate_methods generate_signals generate_properties hash_lookup
  generate_interface p s data' = do
    interface ← load s.interfaces p
    elim (interface_c_name interface data'.prefix) [
      | none ↦ ok data'
      | some c_name ↦ (do
        data1 ← generate_methods dbus interface c_name interface.methods s data'
        data2 ← generate_signals (text interface.base.name) interface.signals s data1
        generate_properties (text interface.base.name) interface.properties s data2)
    ]

  unfoldable pub generate_glue : ℕ → Walk
  unfolding walk_node generate_interface
  generate_glue fuel (an_interface p) s data' = generate_interface p s data'
  generate_glue zero (a_node p) s data' = abort
  generate_glue (suc fuel) (a_node p) s data' = walk_node (generate_glue fuel) p s data'

  -- The hash table has NULL as the value of every key, so each name is inserted each time; a key that is
  -- there stays.
  unfoldable pub gather_methods :
      List ℕ → Store → DBusBindingToolCData → Outcome DBusBindingToolCData
  unfolding compute_marshaller str_equal
  gather_methods [] s data' = ok data'
  gather_methods (p ∷ ps) s data' = do
    method ← load s.methods p
    marshaller_name ← compute_marshaller dbus method s
    gather_methods ps s (record data' {
      generated =
          if mem marshaller_name data'.generated
          then data'.generated
          else data'.generated ++ marshaller_name ∷ [];
    })

  unfoldable pub gather_interface : ℕ → Store → DBusBindingToolCData → Outcome DBusBindingToolCData
  unfolding gather_methods hash_lookup
  gather_interface p s data' = do
    interface ← load s.interfaces p
    elim (interface_c_name interface data'.prefix) [
      | none ↦ ok data'
      | some c_name ↦ gather_methods interface.methods s data'
    ]

  unfoldable pub gather_marshallers : ℕ → Walk
  unfolding walk_node gather_interface
  gather_marshallers fuel (an_interface p) s data' = gather_interface p s data'
  gather_marshallers zero (a_node p) s data' = abort
  gather_marshallers (suc fuel) (a_node p) s data' = walk_node (gather_marshallers fuel) p s data'

  unfoldable pub generate_glue_toplevel :
      ℕ → ℕ → Store → DBusBindingToolCData → Outcome DBusBindingToolCData
  unfolding generate_glue walk_node write_quoted_string decimal
  generate_glue_toplevel fuel p s data' = do
    let name = printed data'.prefix
    let fresh = record data' { blob = []; signal_blob = []; property_blob = []; count = 0 }
    let opened =
        put (codes "static const DBusGMethodInfo dbus_glib_" ++ name ++ codes "_methods[] = {\n")
          fresh
    rows ← walk_node (generate_glue fuel) p s opened
    let closed = put (codes "};\n\n") rows
    let header =
        put
          (codes "const DBusGObjectInfo dbus_glib_"
            ++ name
            ++ codes "_object_info = {  1,\n"
            ++ codes "  dbus_glib_"
            ++ name
            ++ codes "_methods,\n"
            ++ codes "  "
            ++ decimal rows.count
            ++ codes ",\n")
          closed
    let methods = put (codes ",\n") (write_quoted_string rows.blob header)
    let signals = put (codes ",\n") (write_quoted_string rows.signal_blob methods)
    let properties = write_quoted_string rows.property_blob signals
    ok (put (codes "\n};\n\n") properties)

  -- `foreach` is the order in which the hash table is visited, and `genmarshal` what glib-genmarshal
  -- prints for a prefix and the lines of a file.
  unfoldable pub output_glib_server :
      (List Bytes → List Bytes)
      → (Bytes → Bytes → Outcome Bytes)
      → ℕ
      → ℕ
      → Bytes
      → Store
      → Bytes
      → Outcome Bytes
  unfolding gather_marshallers generate_glue_toplevel
  output_glib_server foreach genmarshal fuel p prefix s channel = do
    let empty : DBusBindingToolCData = record {
      prefix = some prefix;
      channel = channel;
      generated = [];
      blob = [];
      signal_blob = [];
      property_blob = [];
      count = 0;
    }
    gathered ← gather_marshallers fuel (a_node p) s empty
    marshallers ←
        genmarshal (codes "dbus_glib_marshal_" ++ prefix) (lines (foreach gathered.generated))
    let head =
        put
          (codes "/* Generated by dbus-binding-tool; do not edit! */\n\n"
            ++ marshallers
            ++ codes "#include <dbus/dbus-glib.h>\n")
          gathered
    done ← generate_glue_toplevel fuel p s head
    ok done.channel
