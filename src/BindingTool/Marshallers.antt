-- ===== src/BindingTool/Marshallers.antt =====
-- dbus/dbus-binding-tool-glib.c: the marshaller of a method. A description is read only: its objects
-- stand in a `Store`, and an address that leads to none is a fault.
use dbus_glib.Prelude.{
  ℕ, Bool, true, false, not, Option, none, some, List, [], ◌∷◌, ◌++◌, Bytes, codes, str_equal,
  if◌then◌else◌,
}
use dbus_glib.Outcome.{Outcome, ok, unsupported_conversion, or_abort, guard, ◌>>=◌, ◌>>◌}
use dbus_glib.Heap.{load, is_some}
use dbus_glib.Idl.Members.{is_in, is_out}
use dbus_glib.Idl.Data.{Annotations, ArgInfo, MethodInfo, Store, hash_lookup}
use dbus_glib.Types.{
  GType, is_invalid, fundamental, g_type_none, g_type_boolean, g_type_uchar, g_type_int,
  g_type_uint, g_type_int64, g_type_uint64, g_type_double, g_type_string, g_type_pointer,
  g_type_boxed, g_type_object,
}
use dbus_glib.Signature.{SignatureIter, gtype_from_signature}

abbrev pub c_symbol : Bytes
c_symbol = codes "org.freedesktop.DBus.GLib.CSymbol"

abbrev pub async : Bytes
async = codes "org.freedesktop.DBus.GLib.Async"

abbrev pub const : Bytes
const = codes "org.freedesktop.DBus.GLib.Const"

abbrev pub returnval : Bytes
returnval = codes "org.freedesktop.DBus.GLib.ReturnVal"

-- `..._info_get_annotation (...) != NULL`
unfoldable pub is_annotated : Bytes → Annotations → Bool
unfolding hash_lookup
is_annotated name annotations = is_some (hash_lookup name annotations)

-- the arguments that the addresses of a method lead to
unfoldable pub load_args : List ℕ → Store → Outcome (List ArgInfo)
load_args [] s = ok []
load_args (p ∷ ps) s = do arg ← load s.args p; args ← load_args ps s; ok (arg ∷ args)

-- `dbus_g_type_get_marshal_name`, NULL for a type that has none
unfoldable pub get_marshal_name : GType → Option Bytes
get_marshal_name gtype = elim (fundamental gtype) [
  | g_type_none ↦ some (codes "NONE")
  | g_type_boolean ↦ some (codes "BOOLEAN")
  | g_type_uchar ↦ some (codes "UCHAR")
  | g_type_int ↦ some (codes "INT")
  | g_type_uint ↦ some (codes "UINT")
  | g_type_int64 ↦ some (codes "INT64")
  | g_type_uint64 ↦ some (codes "UINT64")
  | g_type_double ↦ some (codes "DOUBLE")
  | g_type_string ↦ some (codes "STRING")
  | g_type_pointer ↦ some (codes "POINTER")
  | g_type_boxed ↦ some (codes "BOXED")
  | g_type_object ↦ some (codes "OBJECT")
  | _ ↦ none
]

-- the type of a C function: what it returns and its parameters
pub record Gsignature : Type 0 where
  pub rettype : GType
  pub params : List GType

-- the names of the parameters, with a separator between two
unfoldable pub join_names : ℕ → List GType → Outcome Bytes
unfolding get_marshal_name
join_names separator [] = ok []
join_names separator (t ∷ []) = or_abort (get_marshal_name t)
join_names separator (t ∷ u ∷ ts) = do
  name ← or_abort (get_marshal_name t)
  names ← join_names separator (u ∷ ts)
  ok (name ++ separator ∷ names)

-- A function with no parameter has "NONE" in their place.
unfoldable pub param_names : ℕ → List GType → Outcome Bytes
unfolding join_names get_marshal_name
param_names separator [] = or_abort (get_marshal_name g_type_none)
param_names separator (t ∷ ts) = join_names separator (t ∷ ts)

module _ {I : Type 0} (dbus : SignatureIter I) where
  -- a type from a signature, with the error where there is none
  unfoldable pub type_or_error : Bytes → Outcome GType
  unfolding gtype_from_signature
  type_or_error arg_type = do
    gtype ← gtype_from_signature dbus arg_type
    guard (not (is_invalid gtype)) (unsupported_conversion arg_type)
    ok gtype

  -- the loop that looks for a return value, and whether it signals an error
  unfoldable pub find_retval : List ArgInfo → Outcome (GType × Bool)
  unfolding type_or_error hash_lookup
  find_retval [] = ok (g_type_boolean, true)
  find_retval (arg ∷ args) = elim (hash_lookup returnval arg.annotations) [
    | none ↦ find_retval args
    | some annotation ↦ (do
      retval_type ← type_or_error arg.type
      ok (retval_type, str_equal annotation (codes "error")))
  ]

  unfoldable pub input_types : List ArgInfo → Outcome (List GType)
  unfolding type_or_error
  input_types [] = ok []
  input_types (arg ∷ args) = elim (is_in arg.direction) [
    | false ↦ input_types args
    | true ↦ (do gtype ← type_or_error arg.type; types ← input_types args; ok (gtype ∷ types))
  ]

  -- "append pointer for each out arg storage", but for the return value
  unfoldable pub output_types : List ArgInfo → Outcome (List GType)
  unfolding type_or_error is_annotated
  output_types [] = ok []
  output_types (arg ∷ args) = elim (is_annotated returnval arg.annotations) [
    | true ↦ output_types args
    | false ↦ elim (is_out arg.direction) [
      | false ↦ output_types args
      | true ↦ (do
        gtype ← type_or_error arg.type
        types ← output_types args
        ok (g_type_pointer ∷ types))
    ]
  ]

  -- An asynchronous method takes a context at the end, any other its error if it signals one.
  unfoldable pub compute_gsignature : MethodInfo → Store → Outcome Gsignature
  unfolding is_annotated load_args find_retval input_types output_types
  compute_gsignature method s = do
    args ← load_args method.args s
    elim (is_annotated async method.annotations) [
      | true ↦ (do
        inputs ← input_types args
        ok (record { rettype = g_type_none; params = inputs ++ g_type_pointer ∷ [] }))
      | false ↦ (do
        retval ← find_retval args
        inputs ← input_types args
        outputs ← output_types args
        ok (record {
          rettype = retval.0;
          params = inputs ++ outputs ++ (if retval.1 then g_type_pointer ∷ [] else []);
        }))
    ]

  unfoldable pub compute_marshaller : MethodInfo → Store → Outcome Bytes
  unfolding compute_gsignature param_names get_marshal_name
  compute_marshaller method s = do
    signature ← compute_gsignature method s
    ret ← or_abort (get_marshal_name signature.rettype)
    names ← param_names b',' signature.params
    ok (ret ++ b':' ∷ names)

  unfoldable pub compute_marshaller_name : MethodInfo → Bytes → Store → Outcome Bytes
  unfolding compute_gsignature param_names get_marshal_name
  compute_marshaller_name method prefix s = do
    signature ← compute_gsignature method s
    ret ← or_abort (get_marshal_name signature.rettype)
    names ← param_names b'_' signature.params
    ok (codes "dbus_glib_marshal_" ++ prefix ++ b'_' ∷ ret ++ codes "__" ++ names)
