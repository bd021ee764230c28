-- ===== src/Types.antt =====
-- Types of GObject as dbus/dbus-gtype-specialized.c and dbus/dbus-gvalue-utils.c tell them apart. A
-- specialized type is its container and its members, in place of the name that it is registered by.
use dbus_glib.Prelude.{
  ℕ, zero, suc, Bool, true, false, Option, none, some, Bytes, codes, str_equal, ltb, if◌then◌else◌,
}
use dbus_glib.Outcome.{Outcome, ok, abort, g_assert, ◌>>◌}

mutual
  pub data GType : Type 0 where
    g_type_invalid g_type_none g_type_char g_type_uchar g_type_boolean g_type_long g_type_ulong :
        GType
    g_type_int g_type_uint g_type_int64 g_type_uint64 g_type_float g_type_double : GType
    g_type_string g_type_pointer g_type_boxed g_type_object g_type_strv g_type_value : GType
    g_type_value_array dbus_type_g_object_path dbus_type_g_signature : GType
    specialized : Bytes → GTypes → GType

  pub data GTypes : Type 0 where
    no_types : GTypes
    member : GType → GTypes → GTypes

abbrev pub is_invalid : GType → Bool
is_invalid g_type_invalid = true
is_invalid _ = false

-- `G_TYPE_FUNDAMENTAL`
abbrev pub fundamental : GType → GType
fundamental g_type_strv = g_type_boxed
fundamental g_type_value = g_type_boxed
fundamental g_type_value_array = g_type_boxed
fundamental dbus_type_g_object_path = g_type_boxed
fundamental dbus_type_g_signature = g_type_boxed
fundamental (specialized container types) = g_type_boxed
fundamental t = t

-- `g_type_is_a (t, G_TYPE_OBJECT) || g_type_is_a (t, G_TYPE_BOXED)`
abbrev pub is_a_object_or_boxed : GType → Bool
is_a_object_or_boxed t = elim (fundamental t) [
  | g_type_object ↦ true
  | g_type_boxed ↦ true
  | _ ↦ false
]

-- `fixed_type_get_size`, with the sizes of a 64-bit system
unfoldable pub fixed_type_get_size : GType → ℕ
fixed_type_get_size g_type_char = 1
fixed_type_get_size g_type_uchar = 1
fixed_type_get_size g_type_boolean = 4
fixed_type_get_size g_type_long = 8
fixed_type_get_size g_type_ulong = 8
fixed_type_get_size g_type_int = 4
fixed_type_get_size g_type_uint = 4
fixed_type_get_size g_type_int64 = 8
fixed_type_get_size g_type_uint64 = 8
fixed_type_get_size g_type_float = 4
fixed_type_get_size g_type_double = 8
fixed_type_get_size _ = 0

unfoldable pub g_type_is_fixed : GType → Bool
unfolding fixed_type_get_size
g_type_is_fixed t = ltb 0 (fixed_type_get_size t)

unfoldable pub g_type_fixed_get_size : GType → Outcome ℕ
unfolding g_type_is_fixed fixed_type_get_size
g_type_fixed_get_size t = do g_assert (g_type_is_fixed t); ok (fixed_type_get_size t)

-- The function it finds: NULL for the numbers, `g_str_hash` for strings.
pub data HashFunc : Type 0 where
  null_hash str_hash : HashFunc

-- `*func`, where it returns TRUE
unfoldable pub hash_func_from_gtype : GType → Option HashFunc
hash_func_from_gtype g_type_char = some null_hash
hash_func_from_gtype g_type_uchar = some null_hash
hash_func_from_gtype g_type_boolean = some null_hash
hash_func_from_gtype g_type_int = some null_hash
hash_func_from_gtype g_type_uint = some null_hash
hash_func_from_gtype g_type_string = some str_hash
hash_func_from_gtype dbus_type_g_object_path = some str_hash
hash_func_from_gtype dbus_type_g_signature = some str_hash
hash_func_from_gtype _ = none

unfoldable pub gtype_is_valid_hash_key : GType → Bool
unfolding hash_func_from_gtype
gtype_is_valid_hash_key t = elim (hash_func_from_gtype t) [ none ↦ false | some func ↦ true ]

unfoldable pub gtype_is_valid_hash_value : GType → Bool
gtype_is_valid_hash_value t = elim (fundamental t) [
  | g_type_char ↦ true
  | g_type_uchar ↦ true
  | g_type_boolean ↦ true
  | g_type_int ↦ true
  | g_type_uint ↦ true
  | g_type_double ↦ true
  | g_type_string ↦ true
  | g_type_boxed ↦ true
  | g_type_object ↦ true
  | _ ↦ false
]

unfoldable pub gtype_can_signal_error : GType → Bool
gtype_can_signal_error g_type_boolean = true
gtype_can_signal_error g_type_int = true
gtype_can_signal_error g_type_uint = true
gtype_can_signal_error g_type_string = true
gtype_can_signal_error g_type_boxed = true
gtype_can_signal_error g_type_object = true
gtype_can_signal_error _ = false

pub data DBusGTypeSpecializedType : Type 0 where
  spectype_collection spectype_map spectype_struct : DBusGTypeSpecializedType

-- the containers that `_dbus_g_type_specialized_builtins_init` registers
unfoldable pub specialized_containers : Bytes → Option DBusGTypeSpecializedType
unfolding str_equal
specialized_containers name =
    if str_equal name (codes "GPtrArray")
    then some spectype_collection
    else if str_equal name (codes "GArray")
    then some spectype_collection
    else if str_equal name (codes "GSList")
    then some spectype_collection
    else if str_equal name (codes "GHashTable")
    then some spectype_map
    else if str_equal name (codes "GValueArray")
    then some spectype_struct
    else none

unfoldable pub lookup_or_register_specialized : Bytes → GTypes → GType
unfolding specialized_containers
lookup_or_register_specialized container types = elim (specialized_containers container) [
  | none ↦ g_type_invalid
  | some klass ↦ specialized container types
]

unfoldable pub get_collection : Bytes → GType → GType
unfolding lookup_or_register_specialized
get_collection container specialization =
    lookup_or_register_specialized container (member specialization no_types)

unfoldable pub get_map : Bytes → GType → GType → GType
unfolding lookup_or_register_specialized
get_map container key_specialization value_specialization =
    lookup_or_register_specialized container
      (member key_specialization (member value_specialization no_types))

unfoldable pub get_structv : Bytes → GTypes → GType
unfolding lookup_or_register_specialized
get_structv container types = lookup_or_register_specialized container types

-- `data->klass->type`, and none for a type that is not specialized
unfoldable pub specialized_type : GType → Option DBusGTypeSpecializedType
unfolding specialized_containers
specialized_type (specialized container types) = specialized_containers container
specialized_type _ = none

unfoldable pub is_collection : GType → Bool
unfolding specialized_type
is_collection t = elim (specialized_type t) [ some spectype_collection ↦ true | _ ↦ false ]

unfoldable pub is_map : GType → Bool
unfolding specialized_type
is_map t = elim (specialized_type t) [ some spectype_map ↦ true | _ ↦ false ]

unfoldable pub is_struct : GType → Bool
unfolding specialized_type
is_struct t = elim (specialized_type t) [ some spectype_struct ↦ true | _ ↦ false ]

abbrev types_at : GTypes → ℕ → GType
types_at no_types i = g_type_invalid
types_at (member t ts) zero = t
types_at (member t ts) (suc i) = types_at ts i

abbrev num_types : GTypes → ℕ
num_types no_types = 0
num_types (member t ts) = suc (num_types ts)

-- A type that is not specialized has no data to read.
unfoldable pub get_specialization_index : GType → ℕ → Outcome GType
get_specialization_index (specialized container types) i = ok (types_at types i)
get_specialization_index _ i = abort

-- A failed `g_return_val_if_fail` returns.
unfoldable pub get_collection_specialization : GType → Outcome GType
unfolding is_collection get_specialization_index
get_collection_specialization t =
    if is_collection t then get_specialization_index t 0 else ok g_type_invalid

unfoldable pub get_map_key_specialization : GType → Outcome GType
unfolding is_map get_specialization_index
get_map_key_specialization t = if is_map t then get_specialization_index t 0 else ok g_type_invalid

unfoldable pub get_map_value_specialization : GType → Outcome GType
unfolding is_map get_specialization_index
get_map_value_specialization t =
    if is_map t then get_specialization_index t 1 else ok g_type_invalid

unfoldable pub get_struct_member_type : GType → ℕ → Outcome GType
unfolding is_struct get_specialization_index
get_struct_member_type t i = if is_struct t then get_specialization_index t i else ok g_type_invalid

unfoldable pub get_struct_size : GType → Outcome ℕ
unfolding is_struct
get_struct_size t =
    if is_struct t
    then elim t [ specialized container types ↦ ok (num_types types) | _ ↦ abort ]
    else ok 0
