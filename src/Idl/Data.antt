-- ===== src/Idl/Data.antt =====
-- dbus/dbus-gidl.c and dbus/dbus-gidl.h: the reference-counted description of nodes, interfaces,
-- methods, signals, properties and arguments. Each kind of object has a table from addresses to
-- live objects; reading or writing at an address that holds none is a fault.
use dbus_glib.Prelude.{
  ℕ, ◌+◌, ◌-◌, ◌%◌, ◌^◌, Bool, Option, none, some, List, [], ◌∷◌, Bytes, str_equal, if◌then◌else◌,
}
use dbus_glib.Outcome.{Outcome, ok, ◌>>=◌}
use dbus_glib.Heap.{Table, empty_table}

pub data InfoType : Type 0 where
  info_type_node info_type_interface info_type_method info_type_signal : InfoType
  info_type_arg info_type_property : InfoType

pub data ArgDirection : Type 0 where
  arg_invalid arg_in arg_out : ArgDirection

-- `PropertyAccessFlags`, by its bits
pub record PropertyAccessFlags : Type 0 where
  pub property_read : Bool
  pub property_write : Bool

-- `refcount` is a bit field of 28 bits.
pub record BaseInfo : Type 0 where
  pub refcount : ℕ
  pub type : InfoType
  pub name : Option Bytes

-- `GHashTable` from strings to strings
abbrev pub Annotations : Type 0
Annotations = List (Bytes × Bytes)

pub record NodeInfo : Type 0 where
  pub base : BaseInfo
  pub interfaces : List ℕ
  pub nodes : List ℕ

pub record InterfaceInfo : Type 0 where
  pub base : BaseInfo
  pub annotations : Annotations
  pub methods : List ℕ
  pub signals : List ℕ
  pub properties : List ℕ

pub record MethodInfo : Type 0 where
  pub base : BaseInfo
  pub annotations : Annotations
  pub args : List ℕ

pub record SignalInfo : Type 0 where
  pub base : BaseInfo
  pub args : List ℕ

pub record PropertyInfo : Type 0 where
  pub base : BaseInfo
  pub type : Bytes
  pub access : PropertyAccessFlags

pub record ArgInfo : Type 0 where
  pub base : BaseInfo
  pub type : Bytes
  pub direction : ArgDirection
  pub annotations : Annotations

pub record Store : Type 0 where
  pub nodes : Table NodeInfo
  pub interfaces : Table InterfaceInfo
  pub methods : Table MethodInfo
  pub signals : Table SignalInfo
  pub properties : Table PropertyInfo
  pub args : Table ArgInfo

abbrev pub empty_store : Store
empty_store = record {
  nodes = empty_table;
  interfaces = empty_table;
  methods = empty_table;
  signals = empty_table;
  properties = empty_table;
  args = empty_table;
}

abbrev pub new_base : InfoType → Option Bytes → BaseInfo
new_base type name = record { refcount = 1; type = type; name = name }

-- `base.refcount += 1` and `base.refcount -= 1` on the bit field
abbrev pub base_ref : BaseInfo → BaseInfo
base_ref b = record b { refcount = (b.refcount + 1) % 2 ^ 28 }

abbrev pub base_unref : BaseInfo → BaseInfo
base_unref b = record b { refcount = (b.refcount + 2 ^ 28 - 1) % 2 ^ 28 }

-- `g_hash_table_insert` and `g_hash_table_lookup`
unfoldable pub hash_insert : Bytes → Bytes → Annotations → Annotations
hash_insert k v [] = (k, v) ∷ []
hash_insert k v ((j, w) ∷ m) = if str_equal j k then (k, v) ∷ m else (j, w) ∷ hash_insert k v m

unfoldable pub hash_lookup : Bytes → Annotations → Option Bytes
hash_lookup k [] = none
hash_lookup k ((j, w) ∷ m) = if str_equal j k then some w else hash_lookup k m

-- `get_hash_key` conses each key that `g_hash_table_foreach` visits
abbrev get_hash_key : List Bytes → Bytes × Bytes → List Bytes
get_hash_key list (key, value) = key ∷ list

keys_onto : List Bytes → Annotations → List Bytes
keys_onto list [] = list
keys_onto list (entry ∷ table) = keys_onto (get_hash_key list entry) table

unfoldable pub get_hash_keys : Annotations → List Bytes
unfolding keys_onto
get_hash_keys table = keys_onto [] table

-- `free_interface_list` and its kin: every object of the list loses one reference
unfoldable pub free_list : (ℕ → Store → Outcome Store) → List ℕ → Store → Outcome Store
free_list unref [] s = ok s
free_list unref (p ∷ ps) s = do s' ← unref p s; free_list unref ps s'
