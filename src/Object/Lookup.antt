-- ===== src/Object/Lookup.antt =====
-- dbus/dbus-gobject.c: which metadata a message to an object is looked up in. A type of GObject is its
-- number, and the types of an object are its interfaces and its class with the classes above it. The
-- version of metadata is not negative.
pub mod Ifaces
pub mod Order
use dbus_glib.Prelude.{
  ℕ, Bool, true, false, not, ◌&&◌, Option, none, some, List, [], ◌∷◌, ◌==◌, Bytes, str_equal,
  if◌then◌else◌,
}
use dbus_glib.Outcome.{Outcome, ok, abort, ◌>>=◌}
use dbus_glib.Memory.{string_at}
use dbus_glib.Heap.{is_some}
use dbus_glib.Utils.{wincaps_to_uscore}
use dbus_glib.Object.Metadata.{
  DBusGObjectInfo, DBusGMethodInfo, method_interface_from_object_info, method_name_from_object_info,
  method_input_signature_from_object_info,
}

-- what `g_type_interfaces` gives, and the walk along `g_type_parent`
pub record GObject : Type 0 where
  pub interfaces : List ℕ
  pub classes : List ℕ

abbrev pub ShadowProps : Type 0
ShadowProps = List (Bytes × Bytes)

-- the data that types carry under the two quarks
pub record TypeData : Type 0 where
  pub metadata : ℕ → Option DBusGObjectInfo
  pub shadow : ℕ → Option ShadowProps

module _ {S : Type 0} (callback : DBusGObjectInfo → ℕ → S → Outcome (Bool × S))
    (types : TypeData) where
  -- one of the two loops, which the callback may end
  unfoldable pub foreach_types : List ℕ → S → Outcome S
  foreach_types [] s = ok s
  foreach_types (t ∷ ts) s = elim (types.metadata t) [
    | none ↦ foreach_types ts s
    | some info ↦ (do
      r ← callback info t s
      elim r.0 [ true ↦ foreach_types ts r.1 | false ↦ ok r.1 ])
  ]

  unfoldable pub foreach_object_info : GObject → S → Outcome S
  unfolding foreach_types
  foreach_object_info object s = do
    s1 ← foreach_types object.interfaces s
    foreach_types object.classes s1

abbrev pub lookup_object_info_cb :
    DBusGObjectInfo → ℕ → List DBusGObjectInfo → Outcome (Bool × List DBusGObjectInfo)
lookup_object_info_cb info gtype list = ok (true, info ∷ list)

unfoldable pub lookup_object_info : TypeData → GObject → Outcome (List DBusGObjectInfo)
unfolding foreach_object_info
lookup_object_info types object = foreach_object_info lookup_object_info_cb types object []

pub record LookupObjectInfoByIfaceData : Type 0 where
  pub iface : Option Bytes
  pub info : Option DBusGObjectInfo
  pub fallback : Bool
  pub iface_type : ℕ

abbrev pub no_iface : Option Bytes → Bool
no_iface none = true
no_iface (some []) = true
no_iface (some (c ∷ cs)) = false

-- `info->exported_properties && !strcmp (info->exported_properties, lookup_data->iface)`
abbrev pub first_iface_is : Option Bytes → Option Bytes → Outcome Bool
first_iface_is none iface = ok false
first_iface_is (some at) none = abort
first_iface_is (some at) (some iface) = do first ← string_at at; ok (str_equal first iface)

unfoldable pub lookup_object_info_by_iface_cb :
    DBusGObjectInfo → ℕ → LookupObjectInfoByIfaceData → Outcome (Bool × LookupObjectInfoByIfaceData)
unfolding string_at str_equal
lookup_object_info_by_iface_cb info gtype data' = do
  fits ←
      if data'.fallback && no_iface data'.iface
      then ok true
      else first_iface_is info.exported_properties data'.iface
  let after : LookupObjectInfoByIfaceData =
      if fits then record data' { info = some info; iface_type = gtype } else data'
  ok (not (is_some after.info), after)

-- the metadata and the type that has it
unfoldable pub lookup_object_info_by_iface :
    TypeData → GObject → Option Bytes → Bool → Outcome (Option (DBusGObjectInfo × ℕ))
unfolding foreach_object_info lookup_object_info_by_iface_cb
lookup_object_info_by_iface types object iface fallback = do
  data' ←
      foreach_object_info lookup_object_info_by_iface_cb types object
        (record { iface = iface; info = none; fallback = fallback; iface_type = 0 })
  ok (elim data'.info [ none ↦ none | some info ↦ some (info, data'.iface_type) ])

-- `is_method_call interface member` is what `dbus_message_is_method_call` says.
pub record Message : Type 0 where
  pub interface : Option Bytes
  pub member : Bytes
  pub signature : Bytes
  pub is_method_call : Bytes → Bytes → Bool

abbrev interface_fits : Option Bytes → Bytes → Outcome Bool
interface_fits none at = ok true
interface_fits (some interface) at = do expected ← string_at at; ok (str_equal expected interface)

unfoldable pub method_fits : DBusGObjectInfo → DBusGMethodInfo → Message → Outcome Bool
unfolding method_interface_from_object_info method_name_from_object_info
    method_input_signature_from_object_info string_at str_equal
method_fits info method message = do
  interface_at ← method_interface_from_object_info info method
  member_at ← method_name_from_object_info info method
  expected_signature ← method_input_signature_from_object_info info method
  fits ← interface_fits message.interface interface_at
  if fits
      then (do
        expected_member ← string_at member_at
        ok (
            str_equal expected_member message.member
            && str_equal expected_signature message.signature))
      else ok false

unfoldable pub find_method :
    DBusGObjectInfo → List DBusGMethodInfo → Message → Outcome (Option DBusGMethodInfo)
unfolding method_fits
find_method info [] message = ok none
find_method info (method ∷ methods) message = do
  fits ← method_fits info method message
  elim fits [ true ↦ ok (some method) | false ↦ find_method info methods message ]

-- `*object_ret` is the last metadata that was looked at.
unfoldable pub find_object_and_method :
    List DBusGObjectInfo
    → Message
    → Option DBusGObjectInfo
    → Outcome (Option DBusGObjectInfo × Option DBusGMethodInfo)
unfolding find_method
find_object_and_method [] message object_ret = ok (object_ret, none)
find_object_and_method (info ∷ infos) message object_ret = do
  found ← find_method info info.method_infos message
  elim found [
    | some method ↦ ok (some info, some method)
    | none ↦ find_object_and_method infos message (some info)
  ]

unfoldable pub lookup_object_and_method :
    TypeData → GObject → Message → Outcome (Option DBusGObjectInfo × Option DBusGMethodInfo)
unfolding lookup_object_info find_object_and_method
lookup_object_and_method types object message = do
  info_list ← lookup_object_info types object
  find_object_and_method info_list message none

-- `TRUE` with both pointers set
abbrev pub both_found :
    Option DBusGObjectInfo × Option DBusGMethodInfo → Option (DBusGObjectInfo × DBusGMethodInfo)
both_found (some info, some method) = some (info, method)
both_found (some info, none) = none
both_found (none, method) = none

-- `g_hash_table_lookup` and `g_hash_table_insert`
unfoldable pub lookup_shadow : Bytes → ShadowProps → Option Bytes
lookup_shadow name [] = none
lookup_shadow name ((key, value) ∷ props) =
    if str_equal key name then some value else lookup_shadow name props

unfoldable pub insert_shadow : Bytes → Bytes → ShadowProps → ShadowProps
insert_shadow name value [] = (name, value) ∷ []
insert_shadow name value ((key, old) ∷ props) =
    if str_equal key name then (key, value) ∷ props else (key, old) ∷ insert_shadow name value props

abbrev shadow_or : Bytes → Option Bytes → Bytes
shadow_or uscore_name none = uscore_name
shadow_or uscore_name (some shadow_prop_name) = shadow_prop_name

unfoldable pub lookup_property_name : TypeData → GObject → Bytes → Bytes → Outcome Bytes
unfolding lookup_object_info_by_iface lookup_shadow wincaps_to_uscore
lookup_property_name types object wincaps_propiface requested_propname = do
  let uscore_name = wincaps_to_uscore requested_propname
  found ← lookup_object_info_by_iface types object (some wincaps_propiface) false
  ok (elim found [
    | none ↦ uscore_name
    | some (info, iface_type) ↦ elim (types.shadow iface_type) [
      | none ↦ uscore_name
      | some props ↦ shadow_or uscore_name (lookup_shadow requested_propname props)
    ]
  ])

abbrev shadow_props_of : Option ShadowProps → ShadowProps
shadow_props_of none = []
shadow_props_of (some props) = props

-- `is_type` says which types are classes or interfaces; for another one the functions return.
unfoldable pub register_shadow_property : (ℕ → Bool) → ℕ → Bytes → Bytes → TypeData → TypeData
unfolding insert_shadow
register_shadow_property is_type iface_type dbus_prop_name shadow_prop_name types =
    let props =
      insert_shadow dbus_prop_name shadow_prop_name (shadow_props_of (types.shadow iface_type)) in
    if is_type iface_type
    then record types { shadow = λ t. if t == iface_type then some props else types.shadow t }
    else types

unfoldable pub install_info : (ℕ → Bool) → ℕ → DBusGObjectInfo → TypeData → TypeData
install_info is_type object_type info types =
    if is_type object_type
    then record types { metadata = λ t. if t == object_type then some info else types.metadata t }
    else types
