-- ===== src/Object/Requests.antt =====
-- dbus/dbus-gobject.c: what is done with a message to an object, and the check of the access to a
-- property. What a method, or the reading or writing of a property, does then is left out.
use dbus_glib.Prelude.{
  Bool, true, false, not, ◌&&◌, ◌||◌, Option, none, some, List, [], ◌∷◌, Bytes, codes, str_equal,
  if◌then◌else◌,
}
use dbus_glib.Outcome.{Outcome, ok, ◌>>=◌}
use dbus_glib.Object.Metadata.{DBusGObjectInfo, DBusGMethodInfo, property_info_from_object_info}
use dbus_glib.Object.Lookup.{
  GObject, TypeData, Message, lookup_object_info_by_iface, lookup_object_and_method,
  lookup_property_name, both_found,
}

-- the errors that are sent instead of an answer
pub data Refusal : Type 0 where
  interface_not_exported : Bytes → Bytes → Refusal
  property_not_exported : Bytes → Bytes → Refusal
  not_settable : Bytes → Bytes → Refusal
  not_readable : Bytes → Bytes → Refusal

-- the property's access under one of its two names
unfoldable pub access_of : DBusGObjectInfo → Bytes → Bytes → Bytes → Outcome (Option Bytes)
unfolding property_info_from_object_info
access_of info wincaps_propiface requested_propname uscore_propname = do
  first ← property_info_from_object_info info (some wincaps_propiface) requested_propname
  elim first [
    | some access_type ↦ ok (some access_type)
    | none ↦ property_info_from_object_info info (some wincaps_propiface) uscore_propname
  ]

-- `none` is that the access is granted.
abbrev pub judge_access : Bytes → Bytes → Bool → Bytes → Option Refusal
judge_access wincaps_propiface requested_propname is_set access_type =
    if str_equal access_type (codes "readwrite")
    then none
    else if is_set
    then (if str_equal access_type (codes "read")
        then some (not_settable requested_propname wincaps_propiface)
        else none)
    else if str_equal access_type (codes "write")
    then some (not_readable requested_propname wincaps_propiface)
    else none

unfoldable pub check_property_access :
    Bool → TypeData → GObject → Bytes → Bytes → Bytes → Bool → Outcome (Option Refusal)
unfolding lookup_object_info_by_iface access_of str_equal
check_property_access disable_legacy types object wincaps_propiface requested_propname
      uscore_propname is_set =
    elim (not is_set && not disable_legacy) [
      | true ↦ ok none
      | false ↦ (do
        found ← lookup_object_info_by_iface types object (some wincaps_propiface) true
        elim found [
          | none ↦ ok (some (interface_not_exported wincaps_propiface requested_propname))
          | some (info, iface_type) ↦ (do
            access ← access_of info wincaps_propiface requested_propname uscore_propname
            ok (elim access [
              | none ↦ some (property_not_exported requested_propname wincaps_propiface)
              | some access_type ↦
                  judge_access wincaps_propiface requested_propname is_set access_type
            ]))
        ])
    ]

-- an argument of a message
pub data Argument : Type 0 where
  string_arg : Bytes → Argument
  variant_arg : Argument
  other_arg : Argument

-- What comes of a message; `get_all` has the metadata that is listed.
pub data Reaction : Type 0 where
  introspect : Reaction
  invoke : DBusGObjectInfo → DBusGMethodInfo → Reaction
  not_yet_handled : Reaction
  get_property : Bytes → Reaction
  set_property : Bytes → Reaction
  get_all : DBusGObjectInfo → Bytes → Reaction
  access_denied : Refusal → Reaction
  first_not_interface : Reaction
  second_not_name : Reaction
  third_not_variant : Reaction
  no_such_property : Bytes → Reaction

-- a property that the object has
abbrev pub on_property : Bool → Bytes → List Argument → Reaction
on_property false name args = get_property name
on_property true name [] = third_not_variant
on_property true name (variant_arg ∷ args) = set_property name
on_property true name (string_arg s ∷ args) = third_not_variant
on_property true name (other_arg ∷ args) = third_not_variant

module _ (disable_legacy : Bool) (types : TypeData) (object : GObject)
    (has_property : Bytes → Bool) where
  unfoldable pub get_or_set : Bool → Bytes → List Argument → Outcome Reaction
  unfolding lookup_property_name check_property_access
  get_or_set setter wincaps_propiface [] = ok second_not_name
  get_or_set setter wincaps_propiface (variant_arg ∷ args) = ok second_not_name
  get_or_set setter wincaps_propiface (other_arg ∷ args) = ok second_not_name
  get_or_set setter wincaps_propiface (string_arg requested_propname ∷ args) = do
    s ← lookup_property_name types object wincaps_propiface requested_propname
    refusal ←
        check_property_access disable_legacy types object wincaps_propiface requested_propname s
          setter
    ok (elim refusal [
      | some r ↦ access_denied r
      | none ↦
          if has_property s then on_property setter s args else no_such_property requested_propname
    ])

  unfoldable pub list_properties : Bytes → Outcome Reaction
  unfolding lookup_object_info_by_iface
  list_properties wincaps_propiface = do
    found ← lookup_object_info_by_iface types object (some wincaps_propiface) true
    ok (elim found [
      | none ↦ not_yet_handled
      | some (info, iface_type) ↦ get_all info wincaps_propiface
    ])

  -- a call of `Get`, `Set` or `GetAll`
  unfoldable pub property_call : Bool → Bool → List Argument → Outcome Reaction
  unfolding get_or_set list_properties
  property_call setter getall [] = ok first_not_interface
  property_call setter getall (variant_arg ∷ args) = ok first_not_interface
  property_call setter getall (other_arg ∷ args) = ok first_not_interface
  property_call setter getall (string_arg wincaps_propiface ∷ args) =
      if getall then list_properties wincaps_propiface else get_or_set setter wincaps_propiface args

  unfoldable pub object_registration_message : Message → List Argument → Outcome Reaction
  unfolding lookup_object_and_method property_call
  object_registration_message message args =
      elim (message.is_method_call (codes "org.freedesktop.DBus.Introspectable")
        (codes "Introspect")) [
          | true ↦ ok introspect
          | false ↦ (do
            found ← lookup_object_and_method types object message
            elim (both_found found) [
              | some (info, method) ↦ ok (invoke info method)
              | none ↦
                  (let properties = codes "org.freedesktop.DBus.Properties" in
                    let getter = message.is_method_call properties (codes "Get") in
                    let setter = not getter && message.is_method_call properties (codes "Set") in
                    let getall =
                      not getter
                      && not setter
                      && message.is_method_call properties (codes "GetAll") in
                    elim (setter || getter || getall) [
                      | false ↦ ok not_yet_handled
                      | true ↦ property_call setter getall args
                    ])
            ])
        ]
