-- ===== src/Object/Lookup/Ifaces.antt =====
-- The metadata that dbus/dbus-gobject.c finds for an interface.
use dbus_glib.Prelude.{
  ℕ, ◌≡◌, refl, sym, ap, ◌∙◌, arith, Bool, true, ◌&&◌, Option, none, some, List, [], ◌∷◌, Bytes,
  Option-cases, inl, inr, if◌then◌else◌,
}
use dbus_glib.Outcome.{Outcome, ok, ◌>>=◌}
use dbus_glib.Object.Metadata.{DBusGObjectInfo}
use dbus_glib.Object.Lookup.{
  GObject, TypeData, foreach_types, foreach_object_info, LookupObjectInfoByIfaceData, no_iface,
  first_iface_is, lookup_object_info_by_iface_cb, lookup_object_info_by_iface,
}

-- whether metadata is one for the interface
abbrev pub wanted : Option Bytes → Bool → DBusGObjectInfo → Outcome Bool
wanted iface fallback info =
    if fallback && no_iface iface then ok true else first_iface_is info.exported_properties iface

abbrev pub Found : Type 0
Found = Option (DBusGObjectInfo × ℕ)

-- the first type with metadata, and with such as fits
unfoldable pub first_info : TypeData → List ℕ → Found
first_info types [] = none
first_info types (t ∷ ts) = elim (types.metadata t) [
  | none ↦ first_info types ts
  | some info ↦ some (info, t)
]

unfoldable pub first_fit : (DBusGObjectInfo → Bool) → TypeData → List ℕ → Found
first_fit fits types [] = none
first_fit fits types (t ∷ ts) =
    let rest = first_fit fits types ts in
    elim (types.metadata t) [ none ↦ rest | some info ↦ if fits info then some (info, t) else rest ]

-- a second choice replaces the first, if it fits
abbrev pub replaced : (DBusGObjectInfo → Bool) → DBusGObjectInfo × ℕ → Found → Found
replaced fits found none = some found
replaced fits found (some (info, t)) = if fits info then some (info, t) else some found

abbrev pub then_classes : (DBusGObjectInfo → Bool) → TypeData → List ℕ → Found → Found
then_classes fits types classes none = first_fit fits types classes
then_classes fits types classes (some found) = replaced fits found (first_info types classes)

abbrev pub chosen : (DBusGObjectInfo → Bool) → TypeData → GObject → Found
chosen fits types object =
    then_classes fits types object.classes (first_fit fits types object.interfaces)

abbrev data_of : Option Bytes → Bool → Found → LookupObjectInfoByIfaceData
data_of iface fallback none = record {
  iface = iface;
  info = none;
  fallback = fallback;
  iface_type = 0;
}
data_of iface fallback (some (info, t)) = record {
  iface = iface;
  info = some info;
  fallback = fallback;
  iface_type = t;
}

found-data_of :
    (iface : Option Bytes) (fallback : Bool) (found : Found)
    → (let d = data_of iface fallback found in
        elim d.info as (λ (i : Option DBusGObjectInfo). Found) [
          | none ↦ none
          | some info ↦ some (info, d.iface_type)
        ])
      ≡ found
found-data_of iface fallback none = refl
found-data_of iface fallback (some (info, t)) = refl

module _ (types : TypeData) (iface : Option Bytes) (fallback : Bool) (fits : DBusGObjectInfo → Bool)
    (h : (t : ℕ) (info : DBusGObjectInfo)
      → types.metadata t ≡ some info
      → wanted iface fallback info ≡ ok (fits info)) where
  foreach-nothing :
      (ts : List ℕ)
      → foreach_types lookup_object_info_by_iface_cb types ts (data_of iface fallback none)
        ≡ ok (data_of iface fallback (first_fit fits types ts))
  unfolding foreach_types lookup_object_info_by_iface_cb first_fit
  foreach-nothing [] = refl
  foreach-nothing (t ∷ ts) = elim (Option-cases (types.metadata t)) [
    | inl plain ↦ ground (arith, plain, foreach-nothing ts)
    | inr (info, here) ↦ ground (arith, here, h t info here, foreach-nothing ts)
  ]

  foreach-found :
      (ts : List ℕ) (found : DBusGObjectInfo × ℕ)
      → foreach_types lookup_object_info_by_iface_cb types ts (data_of iface fallback (some found))
        ≡ ok (data_of iface fallback (replaced fits found (first_info types ts)))
  unfolding foreach_types lookup_object_info_by_iface_cb first_info
  foreach-found [] (old, o) = refl
  foreach-found (t ∷ ts) (old, o) = elim (Option-cases (types.metadata t)) [
    | inl plain ↦ ground (arith, plain, foreach-found ts (old, o))
    | inr (info, here) ↦ ground (arith, here, h t info here)
  ]

-- If `fits` says for the metadata of every type whether it is wanted, which is that there is a fallback
-- and no interface or that the first interface with a property is this one, then the search returns.
-- It finds the first metadata of the interfaces that fits, or else the first of the classes that does;
-- but where an interface has one, the first metadata of a class replaces it if it fits too.
pub lookup_object_info_by_iface_lem :
    (types : TypeData) (object : GObject) (iface : Option Bytes) (fallback : Bool)
    (fits : DBusGObjectInfo → Bool)
    → ((t : ℕ) (info : DBusGObjectInfo)
        → types.metadata t ≡ some info
        → wanted iface fallback info ≡ ok (fits info))
    → lookup_object_info_by_iface types object iface fallback ≡ ok (chosen fits types object)
unfolding lookup_object_info_by_iface foreach_object_info
lookup_object_info_by_iface_lem types object iface fallback fits h =
    let to_classes = λ (d : LookupObjectInfoByIfaceData).
      foreach_types lookup_object_info_by_iface_cb types object.classes d in
    let give = λ (d : LookupObjectInfoByIfaceData).
      ok (elim d.info as (λ (i : Option DBusGObjectInfo). Found) [
        | none ↦ none
        | some info ↦ some (info, d.iface_type)
      ]) in
    let answer = λ (f : Found). ok (then_classes fits types object.classes f) in
    elim (Option-cases (first_fit fits types object.interfaces)) [
      | inl no_interface ↦
          ap (λ o. o >>= to_classes >>= give)
            (foreach-nothing types iface fallback fits h object.interfaces)
          ∙ ap (λ f. to_classes (data_of iface fallback f) >>= give) no_interface
          ∙ ap (λ o. o >>= give) (foreach-nothing types iface fallback fits h object.classes)
          ∙ ap ok (found-data_of iface fallback (first_fit fits types object.classes))
          ∙ ap answer (sym no_interface)
      | inr (found, by_interface) ↦
          ap (λ o. o >>= to_classes >>= give)
            (foreach-nothing types iface fallback fits h object.interfaces)
          ∙ ap (λ f. to_classes (data_of iface fallback f) >>= give) by_interface
          ∙ ap (λ o. o >>= give) (foreach-found types iface fallback fits h object.classes found)
          ∙ ap ok
              (found-data_of iface fallback (replaced fits found (first_info types object.classes)))
          ∙ ap answer (sym by_interface)
    ]
