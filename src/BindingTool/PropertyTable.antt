-- ===== src/BindingTool/PropertyTable.antt =====
-- The search of dbus/dbus-gobject.c for a property, in the table that
-- dbus/dbus-binding-tool-glib.c writes for the properties of an interface.
use dbus_glib.Prelude.{
  ℕ, suc, ◌≡◌, refl, sym, ap, ◌∙◌, arith, Option, some, List, [], ◌∷◌, ◌++◌, Bytes, length,
  append_assoc, append-nil, length-append,
}
use dbus_glib.Outcome.{Outcome, ok, ◌>>=◌, >>=-congr, >>=_assoc}
use dbus_glib.Heap.{load}
use dbus_glib.Idl.Data.{PropertyInfo, Store}
use dbus_glib.Object.Metadata.{DBusGObjectInfo, property_info_from_object_info, property_info_loop}
use dbus_glib.BindingTool.Glue.{DBusBindingToolCData, property_entry, generate_properties}
use dbus_glib.BindingTool.Properties.{
  Exported, AllNamed, table, find_access, visible-le, loop-table,
}

-- the properties that addresses lead to
unfoldable pub load_properties : Bytes → List ℕ → Store → Outcome (List Exported)
load_properties iface [] s = ok []
load_properties iface (p ∷ ps) s = do
  prop ← load s.properties p
  props ← load_properties iface ps s
  ok ((iface, prop) ∷ props)

abbrev with_table : DBusBindingToolCData → List Exported → DBusBindingToolCData
with_table data' props = record data' { property_blob = data'.property_blob ++ table props }

table-cons :
    (data' : DBusBindingToolCData) (iface : Bytes) (prop : PropertyInfo) (props : List Exported)
    → with_table
        (record data' { property_blob = data'.property_blob ++ property_entry iface prop })
        props
      ≡ with_table data' ((iface, prop) ∷ props)
unfolding table
table-cons data' iface prop props =
    ap (λ (blob : Bytes). record data' { property_blob = blob })
      (append_assoc data'.property_blob (property_entry iface prop) (table props))

generate_properties-table :
    (iface : Bytes) (ps : List ℕ) (s : Store) (data' : DBusBindingToolCData)
    → generate_properties iface ps s data'
      ≡ (do props ← load_properties iface ps s; ok (with_table data' props))
unfolding load_properties generate_properties table
generate_properties-table iface [] s data' = rw (append-nil data'.property_blob) refl
generate_properties-table iface (p ∷ ps) s data' =
    >>=-congr (load s.properties p) _ _ (λ prop.
      generate_properties-table iface ps s
        (record data' { property_blob = data'.property_blob ++ property_entry iface prop })
      ∙ >>=-congr (load_properties iface ps s) _ _
          (λ props. ap ok (table-cons data' iface prop props))
      ∙ sym (>>=_assoc (load_properties iface ps s) _ _))
    ∙ sym (>>=_assoc (load s.properties p) _ _)

table-append : (es fs : List Exported) → table (es ++ fs) ≡ table es ++ table fs
unfolding table
table-append [] fs = refl
table-append ((iface, prop) ∷ es) fs =
    ap (λ (t : Bytes). property_entry iface prop ++ t) (table-append es fs)
    ∙ sym (append_assoc (property_entry iface prop) (table es) (table fs))

pub info-at :
    (object : DBusGObjectInfo) (interface_name : Option Bytes) (wanted : Bytes) {iter : Bytes}
    → object.format_version ≡ 1
    → object.exported_properties ≡ some iter
    → property_info_from_object_info object interface_name wanted
      ≡ property_info_loop (suc (length iter)) 1 interface_name wanted iter
unfolding property_info_from_object_info
info-at object interface_name wanted version here = ground (arith, version, here)

-- If the table of properties so far holds those of `before`, and those of an interface are written
-- into it, where names are C strings and no interface's name is empty, then a search in the table
-- finds the access of the first property that may be read or written, belongs to the interface that is
-- given, if one is, and whose name or whose name in lower case is the given one up to '_' and '-'; it
-- finds nothing if there is none.
pub find_access-generate_properties :
    (iface : Bytes) (ps : List ℕ) (s : Store) (data' : DBusBindingToolCData)
    {data1 : DBusBindingToolCData} (before props : List Exported) (object : DBusGObjectInfo)
    (interface_name : Option Bytes) (wanted rest : Bytes)
    → data'.property_blob ≡ table before
    → load_properties iface ps s ≡ ok props
    → generate_properties iface ps s data' ≡ ok data1
    → AllNamed (before ++ props)
    → object.format_version ≡ 1
    → object.exported_properties ≡ some (data1.property_blob ++ 0 ∷ rest)
    → property_info_from_object_info object interface_name wanted
      ≡ ok (find_access interface_name wanted (before ++ props))
find_access-generate_properties iface ps s data' {data1} before props object interface_name wanted
      rest start loaded written named version here =
    let made : ok (with_table data' props) ≡ ok data1 =
      sym (generate_properties-table iface ps s data' ∙ rw loaded refl) ∙ written in
    let all : data1.property_blob ≡ table (before ++ props) =
      rw (table-append before props, ← start) (sym (ground (arith, made))) in
    let fits = visible-le (before ++ props) in
    info-at object interface_name wanted version here
    ∙ rw all (
        loop-table (before ++ props) interface_name wanted rest
          (suc (length (table (before ++ props) ++ 0 ∷ rest))) named
          (omega (arith, length-append (table (before ++ props)) (0 ∷ rest))))
