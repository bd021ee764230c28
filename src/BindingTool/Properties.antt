-- ===== src/BindingTool/Properties.antt =====
-- The table of properties that dbus/dbus-binding-tool-glib.c writes, and the search of
-- dbus/dbus-gobject.c in it.
use dbus_glib.Prelude.{
  ℕ, zero, suc, ◌+◌, ◌≤◌, ◌<◌, ◌≡◌, ◌≢◌, refl, ap, arith, Bool, false, ◌&&◌, ◌||◌, Option, none,
  some, List, [], ◌∷◌, ◌++◌, Bytes, length, has_char, append_assoc, length-append, Option-cases,
  inl, inr, if◌then◌else◌,
}
use dbus_glib.Outcome.{ok}
use dbus_glib.Memory.{ended, string_at-ended}
use dbus_glib.Utils.{wincaps_to_uscore, compare_strings_ignoring_uscore_vs_dash}
use dbus_glib.Utils.Clean.{clean-wincaps_to_uscore}
use dbus_glib.Idl.Data.{PropertyInfo}
use dbus_glib.Object.Metadata.{
  PropertyEntry, property_iterate, property_fits, property_info_loop, iface_fits,
}
use dbus_glib.BindingTool.Glue.{text, c_string, access_string, property_entry}
use dbus_glib.BindingTool.Encoding.{c_string-append}
use dbus_glib.BindingTool.ReadBack.{string_table_next-ended, name_nonzero}

-- an interface and one of its properties
abbrev pub Exported : Type 0
Exported = Bytes × PropertyInfo

abbrev pub name_of : PropertyInfo → Bytes
name_of prop = text prop.base.name

abbrev pub IsNamed : Exported → Type 0
IsNamed (iface, prop) =
    (has_char 0 iface ≡ false) × (iface ≢ []) × (has_char 0 (name_of prop) ≡ false)

abbrev pub AllNamed : List Exported → Type 0
AllNamed [] = Unit
AllNamed (e ∷ es) = IsNamed e × AllNamed es

unfoldable pub table : List Exported → Bytes
unfolding property_entry
table [] = []
table ((iface, prop) ∷ es) = property_entry iface prop ++ table es

-- The name stands for itself and for its lower case form, and '_' for '-'.
abbrev pub answers_to : Bytes → PropertyInfo → Bool
answers_to name prop =
    compare_strings_ignoring_uscore_vs_dash name (name_of prop)
    || compare_strings_ignoring_uscore_vs_dash name (wincaps_to_uscore (name_of prop))

abbrev matches : Option Bytes → Bytes → Exported → Bool
matches interface_name name (iface, prop) = iface_fits interface_name iface && answers_to name prop

-- the access of the first property that may be accessed at all and that is meant
abbrev pub find_access : Option Bytes → Bytes → List Exported → Option Bytes
find_access interface_name name [] = none
find_access interface_name name ((iface, prop) ∷ es) = elim (access_string prop.access) [
  | none ↦ find_access interface_name name es
  | some access ↦
      if matches interface_name name (iface, prop)
      then some access
      else find_access interface_name name es
]

-- a property's entry, with the form of its name that it has
abbrev entry_text : Bytes → Bytes → Bytes → Bytes → Bytes
entry_text iface name access rest =
    ended iface (ended name (ended (wincaps_to_uscore name) (ended access rest)))

abbrev entry_of : Bytes → Bytes → Bytes → Bytes → PropertyEntry
entry_of iface name access rest = record {
  iface = entry_text iface name access rest;
  exported_name = ended name (ended (wincaps_to_uscore name) (ended access rest));
  name_uscored = some (ended (wincaps_to_uscore name) (ended access rest));
  access_type = access;
  next = rest;
}

iterate-entry_text :
    (iface name access rest : Bytes)
    → has_char 0 iface ≡ false
    → has_char 0 name ≡ false
    → has_char 0 access ≡ false
    → property_iterate (entry_text iface name access rest) 1 ≡ ok (entry_of iface name access rest)
unfolding property_iterate
iterate-entry_text iface name access rest ci cn ca =
    rw
      (
        string_table_next-ended iface _ ci,
        string_table_next-ended name _ cn,
        string_table_next-ended (wincaps_to_uscore name) _ (clean-wincaps_to_uscore name cn),
        string_at-ended access rest ca,
        string_table_next-ended access rest ca,
      )
      refl

fits-entry_of :
    (wanted iface name access rest : Bytes)
    → has_char 0 name ≡ false
    → property_fits wanted (entry_of iface name access rest)
      ≡ ok (
          compare_strings_ignoring_uscore_vs_dash wanted name
          || compare_strings_ignoring_uscore_vs_dash wanted (wincaps_to_uscore name))
unfolding property_fits
fits-entry_of wanted iface name access rest cn = ground (
  arith,
  string_at-ended name (ended (wincaps_to_uscore name) (ended access rest)) cn,
  string_at-ended (wincaps_to_uscore name) (ended access rest) (clean-wincaps_to_uscore name cn),
)

property-step :
    (interface_name : Option Bytes) (wanted iface name access rest : Bytes) (fuel : ℕ)
    → has_char 0 iface ≡ false
    → iface ≢ []
    → has_char 0 name ≡ false
    → has_char 0 access ≡ false
    → property_info_loop (suc fuel) 1 interface_name wanted (entry_text iface name access rest) ≡ (
        if iface_fits interface_name iface
          && (compare_strings_ignoring_uscore_vs_dash wanted name
              || compare_strings_ignoring_uscore_vs_dash wanted (wincaps_to_uscore name))
        then ok (some access)
        else property_info_loop fuel 1 interface_name wanted rest)
unfolding property_info_loop
property-step interface_name wanted iface name access rest fuel ci ne cn ca =
    let (c, at, nonzero) =
      name_nonzero iface (ended name (ended (wincaps_to_uscore name) (ended access rest))) ci ne in
    ground (
      arith,
      at,
      nonzero,
      iterate-entry_text iface name access rest ci cn ca,
      string_at-ended iface (ended name (ended (wincaps_to_uscore name) (ended access rest))) ci,
      fits-entry_of wanted iface name access rest cn,
    )

access-clean :
    (prop : PropertyInfo) {access : Bytes}
    → access_string prop.access ≡ some access
    → has_char 0 access ≡ false
unfolding access_string has_char
access-clean prop h = ground arith

entry-text :
    (iface : Bytes) (prop : PropertyInfo) {access : Bytes} (more rest : Bytes)
    → access_string prop.access ≡ some access
    → property_entry iface prop ++ more ++ rest
      ≡ entry_text iface (name_of prop) access (more ++ rest)
unfolding property_entry
entry-text iface prop {access} more rest h =
    let name = name_of prop in
    let uscored = wincaps_to_uscore name in
    let end = more ++ rest in
    rw
      (
        property_entry,
        h,
        append_assoc (c_string iface ++ (c_string name ++ (c_string uscored ++ c_string access)))
            more rest,
        append_assoc (c_string iface) (c_string name ++ (c_string uscored ++ c_string access)) end,
        append_assoc (c_string name) (c_string uscored ++ c_string access) end,
        append_assoc (c_string uscored) (c_string access) end,
        c_string-append access end,
        c_string-append uscored (ended access end),
        c_string-append name (ended uscored (ended access end)),
        c_string-append iface (ended name (ended uscored (ended access end))),
      )
      refl

entry-none :
    (iface : Bytes) (prop : PropertyInfo)
    → access_string prop.access ≡ none
    → property_entry iface prop ≡ []
unfolding property_entry
entry-none iface prop h = ground arith

property-end :
    (interface_name : Option Bytes) (wanted rest : Bytes) (fuel : ℕ)
    → property_info_loop (suc fuel) 1 interface_name wanted (0 ∷ rest) ≡ ok none
unfolding property_info_loop
property-end interface_name wanted rest fuel = refl

-- 1 for a property that has an entry
abbrev entries : PropertyInfo → ℕ
entries prop = elim (access_string prop.access) [ none ↦ 0 | some access ↦ 1 ]

abbrev pub visible : List Exported → ℕ
visible [] = 0
visible ((iface, prop) ∷ es) = entries prop + visible es

entries-none : (prop : PropertyInfo) → access_string prop.access ≡ none → entries prop ≡ 0
entries-none prop h = ground (arith, h)

entries-some :
    (prop : PropertyInfo) {access : Bytes}
    → access_string prop.access ≡ some access
    → entries prop ≡ 1
entries-some prop h = ground (arith, h)

module _ (interface_name : Option Bytes) (wanted iface : Bytes) (prop : PropertyInfo)
    (es : List Exported) where
  find_access-none :
      access_string prop.access ≡ none
      → find_access interface_name wanted ((iface, prop) ∷ es)
        ≡ find_access interface_name wanted es
  find_access-none h = ground (arith, h)

  find_access-some :
      {access : Bytes}
      → access_string prop.access ≡ some access
      → (if matches interface_name wanted (iface, prop)
          then ok (some access)
          else ok (find_access interface_name wanted es))
        ≡ ok (find_access interface_name wanted ((iface, prop) ∷ es))
  find_access-some h = ground (arith, h)

pub loop-table :
    (es : List Exported) (interface_name : Option Bytes) (wanted rest : Bytes) (fuel : ℕ)
    → AllNamed es
    → visible es < fuel
    → property_info_loop fuel 1 interface_name wanted (table es ++ 0 ∷ rest)
      ≡ ok (find_access interface_name wanted es)
unfolding table
loop-table es interface_name wanted rest zero named h = absurd (omega arith)
loop-table [] interface_name wanted rest (suc fuel) named h =
    property-end interface_name wanted rest fuel
loop-table ((iface, prop) ∷ es) interface_name wanted rest (suc fuel) ((ci, ne, cn), more) h =
    elim (Option-cases (access_string prop.access)) [
      | inl hidden ↦
          rw
            (
              entry-none iface prop hidden,
              find_access-none interface_name wanted iface prop es hidden,
            )
            (loop-table es interface_name wanted rest (suc fuel) more
              (omega (arith, entries-none prop hidden)))
      | inr (access, a) ↦
          let step =
            property-step interface_name wanted iface (name_of prop) access (table es ++ 0 ∷ rest)
              fuel ci ne cn (access-clean prop a) in
          let later =
            loop-table es interface_name wanted rest fuel more
              (omega (arith, entries-some prop a)) in
          rw (entry-text iface prop (table es) (0 ∷ rest) a, step, later)
            (find_access-some interface_name wanted iface prop es a)
    ]

entries-le :
    (iface : Bytes) (prop : PropertyInfo) → entries prop ≤ length (property_entry iface prop)
entries-le iface prop = elim (Option-cases (access_string prop.access)) [
  | inl hidden ↦ omega (arith, entries-none prop hidden)
  | inr (access, a) ↦
      let shape = entry-text iface prop [] [] a in
      omega (
        arith,
        entries-some prop a,
        ap length shape,
        length-append (property_entry iface prop ++ []) [],
        length-append (property_entry iface prop) [],
        length-append iface
            (0 ∷ ended (name_of prop) (ended (wincaps_to_uscore (name_of prop)) (ended access []))),
      )
]

pub visible-le : (es : List Exported) → visible es ≤ length (table es)
unfolding table
visible-le [] = omega arith
visible-le ((iface, prop) ∷ es) = omega (
  arith,
  entries-le iface prop,
  visible-le es,
  length-append (property_entry iface prop) (table es),
)
