-- ===== src/Object/Access.antt =====
-- The access to properties that dbus/dbus-gobject.c grants, where the table of properties is one that
-- dbus/dbus-binding-tool-glib.c writes.
use dbus_glib.Prelude.{
  ℕ, suc, ◌≡◌, refl, ◌∙◌, ◌||◌, if◌then◌else◌, arith, Bool, true, false, not, ◌&&◌, Option, none,
  some, List, [], ◌∷◌, ◌++◌, ◌==◌, has_char, Bytes, codes, length, str_equal, Option-cases,
  Bool-cases, inl, inr, length-append,
}
use dbus_glib.Outcome.{ok, ◌>>=◌, >>=-eq-ok}
use dbus_glib.Object.Metadata.{DBusGObjectInfo, property_info_from_object_info}
use dbus_glib.Object.Lookup.{
  GObject, TypeData, lookup_object_info_by_iface, lookup_object_info_by_iface_cb,
  foreach_object_info,
}
use dbus_glib.Object.Requests.{
  Refusal, interface_not_exported, property_not_exported, not_settable, not_readable, access_of,
  judge_access, check_property_access,
}
use dbus_glib.Idl.Data.{PropertyInfo}
use dbus_glib.Memory.{string_at, string_at-ended}
use dbus_glib.BindingTool.Glue.{access_string, property_entry}
use dbus_glib.BindingTool.Properties.{
  Exported, AllNamed, answers_to, table, find_access, visible-le, loop-table,
}
use dbus_glib.BindingTool.PropertyTable.{info-at}

-- the metadata has the table of these properties
abbrev pub IsTable : List Exported → Bytes → DBusGObjectInfo → Type 0
IsTable props rest info =
    (info.format_version ≡ 1)
    × (info.exported_properties ≡ some (table props ++ 0 ∷ rest))
    × AllNamed props

abbrev access_by_names : Bytes → Bytes → Bytes → List Exported → Option Bytes
access_by_names iface name uscore_name props = elim (find_access (some iface) name props) [
  | some access ↦ some access
  | none ↦ find_access (some iface) uscore_name props
]

-- the first property of an interface that may be read or written and has the name
abbrev pub find_property : Bytes → Bytes → List Exported → Option PropertyInfo
find_property iface name [] = none
find_property iface name ((cur, prop) ∷ props) =
    if (prop.access.property_read || prop.access.property_write)
      && str_equal iface cur
      && answers_to name prop
    then some prop
    else find_property iface name props

-- the property that a request means, under one of two names
abbrev pub described : Bytes → Bytes → Bytes → List Exported → Option PropertyInfo
described iface name uscore_name props = elim (find_property iface name props) [
  | some prop ↦ some prop
  | none ↦ find_property iface uscore_name props
]

-- what the description allows
abbrev pub permits : Bool → PropertyInfo → Bool
permits true prop = prop.access.property_write
permits false prop = prop.access.property_read

abbrev pub refusal_for : Bool → Bytes → Bytes → Refusal
refusal_for true iface name = not_settable name iface
refusal_for false iface name = not_readable name iface

-- the answer that the description gives
abbrev pub verdict : Bytes → Bytes → Bool → Option PropertyInfo → Option Refusal
verdict iface name is_set none = some (property_not_exported name iface)
verdict iface name is_set (some prop) =
    if permits is_set prop then none else some (refusal_for is_set iface name)

-- where properties may be read without a check
abbrev pub decision : Bool → Bytes → Bytes → Bool → Option PropertyInfo → Option Refusal
decision disable_legacy iface name is_set found =
    if not is_set && not disable_legacy then none else verdict iface name is_set found

search-table :
    (props : List Exported) (rest : Bytes) (info : DBusGObjectInfo) (iface name : Bytes)
    → IsTable props rest info
    → property_info_from_object_info info (some iface) name
      ≡ ok (find_access (some iface) name props)
search-table props rest info iface name (version, here, named) =
    info-at info (some iface) name version here
    ∙ loop-table props (some iface) name rest (suc (length (table props ++ 0 ∷ rest))) named
        (omega (arith, visible-le props, length-append (table props) (0 ∷ rest)))

access_of-table :
    (props : List Exported) (rest : Bytes) (info : DBusGObjectInfo) (iface name uscore_name : Bytes)
    → IsTable props rest info
    → access_of info iface name uscore_name ≡ ok (access_by_names iface name uscore_name props)
unfolding access_of
access_of-table props rest info iface name uscore_name h =
    let first = search-table props rest info iface name h in
    let second = search-table props rest info iface uscore_name h in
    elim (Option-cases (find_access (some iface) name props)) [
      | inl nothing ↦ ground (arith, first, second, nothing)
      | inr (access, here) ↦ ground (arith, first, here)
    ]

abbrev access_string_of : Option PropertyInfo → Option Bytes
access_string_of none = none
access_string_of (some prop) = access_string prop.access

find_access-find_property :
    (iface name : Bytes) (props : List Exported)
    → find_access (some iface) name props ≡ access_string_of (find_property iface name props)
unfolding access_string
find_access-find_property iface name [] = refl
find_access-find_property iface name ((cur, prop) ∷ props) =
    ground (arith, find_access-find_property iface name props)

find_property-may :
    (iface name : Bytes) (props : List Exported) {prop : PropertyInfo}
    → find_property iface name props ≡ some prop
    → (prop.access.property_read || prop.access.property_write) ≡ true
find_property-may iface name [] h = cc
find_property-may iface name ((cur, first) ∷ props) {prop} h =
    ground (arith, find_property-may iface name props {prop = prop})

judge_access-verdict :
    (iface name : Bytes) (is_set : Bool) (prop : PropertyInfo)
    → (prop.access.property_read || prop.access.property_write) ≡ true
    → (access : Bytes) × (access_string prop.access ≡ some access)
      × (judge_access iface name is_set access ≡ verdict iface name is_set (some prop))
unfolding access_string str_equal
judge_access-verdict iface name is_set prop may = elim (Bool-cases prop.access.property_read) [
  | inl reads ↦ elim (Bool-cases prop.access.property_write) [
    | inl writes ↦ (codes "readwrite", ground (arith, reads, writes), ground (arith, reads, writes))
    | inr fixed ↦ (codes "read", ground (arith, reads, fixed), ground (arith, reads, fixed))
  ]
  | inr hidden ↦
      let writes : prop.access.property_write ≡ true = ground (arith, hidden, may) in
      (codes "write", ground (arith, hidden, writes), ground (arith, hidden, writes))
]

described-may :
    (iface name uscore_name : Bytes) (props : List Exported) {prop : PropertyInfo}
    → described iface name uscore_name props ≡ some prop
    → (prop.access.property_read || prop.access.property_write) ≡ true
described-may iface name uscore_name props {prop} h = ground (
  arith,
  find_property-may iface name props {prop = prop},
  find_property-may iface uscore_name props {prop = prop},
)

access_by_names-described :
    (iface name uscore_name : Bytes) (props : List Exported)
    → access_by_names iface name uscore_name props
      ≡ access_string_of (described iface name uscore_name props)
access_by_names-described iface name uscore_name props =
    let first = find_access-find_property iface name props in
    let second = find_access-find_property iface uscore_name props in
    elim (Option-cases (find_property iface name props)) [
      | inl nothing ↦ ground (arith, first, second, nothing)
      | inr (prop, here) ↦
          let (a, is, judged) =
            judge_access-verdict iface name true prop (find_property-may iface name props here) in
          ground (arith, first, here, is)
    ]

-- If the metadata found for the interface has a table of properties that the binding tool writes, then
-- the check of an access returns. It grants every reading where properties may be read without a check.
-- Otherwise it finds the first property of the interface that may be read or written and has one of the
-- two names, the requested one before the other, and grants a writing exactly if that property may be
-- written and a reading exactly if it may be read; it refuses both where there is no such property.
pub check_property_access-table :
    (disable_legacy : Bool) (types : TypeData) (object : GObject) (iface name uscore_name : Bytes)
    (is_set : Bool) (info : DBusGObjectInfo) (t : ℕ) (props : List Exported) (rest : Bytes)
    → lookup_object_info_by_iface types object (some iface) true ≡ ok (some (info, t))
    → IsTable props rest info
    → check_property_access disable_legacy types object iface name uscore_name is_set
      ≡ ok (decision disable_legacy iface name is_set (described iface name uscore_name props))
unfolding check_property_access
check_property_access-table disable_legacy types object iface name uscore_name is_set info t props
      rest found h =
    let access = access_of-table props rest info iface name uscore_name h in
    let same = access_by_names-described iface name uscore_name props in
    elim (Option-cases (described iface name uscore_name props)) [
      | inl nothing ↦ ground (arith, found, access, same, nothing)
      | inr (prop, here) ↦
          let (a, is, judged) =
            judge_access-verdict iface name is_set prop
              (described-may iface name uscore_name props here) in
          ground (arith, found, access, same, here, is, judged)
    ]

string_at-append : (p q : Bytes) {s : Bytes} → string_at p ≡ ok s → string_at (p ++ q) ≡ ok s
unfolding string_at
string_at-append [] q h = cc
string_at-append (c ∷ p) q {s} h = elim (Bool-cases (c == 0)) [
  | inl ends ↦ ground (arith, ends)
  | inr goes_on ↦
      let rest : (string_at p >>= λ r. ok (c ∷ r)) ≡ ok s = ground (arith, goes_on) in
      let (s', e, f) = >>=-eq-ok (string_at p) (λ r. ok (c ∷ r)) rest in
      ground (arith, goes_on, string_at-append p q e, f)
]

-- the table starts with the interface of its first property that may be accessed
string_at-table :
    (iface : Bytes) (prop : PropertyInfo) (props : List Exported) (rest : Bytes) {access : Bytes}
    → access_string prop.access ≡ some access
    → has_char 0 iface ≡ false
    → string_at (table ((iface, prop) ∷ props) ++ 0 ∷ rest) ≡ ok iface
unfolding table property_entry
string_at-table iface prop props rest may clean =
    string_at-append (table ((iface, prop) ∷ props)) (0 ∷ rest) (
      string_at-append (property_entry iface prop) (table props) (
        rw (property_entry, may)
          (string_at-append (iface ++ 0 ∷ []) _ (string_at-ended iface [] clean))))

-- If an object has metadata in its class alone, whose table of properties starts with another interface,
-- then writing a property of an interface that is not empty is refused because the interface is not
-- exported, also where the description has that property and lets it be written.
pub check_property_access-later_iface :
    (disable_legacy : Bool) (types : TypeData) (t c : ℕ) (iface name uscore_name first : Bytes)
    (info : DBusGObjectInfo) (prop : PropertyInfo) (props : List Exported) (rest access : Bytes)
    → types.metadata t ≡ some info
    → IsTable ((first, prop) ∷ props) rest info
    → access_string prop.access ≡ some access
    → str_equal first (c ∷ iface) ≡ false
    → check_property_access disable_legacy types
        (record { interfaces = []; classes = t ∷ [] })
        (c ∷ iface)
        name
        uscore_name
        true
      ≡ ok (some (interface_not_exported (c ∷ iface) name))
unfolding check_property_access lookup_object_info_by_iface foreach_object_info
    lookup_object_info_by_iface_cb
check_property_access-later_iface disable_legacy types t c iface name uscore_name first info prop
      props rest access here (version, exported, ((clean, given, named), all)) may other =
    let start = string_at-table first prop props rest may clean in
    ground (arith, here, exported, start, other)
