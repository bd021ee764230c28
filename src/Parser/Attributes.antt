-- ===== src/Parser/Attributes.antt =====
-- `locate_attributes` of dbus/dbus-gparser.c. The NULL-terminated arrays of names and of values are
-- one list of pairs; the variables behind the `retloc` pointers are the slots that come back.
pub mod Laws
pub mod Totality
use dbus_glib.Prelude.{
  ℕ, Bool, true, false, ◌||◌, Option, none, some, List, [], ◌∷◌, map, Bytes, str_equal, has_char,
  length, leb, if◌then◌else◌,
}
use dbus_glib.Outcome.{
  Outcome, ok, err, g_assert, guard, ◌>>=◌, ◌>>◌, repeated_attribute, invalid_attribute,
}

abbrev pub Attributes : Type 0
Attributes = List (Bytes × Bytes)

abbrev pub Slots : Type 0
Slots = List (Bytes × Option Bytes)

abbrev pub max_attrs : ℕ
max_attrs = 24

-- `*retloc = attribute_values[i]`, or the error if it was written before
fill_slot : Bytes → Bytes × Bytes → Option Bytes → Outcome (Option Bytes)
fill_slot element_name (name, value) none = ok (some value)
fill_slot element_name (name, value) (some old) = err (repeated_attribute name element_name)

-- the loop over j for one attribute; the flag is `found`
match_slots : Bytes → Bytes × Bytes → Bool → Slots → Outcome (Bool × Slots)
match_slots element_name attribute found [] = ok (found, [])
match_slots element_name attribute found ((name, slot) ∷ slots) =
    if str_equal name attribute.0
    then (do
      filled ← fill_slot element_name attribute slot
      rest ← match_slots element_name attribute true slots
      ok (rest.0, (name, filled) ∷ rest.1))
    else (do
      rest ← match_slots element_name attribute found slots
      ok (rest.0, (name, slot) ∷ rest.1))

-- the loop over i
scan_attributes : Bytes → Attributes → Slots → Outcome Slots
scan_attributes element_name [] slots = ok slots
scan_attributes element_name ((name, value) ∷ attributes) slots = do
  matched ← match_slots element_name (name, value) false slots
  guard (matched.0 || has_char b':' name) (invalid_attribute name element_name)
  scan_attributes element_name attributes matched.1

unfoldable pub locate_attributes : Bytes → Attributes → List Bytes → Outcome Slots
unfolding scan_attributes match_slots fill_slot
locate_attributes element_name attributes names = do
  g_assert (leb (length names) max_attrs)
  scan_attributes element_name attributes (map (λ name. (name, none)) names)
