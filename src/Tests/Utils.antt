-- ===== src/Tests/Utils.antt =====
-- Runs of dbus/dbus-gutils.c, and its theorems at concrete inputs.
use dbus_glib.Prelude.{◌≡◌, ◌↔◌, refl, true, false, List, [], ◌∷◌, Bytes, codes, has_char}
use dbus_glib.Outcome.{ok, abort}
use dbus_glib.Utils.{split_path, wincaps_to_uscore, uscore_to_wincaps, uscore_to_wincaps_full}
use dbus_glib.Utils.Paths.{PathSplits, split_path_iff}
use dbus_glib.Utils.{compare_strings_ignoring_uscore_vs_dash}
use dbus_glib.Utils.Dashes.{without_dash, compare_strings_ignoring_uscore_vs_dash_lem}
use dbus_glib.Prelude.{map, str_equal}
use dbus_glib.Utils.Names.{
  no_capital, no_capital-wincaps_to_uscore, uscore_to_wincaps-wincaps_to_uscore,
}

abbrev bus_path : Bytes
bus_path = codes "/org/freedesktop/DBus"

abbrev bus_names : List Bytes
bus_names = codes "org" ∷ codes "freedesktop" ∷ codes "DBus" ∷ []

split_path_runs :
    (split_path bus_path ≡ ok bus_names)
    × (split_path (codes "/") ≡ ok [])
    × (split_path (codes "/foo/") ≡ abort)
    × (split_path (codes "foo/bar") ≡ abort)
unfolding split_path
split_path_runs = (refl, refl, refl, refl)

wincaps_runs :
    (wincaps_to_uscore (codes "GetNameOwner") ≡ codes "get_name_owner")
    × (wincaps_to_uscore (codes "FOOBar") ≡ codes "f_oo_bar")
    × (uscore_to_wincaps (codes "get_name-owner") ≡ codes "GetNameOwner")
    × (uscore_to_wincaps_full (codes "file-not_found") false false ≡ codes "fileNot_found")
unfolding wincaps_to_uscore uscore_to_wincaps uscore_to_wincaps_full
wincaps_runs = (refl, refl, refl, refl)

split_path_iff_example : (split_path bus_path ≡ ok bus_names) ↔ PathSplits bus_path bus_names
split_path_iff_example = split_path_iff bus_path bus_names (unfold has_char in refl)

wincaps_example :
    uscore_to_wincaps (wincaps_to_uscore (codes "GetNameOwner")) ≡ codes "GetNameOwner"
wincaps_example = uscore_to_wincaps-wincaps_to_uscore (codes "GetNameOwner") refl refl

no_capital_example : no_capital (wincaps_to_uscore (codes "FOOBar")) ≡ true
no_capital_example = no_capital-wincaps_to_uscore (codes "FOOBar")

compare_strings_example :
    compare_strings_ignoring_uscore_vs_dash (codes "a-b_c") (codes "a_b-c")
    ≡ str_equal (map without_dash (codes "a-b_c")) (map without_dash (codes "a_b-c"))
compare_strings_example =
    compare_strings_ignoring_uscore_vs_dash_lem (codes "a-b_c") (codes "a_b-c")
