-- ===== src/Utils/Dashes.antt =====
-- `compare_strings_ignoring_uscore_vs_dash` of dbus/dbus-gobject.c as equality of normal forms.
use dbus_glib.Prelude.{ℕ, ◌≡◌, refl, arith, [], ◌∷◌, ◌==◌, map, Bytes, str_equal, if◌then◌else◌}
use dbus_glib.Utils.{compare_strings_ignoring_uscore_vs_dash}

-- '-' becomes '_'
abbrev pub without_dash : ℕ → ℕ
without_dash c = if c == b'-' then b'_' else c

-- The comparison of two names that takes '_' and '-' for the same byte holds exactly when the names are
-- equal once every '-' is a '_'.
pub compare_strings_ignoring_uscore_vs_dash_lem :
    (a b : Bytes)
    → compare_strings_ignoring_uscore_vs_dash a b
      ≡ str_equal (map without_dash a) (map without_dash b)
unfolding compare_strings_ignoring_uscore_vs_dash str_equal
compare_strings_ignoring_uscore_vs_dash_lem [] [] = refl
compare_strings_ignoring_uscore_vs_dash_lem [] (y ∷ b) = refl
compare_strings_ignoring_uscore_vs_dash_lem (x ∷ a) [] = refl
compare_strings_ignoring_uscore_vs_dash_lem (x ∷ a) (y ∷ b) =
    let rest = compare_strings_ignoring_uscore_vs_dash_lem a b in ground arith
