-- ===== src/Utils/Clean.antt =====
-- A name with no NUL has none after `_dbus_gutils_wincaps_to_uscore`.
use dbus_glib.Prelude.{◌≡◌, refl, arith, false, [], ◌∷◌, ◌++◌, Bytes, has_char}
use dbus_glib.Utils.{wincaps_to_uscore, wincaps_loop, wincaps_byte, to_lower}

has_char-append :
    (a b : Bytes) → has_char 0 a ≡ false → has_char 0 b ≡ false → has_char 0 (a ++ b) ≡ false
unfolding has_char
has_char-append [] b h k = k
has_char-append (c ∷ a) b h k = ground (arith, has_char-append a b)

clean-wincaps_loop :
    (caps str : Bytes)
    → has_char 0 str ≡ false
    → has_char 0 caps ≡ false
    → has_char 0 (wincaps_loop str caps) ≡ false
unfolding wincaps_loop has_char
clean-wincaps_loop [] str h k = h
clean-wincaps_loop (c ∷ caps) str h k =
    clean-wincaps_loop caps (wincaps_byte str c)
      (unfold wincaps_byte in
        ground (
          arith,
          has_char-append str (b'_' ∷ to_lower c ∷ []) h,
          has_char-append str (to_lower c ∷ []) h,
          has_char-append str (c ∷ []) h,
        ))
      (ground arith)

pub clean-wincaps_to_uscore :
    (caps : Bytes) → has_char 0 caps ≡ false → has_char 0 (wincaps_to_uscore caps) ≡ false
unfolding wincaps_to_uscore has_char
clean-wincaps_to_uscore caps h = clean-wincaps_loop caps [] refl h
