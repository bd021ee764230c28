-- ===== src/Utils.antt =====
-- dbus/dbus-gutils.c: object paths and names. The C code keeps an index i that only moves forward;
-- here the part of the path from i on stands for it, and `[]` for i == len.
pub mod Paths
pub mod Names
pub mod Dashes
pub mod Clean
use dbus_glib.Prelude.{
  ℕ, zero, suc, ◌+◌, ◌-◌, Bool, true, false, not, ◌&&◌, ◌||◌, List, [], ◌∷◌, ◌++◌, ◌==◌, ltb, leb,
  get_or, length, Bytes, if◌then◌else◌,
}
use dbus_glib.Outcome.{Outcome, ok, abort, g_assert, ◌>>=◌, ◌>>◌}

-- the loop over i that counts the '/'
count_slashes : Bytes → ℕ
count_slashes [] = 0
count_slashes (c ∷ cs) = if c == b'/' then suc (count_slashes cs) else count_slashes cs

-- `path[1] != '\0'`; the byte at 1 of a path of one byte is its NUL
n_components : Bytes → ℕ
n_components path = if get_or path 1 0 == 0 then 0 else count_slashes path

-- the inner loop over j: the component [i, j), and the path from j on
component : Bytes → Bytes × Bytes
component [] = ([], [])
component (c ∷ cs) =
    let (name, rest) = component cs in if c == b'/' then ([], c ∷ cs) else (c ∷ name, rest)

-- `if (path[i] == '/') ++i;`
skip_slash : Bytes → Bytes
skip_slash [] = []
skip_slash (c ∷ cs) = if c == b'/' then cs else c ∷ cs

abbrev pub is_nil : Bytes → Bool
is_nil [] = true
is_nil (c ∷ cs) = false

-- the loop over comp, with the number of components that are still to come
split_loop : ℕ → Bytes → Outcome (List Bytes)
split_loop zero rest = do g_assert (is_nil rest); ok []
split_loop (suc n) rest = do
  let found = component (skip_slash rest)
  g_assert (not (is_nil found.0))
  names ← split_loop n found.1
  ok (found.0 ∷ names)

-- The empty path is no path: `path[1]` would be read behind its NUL, which is out of bounds.
unfoldable pub split_path : Bytes → Outcome (List Bytes)
unfolding n_components split_loop component skip_slash count_slashes
split_path [] = abort
split_path (c ∷ cs) = let n = n_components (c ∷ cs) in split_loop n (if n == 0 then cs else c ∷ cs)

-- `g_ascii_isupper`, `g_ascii_islower`, `g_ascii_tolower`, `g_ascii_toupper`
abbrev pub is_upper : ℕ → Bool
is_upper c = leb b'A' c && leb c b'Z'

abbrev pub is_lower : ℕ → Bool
is_lower c = leb b'a' c && leb c b'z'

abbrev pub to_lower : ℕ → ℕ
to_lower c = if is_upper c then c + 32 else c

abbrev pub to_upper : ℕ → ℕ
to_upper c = if is_lower c then c - 32 else c

-- `str->len > 0 && (str->len < 2 || str->str[str->len-2] != '_')`
wants_uscore : Bytes → Bool
wants_uscore str =
    ltb 0 (length str) && (ltb (length str) 2 || not (get_or str (length str - 2) 0 == b'_'))

-- what the loop of `_dbus_gutils_wincaps_to_uscore` appends to `str` for one byte
wincaps_byte : Bytes → ℕ → Bytes
wincaps_byte str c =
    if is_upper c
    then (if wants_uscore str then str ++ b'_' ∷ to_lower c ∷ [] else str ++ to_lower c ∷ [])
    else str ++ c ∷ []

wincaps_loop : Bytes → Bytes → Bytes
wincaps_loop str [] = str
wincaps_loop str (c ∷ caps) = wincaps_loop (wincaps_byte str c) caps

unfoldable pub wincaps_to_uscore : Bytes → Bytes
unfolding wincaps_loop wincaps_byte wants_uscore
wincaps_to_uscore caps = wincaps_loop [] caps

-- `uscore_to_wincaps_full` of dbus/dbus-gobject.c; the first argument is `last_was_uscore`
uscore_loop : Bool → Bool → Bytes → Bytes → Bytes
uscore_loop last strip str [] = str
uscore_loop last strip str (c ∷ uscore) =
    let skip = c == b'-' || strip && c == b'_' in
    let kept = str ++ (if last then to_upper c else c) ∷ [] in
    uscore_loop skip strip (if skip then str else kept) uscore

unfoldable pub uscore_to_wincaps_full : Bytes → Bool → Bool → Bytes
unfolding uscore_loop
uscore_to_wincaps_full uscore uppercase_first strip_underscores =
    uscore_loop uppercase_first strip_underscores [] uscore

unfoldable pub uscore_to_wincaps : Bytes → Bytes
unfolding uscore_to_wincaps_full
uscore_to_wincaps uscore = uscore_to_wincaps_full uscore true true

-- `compare_strings_ignoring_uscore_vs_dash` of dbus/dbus-gobject.c, to the end of either string
unfoldable pub compare_strings_ignoring_uscore_vs_dash : Bytes → Bytes → Bool
compare_strings_ignoring_uscore_vs_dash (x ∷ a) (y ∷ b) =
    let rest = compare_strings_ignoring_uscore_vs_dash a b in
    if x == b'-' && y == b'_' || x == b'_' && y == b'-'
    then rest
    else if not (x == y)
    then false
    else rest
compare_strings_ignoring_uscore_vs_dash [] [] = true
compare_strings_ignoring_uscore_vs_dash _ _ = false
