-- ===== src/Proxy/Tristring.antt =====
-- dbus/dbus-gproxy.c: the keys of `proxy_lists`. A tristring is three NUL-terminated strings one after
-- the other; a pointer into it is the part of the buffer that it leads to, and reading behind
-- the buffer is a fault.
pub mod Laws
pub mod Hash
use dbus_glib.Prelude.{
  ℕ, zero, suc, ◌+◌, ◌-◌, ◌*◌, ◌%◌, ◌^◌, Bool, true, false, not, ◌&&◌, Option, none, some, List, [],
  ◌∷◌, ◌++◌, ◌==◌, ltb, length, Bytes, if◌then◌else◌,
}
use dbus_glib.Outcome.{Outcome, ok, abort, g_assert, ◌>>=◌, ◌>>◌}
use dbus_glib.Memory.{strlen, advance}

-- `memcmp (a, b, len) == 0`
memory_equal : ℕ → Bytes → Bytes → Bool
memory_equal zero a b = true
memory_equal (suc len) (x ∷ a) (y ∷ b) = x == y && memory_equal len a b
memory_equal (suc len) _ _ = false

-- The number is `*lenp`, and `none` stands for FALSE.
pub strequal_len : Bytes → Bytes → Outcome (Option ℕ)
unfolding strlen memory_equal
strequal_len a b = do
  a_len ← strlen a
  b_len ← strlen b
  if not (a_len == b_len)
      then ok none
      else if not (memory_equal a_len a b)
      then ok none
      else ok (some a_len)

-- `strcmp (a, b) == 0`, read from two buffers
string_equal : Bytes → Bytes → Outcome Bool
unfolding strequal_len
string_equal a b = do found ← strequal_len a b; elim found [ none ↦ ok false | some len ↦ ok true ]

unfoldable pub tristring_equal : Bytes → Bytes → Outcome Bool
unfolding strequal_len advance string_equal
tristring_equal ap bp = do
  first ← strequal_len ap bp
  elim first [
    | none ↦ ok false
    | some len ↦ (do
      second ← strequal_len (advance (suc len) ap) (advance (suc len) bp)
      elim second [
        | none ↦ ok false
        | some more ↦
            string_equal (advance (suc more) (advance (suc len) ap))
              (advance (suc more) (advance (suc len) bp))
      ])
  ]

-- a `char`, which is signed, as a `guint`
abbrev guint_of_char : ℕ → ℕ
guint_of_char c = if ltb c 128 then c else c + (2 ^ 32 - 256)

-- `h = (h << 5) - h + *p`
abbrev mix : ℕ → ℕ → ℕ
mix h c = (h * 32 + (2 ^ 32 - h) + guint_of_char c) % 2 ^ 32

-- the loop over one string, and where `p` is behind its NUL
hash_string : ℕ → Bytes → Outcome (ℕ × Bytes)
hash_string h [] = abort
hash_string h (c ∷ p) = let rest = hash_string (mix h c) p in if c == 0 then ok (h, p) else rest

abbrev hash_first : Bytes → Outcome (ℕ × Bytes)
hash_first [] = abort
hash_first (c ∷ p) = if guint_of_char c == 0 then ok (0, p) else hash_string (guint_of_char c) p

unfoldable pub tristring_hash : Bytes → Outcome ℕ
unfolding hash_string
tristring_hash key = do
  first ← hash_first key
  second ← hash_string first.0 first.1
  third ← hash_string second.0 second.1
  ok third.0

abbrev pub string_or_empty : Option Bytes → Bytes
string_or_empty none = []
string_or_empty (some name) = name

-- What stands in the buffer before the strings is `padding`.
unfoldable pub tristring_alloc_from_strings : Bytes → Option Bytes → Bytes → Bytes → Outcome Bytes
tristring_alloc_from_strings padding name path interface = do
  let named = padding ++ string_or_empty name ++ 0 ∷ []
  g_assert (length named == length padding + length (string_or_empty name) + 1)
  let placed = named ++ path ++ 0 ∷ []
  g_assert (length placed == length padding + length (string_or_empty name) + length path + 2)
  let tri = placed ++ interface ++ 0 ∷ []
  g_assert (
      length tri
      == length padding + length (string_or_empty name) + length path + length interface + 3)
  ok tri
