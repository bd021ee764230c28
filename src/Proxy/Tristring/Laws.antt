-- ===== src/Proxy/Tristring/Laws.antt =====
-- The keys of `proxy_lists` are equal when their three strings are, and equal keys have equal hashes.
use dbus_glib.Prelude.{
  ◌+◌, ◌≡◌, refl, ◌∙◌, arith, true, false, ◌&&◌, Option, none, some, [], ◌∷◌, ◌++◌, length, Bytes,
  has_char, str_equal, if◌then◌else◌,
}
use dbus_glib.Outcome.{ok, ◌>>=◌}
use dbus_glib.Memory.{ended, strlen-ended, advance-ended}
use dbus_glib.Proxy.Tristring.{
  memory_equal, strequal_len, string_equal, tristring_equal, string_or_empty,
  tristring_alloc_from_strings,
}

memory_equal-ended :
    (s t r q : Bytes)
    → length s ≡ length t
    → memory_equal (length s) (ended s r) (ended t q) ≡ str_equal s t
unfolding memory_equal str_equal
memory_equal-ended [] [] r q h = refl
memory_equal-ended [] (y ∷ t) r q h = ground arith
memory_equal-ended (x ∷ s) [] r q h = ground arith
memory_equal-ended (x ∷ s) (y ∷ t) r q h = ground (arith, memory_equal-ended s t r q)

str_equal-length : (s t : Bytes) → str_equal s t ≡ true → length s ≡ length t
unfolding str_equal
str_equal-length [] [] h = refl
str_equal-length [] (y ∷ t) h = cc
str_equal-length (x ∷ s) [] h = cc
str_equal-length (x ∷ s) (y ∷ t) h = ground (arith, str_equal-length s t)

pub strequal_len-ended :
    (s t r q : Bytes)
    → has_char 0 s ≡ false
    → has_char 0 t ≡ false
    → strequal_len (ended s r) (ended t q) ≡ ok (if str_equal s t then some (length s) else none)
unfolding strequal_len
strequal_len-ended s t r q hs ht = ground (
  arith,
  strlen-ended s r hs,
  strlen-ended t q ht,
  memory_equal-ended s t r q,
  str_equal-length s t,
)

-- The bytes of three strings that have no NUL in them.
abbrev pub NoNul : Option Bytes → Bytes → Bytes → Type 0
NoNul name path interface =
    (has_char 0 (string_or_empty name) ≡ false)
    × (has_char 0 path ≡ false)
    × (has_char 0 interface ≡ false)

-- The buffer that `tristring_alloc_from_strings` fills.
abbrev tristring : Bytes → Bytes → Bytes → Bytes
tristring name path interface = ended name (ended path (ended interface []))

length-append : (a b : Bytes) → length (a ++ b) ≡ length a + length b
length-append [] b = omega arith
length-append (x ∷ a) b = ground (arith, length-append a b)

append_assoc : (a b c : Bytes) → a ++ b ++ c ≡ a ++ (b ++ c)
append_assoc [] b c = refl
append_assoc (x ∷ a) b c = ground (arith, append_assoc a b c)

length-ended : (before s : Bytes) → length (before ++ s ++ 0 ∷ []) ≡ length before + length s + 1
length-ended before s =
    let whole = length-append (before ++ s) (0 ∷ []) in
    let part = length-append before s in omega arith

-- where each of the three strings ends
lengths :
    (n path interface : Bytes)
    → (length (n ++ 0 ∷ []) ≡ length n + 1)
      × (length (n ++ 0 ∷ [] ++ path ++ 0 ∷ []) ≡ length n + length path + 2)
      × (length (n ++ 0 ∷ [] ++ path ++ 0 ∷ [] ++ interface ++ 0 ∷ [])
          ≡ length n + length path + length interface + 3)
lengths n path interface =
    let first = length-append n (0 ∷ []) in
    let second = length-ended (n ++ 0 ∷ []) path in
    let third = length-ended (n ++ 0 ∷ [] ++ path ++ 0 ∷ []) interface in
    (omega arith, omega arith, omega arith)

ended_append : (before s rest : Bytes) → before ++ s ++ 0 ∷ [] ++ rest ≡ before ++ ended s rest
ended_append before s rest =
    append_assoc (before ++ s) (0 ∷ []) rest ∙ append_assoc before s (0 ∷ rest)

append_nil : (a : Bytes) → a ++ [] ≡ a
append_nil [] = refl
append_nil (x ∷ a) = ground (arith, append_nil a)

joined :
    (n path interface : Bytes)
    → n ++ 0 ∷ [] ++ path ++ 0 ∷ [] ++ interface ++ 0 ∷ [] ≡ tristring n path interface
joined n path interface =
    append_assoc (n ++ 0 ∷ [] ++ path ++ 0 ∷ []) interface (0 ∷ [])
    ∙ ended_append (n ++ 0 ∷ []) path (ended interface [])
    ∙ append_assoc n (0 ∷ []) (ended path (ended interface []))

alloc_tristring :
    (name : Option Bytes) (path interface : Bytes)
    → tristring_alloc_from_strings [] name path interface
      ≡ ok (tristring (string_or_empty name) path interface)
unfolding tristring_alloc_from_strings
alloc_tristring name path interface =
    let (l1, l2, l3) = lengths (string_or_empty name) path interface in
    let whole = joined (string_or_empty name) path interface in ground arith

tristring_equal-tristring :
    (n p i m q j : Bytes)
    → has_char 0 n ≡ false
    → has_char 0 p ≡ false
    → has_char 0 i ≡ false
    → has_char 0 m ≡ false
    → has_char 0 q ≡ false
    → has_char 0 j ≡ false
    → tristring_equal (tristring n p i) (tristring m q j)
      ≡ ok (str_equal n m && str_equal p q && str_equal i j)
unfolding tristring_equal string_equal
tristring_equal-tristring n p i m q j hn hp hi hm hq hj = ground (
  arith,
  strequal_len-ended n m (ended p (ended i [])) (ended q (ended j [])) hn hm,
  advance-ended n (ended p (ended i [])),
  advance-ended m (ended q (ended j [])),
  str_equal-length n m,
  strequal_len-ended p q (ended i []) (ended j []) hp hq,
  advance-ended p (ended i []),
  advance-ended q (ended j []),
  str_equal-length p q,
  strequal_len-ended i j [] [] hi hj,
)

-- The keys that `tristring_alloc_from_strings` makes for two proxies or messages are made with no
-- failed assertion, and `tristring_equal` finds them equal exactly when the names, the paths and the
-- interfaces are: it answers the conjunction of the three tests. A NULL name counts as the empty
-- one. The strings are C strings, with no NUL in them.
pub tristring_equal-alloc :
    (name name' : Option Bytes) (path path' interface interface' : Bytes)
    → NoNul name path interface
    → NoNul name' path' interface'
    → (do
      a ← tristring_alloc_from_strings [] name path interface
      b ← tristring_alloc_from_strings [] name' path' interface'
      tristring_equal a b)
      ≡ ok (
          str_equal (string_or_empty name) (string_or_empty name')
          && str_equal path path'
          && str_equal interface interface')
tristring_equal-alloc name name' path path' interface interface' (hn, hp, hi) (hm, hq, hj) =
    rw (alloc_tristring name path interface, alloc_tristring name' path' interface')
      (tristring_equal-tristring (string_or_empty name) path interface (string_or_empty name') path'
        interface' hn hp hi hm hq hj)
