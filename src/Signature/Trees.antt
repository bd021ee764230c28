-- ===== src/Signature/Trees.antt =====
-- Signatures of D-Bus as trees, the behaviour of libdbus's iterator over them that dbus-glib relies on,
-- and the type of GObject that each complete type has.
use dbus_glib.Prelude.{
  ℕ, suc, ◌+◌, ◌*◌, ◌≤◌, ◌≡◌, arith, true, false, List, [], ◌∷◌, ◌++◌, Bytes, codes, length,
  length-append,
}
use dbus_glib.Types.{
  GType, GTypes, no_types, member, g_type_invalid, g_type_boolean, g_type_uchar, g_type_int,
  g_type_uint, g_type_int64, g_type_uint64, g_type_double, g_type_string, g_type_value,
  dbus_type_g_object_path, dbus_type_g_signature, get_structv,
}
use dbus_glib.Signature.{SignatureIter, array_of, map_of, is_container}

pub data BasicType : Type 0 where
  boolean byte int16 int32 uint16 uint32 int64 uint64 double string : BasicType
  object_path signature unix_fd : BasicType

mutual
  pub data SigType : Type 0 where
    basic : BasicType → SigType
    variant : SigType
    array : SigType → SigType
    dict_entry : SigType → SigType → SigType
    struct : SigType → SigTypes → SigType

  pub data SigTypes : Type 0 where
    none_left : SigTypes
    then_type : SigType → SigTypes → SigTypes

abbrev pub code_of : BasicType → ℕ
code_of boolean = b'b'
code_of byte = b'y'
code_of int16 = b'n'
code_of int32 = b'i'
code_of uint16 = b'q'
code_of uint32 = b'u'
code_of int64 = b'x'
code_of uint64 = b't'
code_of double = b'd'
code_of string = b's'
code_of object_path = b'o'
code_of signature = b'g'
code_of unix_fd = b'h'

abbrev pub typecode : SigType → ℕ
typecode (basic b) = code_of b
typecode variant = b'v'
typecode (array t) = b'a'
typecode (dict_entry k v) = b'e'
typecode (struct t ts) = b'r'

unfoldable mutual
  pub print : SigType → Bytes
  print (basic b) = code_of b ∷ []
  print variant = b'v' ∷ []
  print (array t) = b'a' ∷ print t
  print (dict_entry k v) = b'{' ∷ print k ++ print v ++ b'}' ∷ []
  print (struct t ts) = b'(' ∷ print t ++ print_all ts ++ b')' ∷ []

  pub print_all : SigTypes → Bytes
  print_all none_left = []
  print_all (then_type t ts) = print t ++ print_all ts

-- What libdbus documents of its iterator: where `At i ts`, the complete types `ts` are still to come, and
-- where `AtTop i ts`, they are so in the signature itself, not in a container. Only there is the end read
-- off the iterator; in a container it is known by what `next` returns. Only a signature that
-- `dbus_signature_validate` accepts may be given to `init`.
pub record IterLaws {I : Type 0} (dbus : SignatureIter I) : Type 1 where
  pub At : I → SigTypes → Type 0
  pub AtTop : I → SigTypes → Type 0
  pub top_init :
      (ts : SigTypes) → dbus.validate (print_all ts) ≡ true → AtTop (dbus.init (print_all ts)) ts
  pub top_next :
      {i : I} {t : SigType} {ts : SigTypes} → AtTop i (then_type t ts) → AtTop (dbus.next i).1 ts
  pub top_end : {i : I} → AtTop i none_left → dbus.get_current_type i ≡ 0
  pub at_top : {i : I} {ts : SigTypes} → AtTop i ts → At i ts
  pub at_type :
      {i : I} {t : SigType} {ts : SigTypes}
      → At i (then_type t ts)
      → dbus.get_current_type i ≡ typecode t
  pub at_array :
      {i : I} {t : SigType} {ts : SigTypes}
      → At i (then_type (array t) ts)
      → (rest : SigTypes) × At (dbus.recurse i) (then_type t rest)
  pub at_entry :
      {i : I} {k v : SigType} {ts : SigTypes}
      → At i (then_type (dict_entry k v) ts)
      → At (dbus.recurse i) (then_type k (then_type v none_left))
  pub at_struct :
      {i : I} {t : SigType} {us ts : SigTypes}
      → At i (then_type (struct t us) ts)
      → At (dbus.recurse i) (then_type t us)
  pub at_next :
      {i : I} {t : SigType} {ts : SigTypes} → At i (then_type t ts) → At (dbus.next i).1 ts
  pub next_more :
      {i : I} {t u : SigType} {ts : SigTypes}
      → At i (then_type t (then_type u ts))
      → (dbus.next i).0 ≡ true
  pub next_last : {i : I} {t : SigType} → At i (then_type t none_left) → (dbus.next i).0 ≡ false
  pub basic_types : (b : BasicType) → dbus.type_is_basic (code_of b) ≡ true
  pub container_types : (c : ℕ) → is_container c ≡ true → dbus.type_is_container c ≡ true

abbrev pub basic_gtype : BasicType → GType
basic_gtype boolean = g_type_boolean
basic_gtype byte = g_type_uchar
basic_gtype int16 = g_type_int
basic_gtype int32 = g_type_int
basic_gtype uint16 = g_type_uint
basic_gtype uint32 = g_type_uint
basic_gtype int64 = g_type_int64
basic_gtype uint64 = g_type_uint64
basic_gtype double = g_type_double
basic_gtype string = g_type_string
basic_gtype object_path = dbus_type_g_object_path
basic_gtype signature = dbus_type_g_signature
basic_gtype unix_fd = g_type_invalid

-- The type of each complete type, by its parts.
unfoldable mutual
  unfolding array_of map_of get_structv

  pub gtype_of : SigType → GType
  gtype_of (basic b) = basic_gtype b
  gtype_of variant = g_type_value
  gtype_of (array (dict_entry k v)) = map_of (gtype_of k) (gtype_of v)
  gtype_of (array t) = array_of (gtype_of t)
  gtype_of (dict_entry k v) = g_type_invalid
  gtype_of (struct t ts) = get_structv (codes "GValueArray") (member (gtype_of t) (gtypes_of ts))

  pub gtypes_of : SigTypes → GTypes
  gtypes_of none_left = no_types
  gtypes_of (then_type t ts) = member (gtype_of t) (gtypes_of ts)

abbrev pub list_of : SigTypes → List GType
list_of none_left = []
list_of (then_type t ts) = gtype_of t ∷ list_of ts

abbrev pub count : SigTypes → ℕ
count none_left = 0
count (then_type t ts) = suc (count ts)

-- the calls that the code makes for a complete type, one inside another
unfoldable mutual
  pub need : SigType → ℕ
  need (basic b) = 1
  need variant = 2
  need (array t) = 4 + need t
  need (dict_entry k v) = 1 + (need k + need v)
  need (struct t ts) = 4 + (need t + need_all ts)

  pub need_all : SigTypes → ℕ
  need_all none_left = 0
  need_all (then_type t ts) = 1 + (need t + need_all ts)

mutual
  unfolding need print

  need-le : (t : SigType) → need t + 2 ≤ 4 * length (print t)
  need-le (basic b) = omega arith
  need-le variant = omega arith
  need-le (array t) = omega (arith, need-le t)
  need-le (dict_entry k v) = omega (
    arith,
    need-le k,
    need-le v,
    length-append (print k) (print v ++ b'}' ∷ []),
    length-append (print v) (b'}' ∷ []),
    length-append (print k ++ print v) (b'}' ∷ []),
    length-append (print k) (print v),
  )
  need-le (struct t ts) = omega (
    arith,
    need-le t,
    need_all-le ts,
    length-append (print t) (print_all ts),
    length-append (print t ++ print_all ts) (b')' ∷ []),
  )

  pub need_all-le : (ts : SigTypes) → need_all ts ≤ 4 * length (print_all ts)
  need_all-le none_left = omega arith
  need_all-le (then_type t ts) =
      omega (arith, need-le t, need_all-le ts, length-append (print t) (print_all ts))

pub need-le-fuel : (t : SigType) (ts : SigTypes) → need t ≤ 4 * length (print_all (then_type t ts))
unfolding print
need-le-fuel t ts = omega (arith, need-le t, length-append (print t) (print_all ts))

pub count-le : (ts : SigTypes) → count ts ≤ length (print_all ts)
unfolding print need
count-le none_left = omega arith
count-le (then_type t ts) =
    omega (arith, count-le ts, need-le t, length-append (print t) (print_all ts))
