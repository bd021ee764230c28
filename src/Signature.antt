-- ===== src/Signature.antt =====
-- dbus/dbus-gsignature.c: from the signatures of D-Bus to types of GObject. The iterator over a
-- signature is libdbus's and is a parameter; so are its two tests on typecodes. The functions call one
-- another along the nesting of the signature, on fuel.
pub mod Trees
pub mod Refinement
pub mod Errors
use dbus_glib.Prelude.{
  ℕ, zero, suc, ◌*◌, Bool, true, false, not, ◌&&◌, ◌||◌, ◌==◌, Bytes, codes, length, List, [], ◌∷◌,
  ◌++◌, if◌then◌else◌,
}
use dbus_glib.Outcome.{Outcome, ok, abort, g_assert, ◌>>=◌, ◌>>◌}
use dbus_glib.Types.{
  GType, GTypes, no_types, member, is_invalid, is_a_object_or_boxed, g_type_invalid, g_type_boolean,
  g_type_uchar, g_type_int, g_type_uint, g_type_int64, g_type_uint64, g_type_double, g_type_string,
  g_type_object, g_type_strv, g_type_value, dbus_type_g_object_path, dbus_type_g_signature,
  get_collection, get_map, get_structv, gtype_is_valid_hash_key, gtype_is_valid_hash_value,
  g_type_is_fixed,
}

-- `dbus_signature_iter_*`: `next` moves the iterator and says whether there is more.
pub record SignatureIter (I : Type 0) : Type 0 where
  pub init : Bytes → I
  pub get_current_type : I → ℕ
  pub recurse : I → I
  pub next : I → Bool × I
  pub type_is_basic : ℕ → Bool
  pub type_is_container : ℕ → Bool
  pub validate : Bytes → Bool

unfoldable pub typecode_to_gtype : ℕ → GType
typecode_to_gtype type =
    if type == b'b'
    then g_type_boolean
    else if type == b'y'
    then g_type_uchar
    else if type == b'n' || type == b'i'
    then g_type_int
    else if type == b'q' || type == b'u'
    then g_type_uint
    else if type == b'x'
    then g_type_int64
    else if type == b't'
    then g_type_uint64
    else if type == b'd'
    then g_type_double
    else if type == b's'
    then g_type_string
    else g_type_invalid

unfoldable pub typecode_maps_to_basic : ℕ → Bool
unfolding typecode_to_gtype
typecode_maps_to_basic typecode = not (is_invalid (typecode_to_gtype typecode))

-- a variant, an array or a struct
abbrev pub is_container : ℕ → Bool
is_container current_type = current_type == b'v' || current_type == b'a' || current_type == b'r'

-- `DBUS_TYPE_G_OBJECT_ARRAY` is the "GPtrArray" of objects.
unfoldable pub array_of : GType → GType
unfolding get_collection g_type_is_fixed
array_of g_type_invalid = g_type_invalid
array_of g_type_object = get_collection (codes "GPtrArray") g_type_object
array_of g_type_string = g_type_strv
array_of elt_gtype =
    if g_type_is_fixed elt_gtype
    then get_collection (codes "GArray") elt_gtype
    else if is_a_object_or_boxed elt_gtype
    then get_collection (codes "GPtrArray") elt_gtype
    else g_type_invalid

unfoldable pub map_of : GType → GType → GType
unfolding get_map gtype_is_valid_hash_key gtype_is_valid_hash_value
map_of key_gtype value_gtype =
    if gtype_is_valid_hash_key key_gtype && gtype_is_valid_hash_value value_gtype
    then get_map (codes "GHashTable") key_gtype value_gtype
    else g_type_invalid

-- the bound on the calls that a signature of this length takes
abbrev pub fuel_for : Bytes → ℕ
fuel_for signature = 4 * length signature

module _ {I : Type 0} (dbus : SignatureIter I) where
  unfoldable pub gtype_from_basic_typecode : ℕ → Outcome GType
  unfolding typecode_maps_to_basic typecode_to_gtype
  gtype_from_basic_typecode typecode = do
    g_assert (dbus.type_is_basic typecode)
    g_assert (typecode_maps_to_basic typecode)
    ok (typecode_to_gtype typecode)

  unfoldable mutual
    unfolding gtype_from_basic_typecode array_of map_of typecode_maps_to_basic

    pub signature_iter_to_g_type_dict : ℕ → I → Outcome GType
    signature_iter_to_g_type_dict zero subiter = abort
    signature_iter_to_g_type_dict (suc fuel) subiter = do
      g_assert (dbus.get_current_type subiter == b'e')
      let iter = dbus.recurse subiter
      key_gtype ← gtype_from_signature_iter fuel iter
      elim (is_invalid key_gtype) [
        | true ↦ ok g_type_invalid
        | false ↦ (do
          value_gtype ← gtype_from_signature_iter fuel (dbus.next iter).1
          if is_invalid value_gtype then ok g_type_invalid else ok (map_of key_gtype value_gtype))
      ]

    pub signature_iter_to_g_type_array : ℕ → I → Outcome GType
    signature_iter_to_g_type_array zero iter = abort
    signature_iter_to_g_type_array (suc fuel) iter = do
      elt_gtype ← gtype_from_signature_iter fuel iter
      ok (array_of elt_gtype)

    -- the types that the loop of `signature_iter_to_g_type_struct` collects
    pub struct_types : ℕ → I → Outcome GTypes
    struct_types zero iter = abort
    struct_types (suc fuel) iter = do
      curtype ← gtype_from_signature_iter fuel iter
      let (more, next) = dbus.next iter
      elim more [
        | true ↦ (do types ← struct_types fuel next; ok (member curtype types))
        | false ↦ ok (member curtype no_types)
      ]

    pub signature_iter_to_g_type_struct : ℕ → I → Outcome GType
    signature_iter_to_g_type_struct zero iter = abort
    signature_iter_to_g_type_struct (suc fuel) iter = do
      types ← struct_types fuel iter
      ok (get_structv (codes "GValueArray") types)

    -- the array's element decides between the two
    pub array_from_signature_iter : ℕ → I → Outcome GType
    array_from_signature_iter zero subiter = abort
    array_from_signature_iter (suc fuel) subiter = elim (dbus.get_current_type subiter == b'e') [
      | true ↦ signature_iter_to_g_type_dict fuel subiter
      | false ↦ signature_iter_to_g_type_array fuel subiter
    ]

    pub container_from_signature_iter : ℕ → ℕ → I → Outcome GType
    container_from_signature_iter zero current_type iter = abort
    container_from_signature_iter (suc fuel) current_type iter = do
      g_assert (dbus.type_is_container current_type)
      elim (current_type == b'v') [
        | true ↦ ok g_type_value
        | false ↦ elim (current_type == b'a') [
          | true ↦ array_from_signature_iter fuel (dbus.recurse iter)
          | false ↦ signature_iter_to_g_type_struct fuel (dbus.recurse iter)
        ]
      ]

    pub gtype_from_signature_iter : ℕ → I → Outcome GType
    gtype_from_signature_iter zero iter = abort
    gtype_from_signature_iter (suc fuel) iter =
        let current_type = dbus.get_current_type iter in
        elim (typecode_maps_to_basic current_type) [
          | true ↦ gtype_from_basic_typecode current_type
          | false ↦ elim (current_type == b'o') [
            | true ↦ ok dbus_type_g_object_path
            | false ↦ elim (current_type == b'g') [
              | true ↦ ok dbus_type_g_signature
              | false ↦ elim (is_container current_type) [
                | true ↦ container_from_signature_iter fuel current_type iter
                | false ↦ ok g_type_invalid
              ]
            ]
          ]
        ]

  unfoldable pub gtype_from_signature : Bytes → Outcome GType
  unfolding gtype_from_signature_iter
  gtype_from_signature signature =
      gtype_from_signature_iter (suc (fuel_for signature)) (dbus.init signature)

  -- the loop of `_dbus_gtypes_from_arg_signature`
  unfoldable pub arg_types_loop : ℕ → ℕ → I → Outcome (List GType)
  unfolding gtype_from_signature_iter
  arg_types_loop zero depth sigiter = abort
  arg_types_loop (suc fuel) depth sigiter = elim (dbus.get_current_type sigiter == 0) [
    | true ↦ ok []
    | false ↦ (do
      curtype ← gtype_from_signature_iter depth sigiter
      types ← arg_types_loop fuel depth (dbus.next sigiter).1
      ok (curtype ∷ types))
  ]

  unfoldable pub gtypes_from_arg_signature : Bytes → Outcome (List GType)
  unfolding arg_types_loop
  gtypes_from_arg_signature argsig =
      arg_types_loop (suc (length argsig)) (suc (fuel_for argsig)) (dbus.init argsig)
