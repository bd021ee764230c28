-- ===== src/Signature/Errors.antt =====
-- Which signatures dbus/dbus-gsignature.c has no type for, and which types may signal an error.
use dbus_glib.Prelude.{
  ◌≡◌, refl, ap, arith, Bool, true, false, ◌&&◌, ◌||◌, not, codes, Bytes, Bool-cases, inl, inr,
}
use dbus_glib.Outcome.{ok, ◌>>=◌}
use dbus_glib.Types.{
  GType, GTypes, g_type_string, is_a_object_or_boxed, specialized, is_invalid, get_map,
  get_collection, gtype_can_signal_error, gtype_is_valid_hash_key, gtype_is_valid_hash_value,
  g_type_is_fixed, lookup_or_register_specialized,
}
use dbus_glib.Signature.Refinement.{gtype_from_signature-print}
use dbus_glib.Signature.{SignatureIter, gtype_from_signature, array_of, map_of}
use dbus_glib.Signature.Trees.{
  BasicType, boolean, int64, uint64, double, int16, int32, uint16, uint32, string, SigType, basic,
  variant, array, dict_entry, struct, gtype_of, SigTypes, IterLaws, then_type, print_all,
}

abbrev pub is_error_type : SigType → Bool
is_error_type (basic boolean) = true
is_error_type (basic int16) = true
is_error_type (basic int32) = true
is_error_type (basic uint16) = true
is_error_type (basic uint32) = true
is_error_type (basic string) = true
is_error_type _ = false

specialized-silent :
    (name : Bytes) (types : GTypes)
    → gtype_can_signal_error (lookup_or_register_specialized name types) ≡ false
unfolding lookup_or_register_specialized gtype_can_signal_error
specialized-silent name types = ground arith

array_of-silent : (t : GType) → gtype_can_signal_error (array_of t) ≡ false
unfolding array_of get_collection gtype_can_signal_error
array_of-silent (specialized container types) = ground arith
array_of-silent _ = refl

map_of-silent : (k v : GType) → gtype_can_signal_error (map_of k v) ≡ false
unfolding map_of get_map gtype_can_signal_error
map_of-silent k v = ground (arith, specialized-silent (codes "GHashTable"))

can_signal_error-gtype_of : (t : SigType) → gtype_can_signal_error (gtype_of t) ≡ is_error_type t
unfolding gtype_can_signal_error gtype_of
can_signal_error-gtype_of (basic boolean) = refl
can_signal_error-gtype_of (basic _) = refl
can_signal_error-gtype_of variant = refl
can_signal_error-gtype_of (array (dict_entry k v)) = map_of-silent (gtype_of k) (gtype_of v)
can_signal_error-gtype_of (array t) = array_of-silent (gtype_of t)
can_signal_error-gtype_of (dict_entry k v) = refl
can_signal_error-gtype_of (struct t ts) = ground arith

-- Keys of a map are the basic types but 'x', 't', 'd' and 'h'.
abbrev pub is_key : SigType → Bool
is_key (basic int64) = false
is_key (basic uint64) = false
is_key (basic double) = false
is_key (basic BasicType.unix_fd) = false
is_key (basic _) = true
is_key _ = false

-- Values of a map are of any type that there is but 'x' and 't'.
abbrev pub fits_map : SigType → Bool
fits_map (basic int64) = false
fits_map (basic uint64) = false
fits_map _ = true

-- A struct has a type whatever its members are.
abbrev pub has_type : SigType → Bool
has_type (basic BasicType.unix_fd) = false
has_type (basic _) = true
has_type variant = true
has_type (array (dict_entry k v)) = is_key k && (fits_map v && has_type v)
has_type (array t) = has_type t
has_type (dict_entry k v) = false
has_type (struct t ts) = true

-- the types that an array may have as its elements
abbrev is_known : GType → Bool
is_known g_type_string = true
is_known t = g_type_is_fixed t || is_a_object_or_boxed t

array_of-known :
    (t : GType)
    → (is_known (array_of t) ≡ is_known t)
      × (is_invalid (array_of t) ≡ not (is_known t))
      × (gtype_is_valid_hash_value (array_of t) ≡ is_known t)
      × (gtype_is_valid_hash_key (array_of t) ≡ false)
unfolding g_type_is_fixed array_of gtype_is_valid_hash_value gtype_is_valid_hash_key
array_of-known (specialized container types) = (refl, refl, refl, refl)
array_of-known _ = (refl, refl, refl, refl)

map_of-known :
    (k v : GType)
    → let ok_map = gtype_is_valid_hash_key k && gtype_is_valid_hash_value v in
      (is_known (map_of k v) ≡ ok_map)
      × (is_invalid (map_of k v) ≡ not ok_map)
      × (gtype_is_valid_hash_value (map_of k v) ≡ ok_map)
      × (gtype_is_valid_hash_key (map_of k v) ≡ false)
unfolding g_type_is_fixed map_of get_map gtype_is_valid_hash_value gtype_is_valid_hash_key
map_of-known k v = elim (Bool-cases (gtype_is_valid_hash_key k)) [
  | inl a ↦ elim (Bool-cases (gtype_is_valid_hash_value v)) [
    | inl b ↦ ground arith
    | inr b ↦ ground arith
  ]
  | inr a ↦ ground arith
]

-- The types at hand are told apart by what they may be part of.
abbrev Described : SigType → Type 0
Described t =
    (is_known (gtype_of t) ≡ has_type t)
    × (is_invalid (gtype_of t) ≡ not (has_type t))
    × (gtype_is_valid_hash_value (gtype_of t) ≡ (fits_map t && has_type t))
    × (gtype_is_valid_hash_key (gtype_of t) ≡ is_key t)

described : (t : SigType) → Described t
unfolding gtype_of g_type_is_fixed gtype_is_valid_hash_value gtype_is_valid_hash_key
described (basic boolean) = (refl, refl, refl, refl)
described (basic _) = (refl, refl, refl, refl)
described variant = (refl, refl, refl, refl)
described (dict_entry k v) = (refl, refl, refl, refl)
described (struct t ts) = (refl, refl, refl, refl)
described (array (dict_entry k v)) =
    let (a, b, c, d) = described k in
    let (e, f, g, h) = described v in rw (← d, ← g) (map_of-known (gtype_of k) (gtype_of v))
described (array t) = let (a, b, c, d) = described t in rw (← a) (array_of-known (gtype_of t))

module _ {I : Type 0} (dbus : SignatureIter I) (laws : IterLaws dbus) (t : SigType) (ts : SigTypes)
    (valid : dbus.validate (print_all (then_type t ts)) ≡ true) where
  -- In a signature that libdbus accepts, the first complete type comes to no type exactly when it is
  -- 'h' or a dictionary entry alone, an array of what has no type, or a map whose keys are none of
  -- the basic types but 'x', 't', 'd' and 'h', or whose values are 'x', 't' or of no type. A struct
  -- comes to a type even if a member does not.
  pub gtype_from_signature-has_type :
      (do type ← gtype_from_signature dbus (print_all (then_type t ts)); ok (is_invalid type))
      ≡ ok (not (has_type t))
  gtype_from_signature-has_type =
      rw (gtype_from_signature-print dbus laws t ts valid) (ap ok ((described t).1))

  -- The first complete type of a signature that libdbus accepts comes to a type that can signal an
  -- error exactly when it is 'b', 'n', 'i', 'q', 'u' or 's'.
  pub can_signal_error-gtype_from_signature :
      (do
        type ← gtype_from_signature dbus (print_all (then_type t ts))
        ok (gtype_can_signal_error type))
      ≡ ok (is_error_type t)
  can_signal_error-gtype_from_signature =
      rw (gtype_from_signature-print dbus laws t ts valid) (ap ok (can_signal_error-gtype_of t))
