-- ===== src/Signature/Refinement.antt =====
-- dbus/dbus-gsignature.c finds the type of every complete type of a signature.
use dbus_glib.Prelude.{ℕ, zero, suc, ◌≤◌, ◌<◌, ◌≡◌, refl, arith, Bool, true, false, ◌==◌, length}
use dbus_glib.Outcome.{ok}
use dbus_glib.Types.{GType, member, is_invalid, g_type_invalid, g_type_value}
use dbus_glib.Signature.{
  SignatureIter, array_of, map_of, typecode_to_gtype, typecode_maps_to_basic,
  gtype_from_basic_typecode, gtype_from_signature_iter, gtype_from_signature, arg_types_loop,
  array_from_signature_iter, struct_types, signature_iter_to_g_type_struct,
  gtypes_from_arg_signature, fuel_for,
}
use dbus_glib.Signature.Trees.{
  BasicType, boolean, byte, int16, int32, uint16, uint32, int64, uint64, double, string,
  object_path, signature, unix_fd, SigType, SigTypes, basic, variant, array, dict_entry, struct,
  none_left, then_type, code_of, typecode, print_all, IterLaws, basic_gtype, gtype_of, gtypes_of,
  need, need_all, need-le-fuel, need_all-le, count, count-le, list_of,
}

one_more : (n : ℕ) → 1 ≤ n → (m : ℕ) × (n ≡ suc m)
one_more zero h = absurd (omega arith)
one_more (suc m) h = (m, refl)

four_more : (n : ℕ) → 4 ≤ n → (m : ℕ) × (n ≡ suc (suc (suc (suc m))))
four_more n h =
    let (a, d) = one_more n (omega arith) in
    let (b, e) = one_more a (omega arith) in
    let (c, f) = one_more b (omega arith) in
    let (m, g) = one_more c (omega arith) in (m, omega arith)

map_of-invalid_key : (k v : GType) → is_invalid k ≡ true → map_of k v ≡ g_type_invalid
unfolding map_of
map_of-invalid_key g_type_invalid v h = refl
map_of-invalid_key _ v h = cc

map_of-invalid_value : (k v : GType) → is_invalid v ≡ true → map_of k v ≡ g_type_invalid
unfolding map_of
map_of-invalid_value k g_type_invalid h = ground arith
map_of-invalid_value k _ h = cc

is_entry : SigType → Bool
is_entry (dict_entry k v) = true
is_entry _ = false

typecode-plain : (t : SigType) → is_entry t ≡ false → (typecode t == b'e') ≡ false
unfolding is_entry
typecode-plain (basic boolean) h = refl
typecode-plain (basic _) h = refl
typecode-plain (dict_entry k v) h = cc
typecode-plain _ h = refl

gtype_of-array : (t : SigType) → is_entry t ≡ false → gtype_of (array t) ≡ array_of (gtype_of t)
unfolding is_entry gtype_of
gtype_of-array (dict_entry k v) h = cc
gtype_of-array _ h = refl

typecode-nonzero : (t : SigType) → (typecode t == 0) ≡ false
typecode-nonzero (basic boolean) = refl
typecode-nonzero (basic _) = refl
typecode-nonzero _ = refl

module _ {I : Type 0} (dbus : SignatureIter I) (laws : IterLaws dbus) where
  iter-basic :
      (b : BasicType) (i : I) (fuel : ℕ)
      → dbus.get_current_type i ≡ code_of b
      → gtype_from_signature_iter dbus (suc fuel) i ≡ ok (basic_gtype b)
  unfolding gtype_from_signature_iter gtype_from_basic_typecode typecode_maps_to_basic
      typecode_to_gtype
  iter-basic boolean i fuel e = ground (arith, laws.basic_types boolean)
  iter-basic byte i fuel e = ground (arith, laws.basic_types byte)
  iter-basic int16 i fuel e = ground (arith, laws.basic_types int16)
  iter-basic int32 i fuel e = ground (arith, laws.basic_types int32)
  iter-basic uint16 i fuel e = ground (arith, laws.basic_types uint16)
  iter-basic uint32 i fuel e = ground (arith, laws.basic_types uint32)
  iter-basic int64 i fuel e = ground (arith, laws.basic_types int64)
  iter-basic uint64 i fuel e = ground (arith, laws.basic_types uint64)
  iter-basic double i fuel e = ground (arith, laws.basic_types double)
  iter-basic string i fuel e = ground (arith, laws.basic_types string)
  iter-basic object_path i fuel e = ground arith
  iter-basic signature i fuel e = ground arith
  iter-basic unix_fd i fuel e = ground arith

  -- an array, down to what its element comes to
  iter-array :
      (t : SigType) (ts : SigTypes) (i : I) (fuel : ℕ)
      → laws.At i (then_type (array t) ts)
      → gtype_from_signature_iter dbus (suc (suc fuel)) i
        ≡ array_from_signature_iter dbus fuel (dbus.recurse i)
  unfolding gtype_from_signature_iter typecode_maps_to_basic typecode_to_gtype
  iter-array t ts i fuel at = ground (arith, laws.at_type at, laws.container_types b'a' refl)

  iter-variant :
      (ts : SigTypes) (i : I) (fuel : ℕ)
      → laws.At i (then_type variant ts)
      → gtype_from_signature_iter dbus (suc (suc fuel)) i ≡ ok g_type_value
  unfolding gtype_from_signature_iter typecode_maps_to_basic typecode_to_gtype
  iter-variant ts i fuel at = ground (arith, laws.at_type at, laws.container_types b'v' refl)

  iter-struct :
      (t : SigType) (us ts : SigTypes) (i : I) (fuel : ℕ)
      → laws.At i (then_type (struct t us) ts)
      → gtype_from_signature_iter dbus (suc (suc fuel)) i
        ≡ signature_iter_to_g_type_struct dbus fuel (dbus.recurse i)
  unfolding gtype_from_signature_iter typecode_maps_to_basic typecode_to_gtype
  iter-struct t us ts i fuel at = ground (arith, laws.at_type at, laws.container_types b'r' refl)

  iter-entry :
      (k v : SigType) (ts : SigTypes) (i : I) (fuel : ℕ)
      → laws.At i (then_type (dict_entry k v) ts)
      → gtype_from_signature_iter dbus (suc fuel) i ≡ ok g_type_invalid
  unfolding gtype_from_signature_iter typecode_maps_to_basic typecode_to_gtype
  iter-entry k v ts i fuel at = ground (arith, laws.at_type at)

  entry-map_of :
      (k v : SigType) (ts : SigTypes) (i : I) (fuel : ℕ)
      → laws.At i (then_type (dict_entry k v) ts)
      → gtype_from_signature_iter dbus fuel (dbus.recurse i) ≡ ok (gtype_of k)
      → gtype_from_signature_iter dbus fuel (dbus.next (dbus.recurse i)).1 ≡ ok (gtype_of v)
      → array_from_signature_iter dbus (suc (suc fuel)) i ≡ ok (map_of (gtype_of k) (gtype_of v))
  unfolding array_from_signature_iter
  entry-map_of k v ts i fuel at key value = ground (
    arith,
    laws.at_type at,
    key,
    value,
    map_of-invalid_key (gtype_of k) (gtype_of v),
    map_of-invalid_value (gtype_of k) (gtype_of v),
  )

  plain-array_of :
      (t : SigType) (ts : SigTypes) (i : I) (fuel : ℕ)
      → is_entry t ≡ false
      → laws.At i (then_type t ts)
      → gtype_from_signature_iter dbus fuel i ≡ ok (gtype_of t)
      → array_from_signature_iter dbus (suc (suc fuel)) i ≡ ok (gtype_of (array t))
  unfolding array_from_signature_iter
  plain-array_of t ts i fuel plain at element =
      rw (gtype_of-array t plain) (ground (arith, laws.at_type at, element, typecode-plain t plain))

  mutual
    unfolding gtype_from_signature_iter array_from_signature_iter is_entry gtype_of need array_of
        map_of

    iter-gtype_of :
        (t : SigType) (ts : SigTypes) (i : I) (fuel : ℕ)
        → need t ≤ fuel
        → laws.At i (then_type t ts)
        → gtype_from_signature_iter dbus fuel i ≡ ok (gtype_of t)
    iter-gtype_of (basic b) ts i fuel h at =
        let (m, e) = one_more fuel h in rw e (iter-basic b i m (laws.at_type at))
    iter-gtype_of variant ts i fuel h at =
        let (m, e) = one_more fuel (omega arith) in
        let (n, f) = one_more m (omega arith) in rw (e, f) (iter-variant ts i n at)
    iter-gtype_of (dict_entry k v) ts i fuel h at =
        let (m, e) = one_more fuel (omega arith) in rw e (iter-entry k v ts i m at)
    iter-gtype_of (struct t us) ts i fuel h at =
        let (m, e) = four_more fuel (omega arith) in
        let below = laws.at_struct at in
        let first = iter-gtype_of t us (dbus.recurse i) m (omega arith) below in
        rw
          (
            e,
            iter-struct t us ts i (suc (suc m)) at,
            types-gtypes_of t us (dbus.recurse i) m (omega arith) below first,
          )
          refl
    iter-gtype_of (array (dict_entry k v)) ts i fuel h at =
        let (m, e) = four_more fuel (omega arith) in
        let (rest, below) = laws.at_array at in
        rw (e, iter-array (dict_entry k v) ts i (suc (suc m)) at)
          (entry-map_of k v rest (dbus.recurse i) m below
            (iter-gtype_of k (then_type v none_left) (dbus.recurse (dbus.recurse i)) m (omega arith)
              (laws.at_entry below))
            (iter-gtype_of v none_left (dbus.next (dbus.recurse (dbus.recurse i))).1 m (omega arith)
              (laws.at_next (laws.at_entry below))))
    iter-gtype_of (array t) ts i fuel h at =
        let (m, e) = four_more fuel (omega arith) in
        let (rest, below) = laws.at_array at in
        rw (e, iter-array t ts i (suc (suc m)) at)
          (plain-array_of t rest (dbus.recurse i) m refl below
            (iter-gtype_of t rest (dbus.recurse i) m (omega arith) below))

    types-gtypes_of :
        (t : SigType) (us : SigTypes) (i : I) (fuel : ℕ)
        → need_all us ≤ fuel
        → laws.At i (then_type t us)
        → gtype_from_signature_iter dbus fuel i ≡ ok (gtype_of t)
        → struct_types dbus (suc fuel) i ≡ ok (member (gtype_of t) (gtypes_of us))
    types-gtypes_of t none_left i fuel h at first = rw (first, laws.next_last at) refl
    types-gtypes_of t (then_type u us) i fuel h at first =
        let (m, e) = one_more fuel (omega arith) in
        let below = laws.at_next at in
        let here = iter-gtype_of u us (dbus.next i).1 m (omega arith) below in
        rw
          (
            first,
            laws.next_more at,
            e,
            types-gtypes_of u us (dbus.next i).1 m (omega arith) below here,
          )
          refl

  -- A signature that libdbus accepts and that starts with a complete type comes to the type that the
  -- first complete type has by its parts.
  pub gtype_from_signature-print :
      (t : SigType) (ts : SigTypes)
      → dbus.validate (print_all (then_type t ts)) ≡ true
      → gtype_from_signature dbus (print_all (then_type t ts)) ≡ ok (gtype_of t)
  unfolding gtype_from_signature
  gtype_from_signature-print t ts valid =
      iter-gtype_of t ts (dbus.init (print_all (then_type t ts)))
        (suc (fuel_for (print_all (then_type t ts)))) (omega (arith, need-le-fuel t ts))
        (laws.at_top (laws.top_init (then_type t ts) valid))

  loop-map :
      (ts : SigTypes) (i : I) (fuel depth : ℕ)
      → count ts < fuel
      → need_all ts ≤ depth
      → laws.AtTop i ts
      → arg_types_loop dbus fuel depth i ≡ ok (list_of ts)
  unfolding arg_types_loop need gtype_of
  loop-map ts i zero depth h d at = absurd (omega arith)
  loop-map none_left i (suc fuel) depth h d at = ground (arith, laws.top_end at)
  loop-map (then_type t ts) i (suc fuel) depth h d at =
      let rest =
        loop-map ts (dbus.next i).1 fuel depth (omega arith) (omega arith) (laws.top_next at) in
      ground (
        arith,
        laws.at_type (laws.at_top at),
        typecode-nonzero t,
        iter-gtype_of t ts i depth (omega arith) (laws.at_top at),
        rest,
      )

  -- Of a list of arguments whose signature libdbus accepts, each complete type comes to its type, in
  -- the same order.
  pub gtypes_from_arg_signature-print :
      (ts : SigTypes)
      → dbus.validate (print_all ts) ≡ true
      → gtypes_from_arg_signature dbus (print_all ts) ≡ ok (list_of ts)
  unfolding gtypes_from_arg_signature
  gtypes_from_arg_signature-print ts valid =
      loop-map ts (dbus.init (print_all ts)) (suc (length (print_all ts)))
        (suc (fuel_for (print_all ts))) (omega (arith, count-le ts)) (omega (arith, need_all-le ts))
        (laws.top_init ts valid)
