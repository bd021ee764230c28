-- ===== src/Idl/Annotations.antt =====
-- dbus/dbus-gidl.c: the annotations of arguments, methods and interfaces as maps from names to values.
use dbus_glib.Prelude.{
  ℕ, ◌≡◌, refl, arith, Option, some, [], ◌∷◌, if◌then◌else◌, Bytes, str_equal, str_equal_iff,
}
use dbus_glib.Outcome.{Outcome, ok, ◌>>=◌}
use dbus_glib.Idl.Data.{Store, Annotations, hash_insert, hash_lookup}
use dbus_glib.Idl.Members.{
  arg_info_add_annotation, arg_info_get_annotation, method_info_add_annotation,
  method_info_get_annotation,
}
use dbus_glib.Idl.Containers.{interface_info_add_annotation, interface_info_get_annotation}

hash_lookup_insert :
    (j k v : Bytes) (m : Annotations)
    → hash_lookup j (hash_insert k v m) ≡ (if str_equal k j then some v else hash_lookup j m)
unfolding hash_insert hash_lookup
hash_lookup_insert j k v [] = refl
hash_lookup_insert j k v ((i, w) ∷ m) =
    let rest = hash_lookup_insert j k v m in
    let same = str_equal_iff i k in
    let new = str_equal_iff k j in let old = str_equal_iff i j in ground arith

-- `get` after `add k v`, where the answer for `k` is `v` and any other answer is what it was
abbrev pub HasAnnotation :
    (ℕ → Bytes → Bytes → Store → Outcome Store)
    → (ℕ → Bytes → Store → Outcome (Option Bytes))
    → ℕ
    → Bytes
    → Bytes
    → Bytes
    → Store
    → Type 0
HasAnnotation add get p k v j s =
    (add p k v s >>= get p j) ≡ (do old ← get p j s; ok (if str_equal k j then some v else old))

-- Adding an annotation to an argument, a method or an interface and then asking for one answers
-- the value that was added if its name is asked for, and what was answered before otherwise. An
-- address where no object lives faults on both sides.
pub add_annotation-get_annotation :
    (p : ℕ) (k v j : Bytes) (s : Store)
    → HasAnnotation arg_info_add_annotation arg_info_get_annotation p k v j s
      × HasAnnotation method_info_add_annotation method_info_get_annotation p k v j s
      × HasAnnotation interface_info_add_annotation interface_info_get_annotation p k v j s
unfolding arg_info_add_annotation arg_info_get_annotation method_info_add_annotation
    method_info_get_annotation interface_info_add_annotation interface_info_get_annotation
add_annotation-get_annotation p k v j s = (
  grind (arith, hash_lookup_insert),
  grind (arith, hash_lookup_insert),
  grind (arith, hash_lookup_insert),
)
