-- ===== src/Tests/Idl.antt =====
-- Runs of dbus/dbus-gidl.c, and its theorems at concrete inputs.
use dbus_glib.Prelude.{◌≡◌, refl, true, none, some, [], ◌∷◌, ◌++◌, codes}
use dbus_glib.Outcome.{Outcome, ok, err, abort, ◌>>=◌}
use dbus_glib.Idl.Data.{Store, MethodInfo, empty_store, new_base, info_type_method, arg_in, arg_out}
use dbus_glib.Idl.Members.{
  arg_info_new, arg_info_unref, method_info_unref, arg_info_add_annotation, arg_info_get_annotation,
  method_info_add_annotation, method_info_get_annotation, method_info_new, method_info_add_arg,
  directions_of, args_sort_by_direction,
}
use dbus_glib.Idl.Growth.{args_at}
use dbus_glib.Idl.Order.{ins, outs, AllValid, method_info_add_arg_order}
use dbus_glib.Idl.Containers.{interface_info_add_annotation, interface_info_get_annotation}
use dbus_glib.Idl.Release.{Owned, IsReleased, method_info_unref_last}
use dbus_glib.Idl.Annotations.{HasAnnotation, add_annotation-get_annotation}
use dbus_glib.Tests.Sort.{insertion_sort, insertion_sort_laws}

abbrev idl_runs : Unit {0}
unfolding arg_info_new arg_info_unref method_info_new method_info_add_arg directions_of
    args_sort_by_direction
idl_runs = tt

abbrev store_of : Outcome Store → Store
store_of (ok s) = s
store_of (err e) = empty_store
store_of abort = empty_store

-- A method with an "out" argument, and an "in" argument that is not yet added.
abbrev two_args : Store
two_args =
    (arg_info_new (some (codes "b")) arg_in (codes "u")
      (arg_info_new (some (codes "a")) arg_out (codes "s")
        (method_info_new (λ name. true) (codes "M") empty_store).1).1).1

abbrev with_out : Store
with_out = store_of (method_info_add_arg insertion_sort 0 0 two_args)

abbrev with_both : Store
with_both = store_of (method_info_add_arg insertion_sort 0 1 with_out)

both_added :
    AllValid with_out (args_at with_out 0 ++ 1 ∷ [])
    × (method_info_add_arg insertion_sort 0 1 with_out ≡ ok with_both)
    × (args_at with_both 0 ≡ 1 ∷ 0 ∷ [])
unfolding idl_runs
both_added = ((refl, (refl, tt)), refl, refl)

method_info_add_arg_order_example :
    args_at with_both 0
    ≡ ins with_out (args_at with_out 0 ++ 1 ∷ []) ++ outs with_out (args_at with_out 0 ++ 1 ∷ [])
method_info_add_arg_order_example =
    method_info_add_arg_order insertion_sort 0 1 with_out insertion_sort_laws both_added.0
      both_added.1 0

-- The parser's own references to the two arguments are given back, so that the method owns both.
abbrev owning : Store
owning = store_of (arg_info_unref 0 with_both >>= arg_info_unref 1)

abbrev owner : MethodInfo
owner = elim (owning.methods.cell 0) [
  | none ↦ record { base = new_base info_type_method none; annotations = []; args = [] }
  | some info ↦ info
]

owner_alone :
    (owning.methods.cell 0 ≡ some owner) × (owner.base.refcount ≡ 1) × Owned owning.args owner.args
unfolding idl_runs
owner_alone = (refl, refl, ((refl, refl, (refl, refl, tt))))

method_info_unref_last_example :
    (t : Store) × (method_info_unref 0 owning ≡ ok t) × IsReleased owning 0 owner t
method_info_unref_last_example =
    method_info_unref_last owning 0 owner owner_alone.0 owner_alone.1 owner_alone.2

add_annotation_example :
    HasAnnotation arg_info_add_annotation arg_info_get_annotation 1
      (codes "a")
      (codes "v")
      (codes "b")
      with_both
    × HasAnnotation method_info_add_annotation method_info_get_annotation 1
        (codes "a")
        (codes "v")
        (codes "b")
        with_both
    × HasAnnotation interface_info_add_annotation interface_info_get_annotation 1
        (codes "a")
        (codes "v")
        (codes "b")
        with_both
add_annotation_example =
    add_annotation-get_annotation 1 (codes "a") (codes "v") (codes "b") with_both
