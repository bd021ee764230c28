-- ===== src/Idl/Members.antt =====
-- dbus/dbus-gidl.c: arguments, properties, signals and methods. An operation takes the address of
-- its object, and faults where none lives there.
use Prim.Native.Nat.{Ordering}
use dbus_glib.Prelude.{
  ℕ, ◌==◌, Option, none, some, List, ◌&&◌, [], ◌∷◌, ◌++◌, Bool, true, false, Bytes, length,
  if◌then◌else◌,
}
use dbus_glib.Outcome.{Outcome, ok, g_assert, ◌>>=◌, ◌>>◌}
use dbus_glib.Heap.{alloc, load, write, release}
use dbus_glib.Idl.Data.{
  InfoType, info_type_arg, info_type_property, info_type_signal, info_type_method, ArgDirection,
  arg_invalid, arg_in, arg_out, PropertyAccessFlags, new_base, base_ref, base_unref, hash_insert,
  hash_lookup, get_hash_keys, Store, free_list,
}

unfoldable pub arg_info_new : Option Bytes → ArgDirection → Bytes → Store → ℕ × Store
arg_info_new name direction type s = (
  s.args.next,
  record s {
    args = alloc s.args (record {
      base = new_base info_type_arg name;
      type = type;
      direction = direction;
      annotations = [];
    });
  },
)

unfoldable pub arg_info_ref : ℕ → Store → Outcome Store
arg_info_ref p s = do
  info ← load s.args p
  ok (record s { args = write s.args p (record info { base = base_ref info.base }) })

unfoldable pub arg_info_unref : ℕ → Store → Outcome Store
arg_info_unref p s = do
  info ← load s.args p
  let base = base_unref info.base
  if base.refcount == 0
      then ok (record s { args = release s.args p })
      else ok (record s { args = write s.args p (record info { base = base }) })

unfoldable pub arg_info_add_annotation : ℕ → Bytes → Bytes → Store → Outcome Store
arg_info_add_annotation p name value s = do
  info ← load s.args p
  ok (record s {
    args = write s.args p (record info { annotations = hash_insert name value info.annotations });
  })

unfoldable pub arg_info_get_annotations : ℕ → Store → Outcome (List Bytes)
arg_info_get_annotations p s = do info ← load s.args p; ok (get_hash_keys info.annotations)

unfoldable pub arg_info_get_annotation : ℕ → Bytes → Store → Outcome (Option Bytes)
arg_info_get_annotation p annotation s = do
  info ← load s.args p
  ok (hash_lookup annotation info.annotations)

-- `none` is the NULL that the failed checks of the name and of the type return
unfoldable pub property_info_new :
    (Bytes → Bool) → (Bytes → Bool) → Bytes → Bytes → PropertyAccessFlags → Store → Option ℕ × Store
property_info_new utf8_validate is_signature name type access s =
    if utf8_validate name && is_signature type
    then (
      some s.properties.next,
      record s {
        properties = alloc s.properties (record {
          base = new_base info_type_property (some name);
          type = type;
          access = access;
        });
      },
    )
    else (none, s)

unfoldable pub property_info_ref : ℕ → Store → Outcome Store
property_info_ref p s = do
  info ← load s.properties p
  ok (record s { properties = write s.properties p (record info { base = base_ref info.base }) })

unfoldable pub property_info_unref : ℕ → Store → Outcome Store
property_info_unref p s = do
  info ← load s.properties p
  let base = base_unref info.base
  if base.refcount == 0
      then ok (record s { properties = release s.properties p })
      else ok (record s { properties = write s.properties p (record info { base = base }) })

unfoldable pub signal_info_new : (Bytes → Bool) → Bytes → Store → Option ℕ × Store
signal_info_new is_member_name name s =
    if is_member_name name
    then (
      some s.signals.next,
      record s {
        signals =
            alloc s.signals (record { base = new_base info_type_signal (some name); args = [] });
      },
    )
    else (none, s)

unfoldable pub signal_info_ref : ℕ → Store → Outcome Store
signal_info_ref p s = do
  info ← load s.signals p
  ok (record s { signals = write s.signals p (record info { base = base_ref info.base }) })

abbrev pub is_arg : InfoType → Bool
is_arg info_type_arg = true
is_arg _ = false

-- `free_arg_list`; its assertion on the type of each object reads the object first
unfoldable pub unref_arg_of_list : ℕ → Store → Outcome Store
unref_arg_of_list p s = do
  info ← load s.args p
  g_assert (is_arg info.base.type)
  arg_info_unref p s

unfoldable pub free_arg_list : List ℕ → Store → Outcome Store
unfolding free_list unref_arg_of_list arg_info_unref
free_arg_list = free_list unref_arg_of_list

unfoldable pub signal_info_unref : ℕ → Store → Outcome Store
signal_info_unref p s = do
  info ← load s.signals p
  let base = base_unref info.base
  let lowered = record s { signals = write s.signals p (record info { base = base }) }
  if base.refcount == 0
      then (do
        freed ← free_arg_list info.args lowered
        ok (record freed { signals = release freed.signals p }))
      else ok lowered

abbrev pub is_out : ArgDirection → Bool
is_out arg_out = true
is_out _ = false

unfoldable pub signal_info_get_n_args : ℕ → Store → Outcome ℕ
signal_info_get_n_args p s = do info ← load s.signals p; ok (length info.args)

unfoldable pub signal_info_add_arg : ℕ → ℕ → Store → Outcome Store
unfolding arg_info_ref
signal_info_add_arg p arg s = do
  arg_info ← load s.args arg
  g_assert (is_out arg_info.direction)
  s' ← arg_info_ref arg s
  info ← load s'.signals p
  ok (record s' { signals = write s'.signals p (record info { args = info.args ++ arg ∷ [] }) })

unfoldable pub method_info_new : (Bytes → Bool) → Bytes → Store → Option ℕ × Store
method_info_new is_member_name name s =
    if is_member_name name
    then (
      some s.methods.next,
      record s {
        methods =
            alloc s.methods (record {
              base = new_base info_type_method (some name);
              annotations = [];
              args = [];
            });
      },
    )
    else (none, s)

unfoldable pub method_info_ref : ℕ → Store → Outcome Store
method_info_ref p s = do
  info ← load s.methods p
  ok (record s { methods = write s.methods p (record info { base = base_ref info.base }) })

unfoldable pub method_info_unref : ℕ → Store → Outcome Store
method_info_unref p s = do
  info ← load s.methods p
  let base = base_unref info.base
  let lowered = record s { methods = write s.methods p (record info { base = base }) }
  if base.refcount == 0
      then (do
        freed ← free_arg_list info.args lowered
        ok (record freed { methods = release freed.methods p }))
      else ok lowered

unfoldable pub method_info_get_annotations : ℕ → Store → Outcome (List Bytes)
method_info_get_annotations p s = do info ← load s.methods p; ok (get_hash_keys info.annotations)

unfoldable pub method_info_get_annotation : ℕ → Bytes → Store → Outcome (Option Bytes)
method_info_get_annotation p name s = do
  info ← load s.methods p
  ok (hash_lookup name info.annotations)

unfoldable pub method_info_get_n_args : ℕ → Store → Outcome ℕ
method_info_get_n_args p s = do info ← load s.methods p; ok (length info.args)

unfoldable pub method_info_add_annotation : ℕ → Bytes → Bytes → Store → Outcome Store
method_info_add_annotation p name value s = do
  info ← load s.methods p
  ok (record s {
    methods =
        write s.methods p (record info { annotations = hash_insert name value info.annotations });
  })

abbrev pub same_direction : ArgDirection → ArgDirection → Bool
same_direction arg_invalid arg_invalid = true
same_direction arg_in arg_in = true
same_direction arg_out arg_out = true
same_direction _ _ = false

abbrev pub is_in : ArgDirection → Bool
is_in arg_in = true
is_in _ = false

-- -1 is `lt` and 1 is `gt`.
unfoldable pub args_sort_by_direction : ArgDirection → ArgDirection → Ordering
args_sort_by_direction a b =
    if same_direction a b then Ordering.eq else if is_in a then Ordering.lt else Ordering.gt

-- The arguments are sorted by what their addresses lead to; a dangling one is a fault.
unfoldable pub directions_of : List ℕ → Store → Outcome (List ArgDirection)
directions_of [] s = ok []
directions_of (p ∷ ps) s = do
  info ← load s.args p
  rest ← directions_of ps s
  ok (info.direction ∷ rest)

abbrev pub direction_at : Store → ℕ → ArgDirection
direction_at s p = elim (s.args.cell p) [ none ↦ arg_invalid | some info ↦ info.direction ]

unfoldable pub method_info_add_arg :
    ((ℕ → ℕ → Ordering) → List ℕ → List ℕ) → ℕ → ℕ → Store → Outcome Store
unfolding arg_info_ref
method_info_add_arg slist_sort p arg s = do
  s' ← arg_info_ref arg s
  info ← load s'.methods p
  let args = info.args ++ arg ∷ []
  directions ← directions_of args s'
  let sorted =
      slist_sort (λ a b. args_sort_by_direction (direction_at s' a) (direction_at s' b)) args
  ok (record s' { methods = write s'.methods p (record info { args = sorted }) })
