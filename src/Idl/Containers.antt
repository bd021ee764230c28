-- ===== src/Idl/Containers.antt =====
-- dbus/dbus-gidl.c: interfaces, nodes and the operations on any of the objects.
use dbus_glib.Prelude.{
  ℕ, zero, suc, ◌==◌, Option, none, some, List, [], ◌∷◌, ◌++◌, Bool, Bytes, if◌then◌else◌,
}
use dbus_glib.Outcome.{Outcome, ok, abort, or_abort, ◌>>=◌}
use dbus_glib.Heap.{alloc, load, write, release}
use dbus_glib.Idl.Data.{
  info_type_node, info_type_interface, new_base, base_ref, base_unref, hash_insert, hash_lookup,
  get_hash_keys, Store, free_list,
}
use dbus_glib.Idl.Members.{
  property_info_ref, property_info_unref, signal_info_ref, signal_info_unref, method_info_ref,
  method_info_unref,
}

unfoldable pub interface_info_new : (Bytes → Bool) → Bytes → Store → Option ℕ × Store
interface_info_new is_interface_name name s =
    if is_interface_name name
    then (
      some s.interfaces.next,
      record s {
        interfaces = alloc s.interfaces (record {
          base = new_base info_type_interface (some name);
          annotations = [];
          methods = [];
          signals = [];
          properties = [];
        });
      },
    )
    else (none, s)

unfoldable pub interface_info_ref : ℕ → Store → Outcome Store
interface_info_ref p s = do
  info ← load s.interfaces p
  ok (record s { interfaces = write s.interfaces p (record info { base = base_ref info.base }) })

unfoldable pub interface_info_unref : ℕ → Store → Outcome Store
unfolding free_list method_info_unref signal_info_unref property_info_unref
interface_info_unref p s = do
  info ← load s.interfaces p
  let base = base_unref info.base
  let lowered = record s { interfaces = write s.interfaces p (record info { base = base }) }
  if base.refcount == 0
      then (do
        s1 ← free_list method_info_unref info.methods lowered
        s2 ← free_list signal_info_unref info.signals s1
        s3 ← free_list property_info_unref info.properties s2
        ok (record s3 { interfaces = release s3.interfaces p }))
      else ok lowered

unfoldable pub interface_info_get_annotations : ℕ → Store → Outcome (List Bytes)
interface_info_get_annotations p s = do
  info ← load s.interfaces p
  ok (get_hash_keys info.annotations)

unfoldable pub interface_info_get_annotation : ℕ → Bytes → Store → Outcome (Option Bytes)
interface_info_get_annotation p name s = do
  info ← load s.interfaces p
  ok (hash_lookup name info.annotations)

unfoldable pub interface_info_add_annotation : ℕ → Bytes → Bytes → Store → Outcome Store
interface_info_add_annotation p name value s = do
  info ← load s.interfaces p
  ok (record s {
    interfaces =
        write s.interfaces p
          (record info { annotations = hash_insert name value info.annotations });
  })

unfoldable pub interface_info_add_method : ℕ → ℕ → Store → Outcome Store
unfolding method_info_ref
interface_info_add_method p method s = do
  s' ← method_info_ref method s
  info ← load s'.interfaces p
  ok (record s' {
    interfaces = write s'.interfaces p (record info { methods = info.methods ++ method ∷ [] });
  })

unfoldable pub interface_info_add_signal : ℕ → ℕ → Store → Outcome Store
unfolding signal_info_ref
interface_info_add_signal p signal s = do
  s' ← signal_info_ref signal s
  info ← load s'.interfaces p
  ok (record s' {
    interfaces = write s'.interfaces p (record info { signals = info.signals ++ signal ∷ [] });
  })

unfoldable pub interface_info_add_property : ℕ → ℕ → Store → Outcome Store
unfolding property_info_ref
interface_info_add_property p property s = do
  s' ← property_info_ref property s
  info ← load s'.interfaces p
  ok (record s' {
    interfaces =
        write s'.interfaces p (record info { properties = info.properties ++ property ∷ [] });
  })

unfoldable pub node_info_new : Option Bytes → Store → ℕ × Store
node_info_new name s = (
  s.nodes.next,
  record s {
    nodes =
        alloc s.nodes (record { base = new_base info_type_node name; interfaces = []; nodes = [] });
  },
)

unfoldable pub node_info_ref : ℕ → Store → Outcome Store
node_info_ref p s = do
  info ← load s.nodes p
  ok (record s { nodes = write s.nodes p (record info { base = base_ref info.base }) })

-- The fuel bounds how deep the tree of nodes below `p` is.
unfoldable pub node_info_unref : ℕ → ℕ → Store → Outcome Store
unfolding free_list interface_info_unref
node_info_unref zero p s = abort
node_info_unref (suc fuel) p s = do
  info ← load s.nodes p
  let base = base_unref info.base
  let lowered = record s { nodes = write s.nodes p (record info { base = base }) }
  if base.refcount == 0
      then (do
        s1 ← free_list interface_info_unref info.interfaces lowered
        s2 ← free_list (node_info_unref fuel) info.nodes s1
        ok (record s2 { nodes = release s2.nodes p }))
      else ok lowered

unfoldable pub node_info_add_interface : ℕ → ℕ → Store → Outcome Store
unfolding interface_info_ref
node_info_add_interface p interface s = do
  s' ← interface_info_ref interface s
  info ← load s'.nodes p
  ok (record s' {
    nodes = write s'.nodes p (record info { interfaces = info.interfaces ++ interface ∷ [] });
  })

unfoldable pub node_info_add_node : ℕ → ℕ → Store → Outcome Store
unfolding node_info_ref
node_info_add_node p node s = do
  s' ← node_info_ref node s
  info ← load s'.nodes p
  ok (record s' { nodes = write s'.nodes p (record info { nodes = info.nodes ++ node ∷ [] }) })

-- `g_slist_find` and the write through the link: the first occurrence changes
replace_first : ℕ → ℕ → List ℕ → Option (List ℕ)
replace_first old new [] = none
replace_first old new (p ∷ ps) =
    let rest = replace_first old new ps in
    if p == old then some (new ∷ ps) else elim rest [ none ↦ none | some l ↦ some (p ∷ l) ]

-- The list is read before `old_child` loses its reference, as the link is found before.
unfoldable pub node_info_replace_node : ℕ → ℕ → ℕ → ℕ → Store → Outcome Store
unfolding replace_first node_info_ref node_info_unref
node_info_replace_node fuel p old_child new_child s = do
  s1 ← node_info_ref new_child s
  info ← load s1.nodes p
  nodes ← or_abort (replace_first old_child new_child info.nodes)
  s2 ← node_info_unref fuel old_child s1
  info' ← load s2.nodes p
  ok (record s2 { nodes = write s2.nodes p (record info' { nodes = nodes }) })
