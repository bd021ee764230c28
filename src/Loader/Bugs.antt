-- ===== src/Loader/Bugs.antt =====
-- Where the loader and the parser do not do what they are meant to.
use dbus_glib.Prelude.{
  ℕ, suc, ◌≡◌, ◌≢◌, refl, ◌∙◌, arith, true, Option, none, some, List, [], ◌∷◌, Bytes, has_char,
}
use dbus_glib.Outcome.{ok, abort, ◌>>=◌, >>=-eq-ok}
use dbus_glib.Idl.Data.{Store, NodeInfo, info_type_node}
use dbus_glib.Idl.Containers.{node_info_unref}
use dbus_glib.Parser.Attributes.{Attributes}
use dbus_glib.Parser.State.{External, World, new_world}
use dbus_glib.Parser.Attach.{attach_node}
use dbus_glib.Heap.{write, release}
use dbus_glib.Parser.Elements.{check_node, parse_node}
use dbus_glib.Parser.Document.{start_unknown, end_unknown, element, end, parse_element}
use dbus_glib.Parser.Document.Context.{
  ElementName, node, interface, method, signal, property, arg, annotation, other, name_of,
}
use dbus_glib.Loader.{XmlEvent, handle_all, new_context, description_load_from_string}
use dbus_glib.Loader.Handlers.{events_of, outcome_of, handle_all_document}

unknown_pair :
    (ext : External) (name : Bytes) (a : Attributes) (w : World)
    → has_char b':' name ≡ true
    → w.parser.unknown_namespaced_depth ≡ 0
    → (start_unknown name w >>= end_unknown name) ≡ ok w
unfolding start_unknown end_unknown
unknown_pair ext name a w h d = ground arith

namespaced :
    (ext : External) (name : Bytes) (a : Attributes)
    → ElementName name
    → has_char b':' name ≡ true
    → parse_element ext new_world (element name a end) ≡ ok new_world
unfolding parse_element has_char
namespaced ext name a (node e) h = cc (rw e at h)
namespaced ext name a (interface e) h = cc (rw e at h)
namespaced ext name a (method e) h = cc (rw e at h)
namespaced ext name a (signal e) h = cc (rw e at h)
namespaced ext name a (property e) h = cc (rw e at h)
namespaced ext name a (arg e) h = cc (rw e at h)
namespaced ext name a (annotation e) h = cc (rw e at h)
namespaced ext name a (other start end') h =
    rw start (simp end' (unknown_pair ext name a new_world h refl))

-- A run that left no result stops in the loader.
no_result :
    (ext : External) (fuel : ℕ) (events : List XmlEvent) {w : World}
    → outcome_of (handle_all ext events new_context) ≡ ok w
    → w.parser.result ≡ none
    → description_load_from_string ext fuel events true ≡ abort
unfolding description_load_from_string
no_result ext fuel events h r = ground arith

-- Loading a document whose root is an empty element with a ':' in its name stops the process: the
-- parser accepts it, has no node to give, and the loader takes a reference to NULL. So it is for any
-- such name and any attributes.
pub load_namespaced_root :
    (ext : External) (fuel : ℕ) (name : Bytes) (a : Attributes)
    → has_char b':' name ≡ true
    → description_load_from_string ext fuel (events_of (element name a end) []) true ≡ abort
load_namespaced_root ext fuel name a h =
    no_result ext fuel (events_of (element name a end) [])
      (handle_all_document ext (element name a end) ∙ namespaced ext name a (name_of name) h) refl

-- a node with so many references and such nodes inside
abbrev pub node_with : Option Bytes → ℕ → List ℕ → NodeInfo
node_with name refcount nodes = record {
  base = record { refcount = refcount; type = info_type_node; name = name };
  interfaces = [];
  nodes = nodes;
}

child_is_attached :
    (e : Bytes) (a : Attributes) (w w' : World) (parent : ℕ) (outer : List ℕ) (name : Option Bytes)
    → w.parser.node_stack ≡ parent ∷ outer
    → w.store.nodes.cell parent ≡ some (node_with name 1 [])
    → parent ≢ w.store.nodes.next
    → parse_node e a w ≡ ok w'
    → (child : Option Bytes) × (w'.store.nodes.cell parent
        ≡ some (node_with name 1 (w.store.nodes.next ∷ [])))
      × (w'.store.nodes.cell w.store.nodes.next ≡ some (node_with child 2 []))
unfolding parse_node attach_node
child_is_attached e a w w' parent outer name st here ne h =
    let (child, checked, attached) = >>=-eq-ok (check_node e a w.parser) _ h in
    (child, ground arith, ground arith)

-- If a parent that has one reference and nothing in it gets a node inside, and then its reference is
-- given back, the parent is freed and the node inside it is not: it lives on with one reference.
pub child_node_leaks :
    (e : Bytes) (a : Attributes) (w w' : World) (fuel parent : ℕ) (outer : List ℕ)
    (name : Option Bytes)
    → w.parser.node_stack ≡ parent ∷ outer
    → w.store.nodes.cell parent ≡ some (node_with name 1 [])
    → parent ≢ w.store.nodes.next
    → parse_node e a w ≡ ok w'
    → (s : Store) × (left : NodeInfo) × (node_info_unref (suc (suc fuel)) parent w'.store ≡ ok s)
      × (s.nodes.cell parent ≡ none)
      × (s.nodes.cell w.store.nodes.next ≡ some left)
      × (left.base.refcount ≡ 1)
unfolding node_info_unref
child_node_leaks e a w w' fuel parent outer name st here ne h =
    let (child, at_parent, at_child) = child_is_attached e a w w' parent outer name st here ne h in
    let lowered = write w'.store.nodes parent (node_with name 0 (w.store.nodes.next ∷ [])) in
    let kept = write lowered w.store.nodes.next (node_with child 1 []) in
    let s : Store = record w'.store { nodes = release kept parent } in
    (
      s,
      node_with child 1 [],
      ground (arith, at_parent, at_child, ne),
      ground arith,
      ground (arith, ne),
      refl,
    )
