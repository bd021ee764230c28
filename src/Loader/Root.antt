-- ===== src/Loader/Root.antt =====
-- Loading a document whose root is a node.
use dbus_glib.Prelude.{
  ℕ, suc, ◌-◌, ◌≡◌, refl, ◌∙◌, arith, true, Option, none, some, str_equal, List, [], ◌∷◌, codes,
}
use dbus_glib.Outcome.{ok, >>=-eq-ok}
use dbus_glib.Heap.{write}
use dbus_glib.Idl.Data.{NodeInfo, base_ref, base_unref}
use dbus_glib.Parser.Attributes.{Attributes}
use dbus_glib.Parser.State.{External, World, new_world}
use dbus_glib.Parser.Attach.{attach_node}
use dbus_glib.Parser.Elements.{parse_node}
use dbus_glib.Parser.Document.{
  end_node, parser_start_element, parser_end_element, element, Content, parse_element,
  parse_content,
}
use dbus_glib.Parser.Document.Context.{content_context}
use dbus_glib.Idl.Containers.{node_info_ref, node_info_unref}
use dbus_glib.Parser.State.{parser_unref}
use dbus_glib.Loader.{XmlEvent, handle_all, new_context, description_load_from_string}
use dbus_glib.Loader.Handlers.{events_of, outcome_of, handle_all_document}
use dbus_glib.Parser.Document.Counts.{refcount_of, content_count}

-- what the start tag of the root leaves
root_started :
    (a : Attributes) {w : World}
    → parse_node (codes "node") a new_world ≡ ok w
    → (w.parser.node_stack ≡ 0 ∷ [])
      × (w.parser.refcount ≡ 1)
      × (w.parser.unknown_namespaced_depth ≡ 0)
      × (w.store.nodes.next ≡ 1)
      × (refcount_of (w.store.nodes.cell 0) ≡ 1)
unfolding parse_node attach_node
root_started a h = ground arith

root_ended :
    (w w' : World)
    → w.parser.node_stack ≡ 0 ∷ []
    → w.parser.refcount ≡ 1
    → end_node w ≡ ok w'
    → (w'.parser.result ≡ some 0) × (w'.parser.refcount ≡ 1) × (w'.store ≡ w.store)
unfolding end_node
root_ended w w' st c h = ground arith

root_parsed :
    (ext : External) (a : Attributes) (content : Content) {w : World}
    → parse_element ext new_world (element (codes "node") a content) ≡ ok w
    → (w.parser.result ≡ some 0)
      × (w.parser.refcount ≡ 1)
      × (refcount_of (w.store.nodes.cell 0) ≡ 1)
unfolding parse_element parser_start_element parser_end_element str_equal
root_parsed ext a content {w} h =
    let (w1, started, h1) = >>=-eq-ok (parse_node (codes "node") a new_world) _ h in
    let (w2, inside, ended) = >>=-eq-ok (parse_content ext w1 content) _ h1 in
    let (st, c, d, next, one) = root_started a started in
    let same = content_context ext w1 content (ground arith) inside in
    let count = content_count 0 ext w1 content (ground arith) inside in
    let (result, refs, store) = root_ended w2 w (ground arith) (ground arith) ended in
    (result, refs, ground arith)

counted :
    (o : Option NodeInfo)
    → refcount_of o ≡ 1
    → (info : NodeInfo) × (o ≡ some info) × (info.base.refcount ≡ 1)
counted none h = absurd (omega arith)
counted (some info) h = (info, refl, h)

-- the caller's reference is taken, and the parser's is given back
abbrev handed_over : World → NodeInfo → World
handed_over w info =
    let taken = record info { base = base_ref info.base } in
    let given = record info { base = base_unref (base_ref info.base) } in
    record {
      parser = record w.parser { refcount = w.parser.refcount - 1 };
      store = record w.store { nodes = write (write w.store.nodes 0 taken) 0 given };
    }

-- The root has one reference, and every object is as it was.
abbrev pub IsHandedOver : World → World → Type 0
IsHandedOver w w' =
    (refcount_of (w'.store.nodes.cell 0) ≡ 1)
    × ((q : ℕ) → w'.store.nodes.cell q ≡ w.store.nodes.cell q)
    × (record (w'.store) { nodes = w.store.nodes } ≡ w.store)

-- a run that left a root with one reference
loaded :
    (ext : External) (fuel : ℕ) (events : List XmlEvent) (w : World)
    → outcome_of (handle_all ext events new_context) ≡ ok w
    → w.parser.result ≡ some 0
    → w.parser.refcount ≡ 1
    → refcount_of (w.store.nodes.cell 0) ≡ 1
    → (w' : World) × (description_load_from_string ext (suc fuel) events true ≡ ok (0, w'))
      × IsHandedOver w w'
unfolding description_load_from_string node_info_ref node_info_unref parser_unref
loaded ext fuel events w h result refs one =
    let (info, at_root, count) = counted (w.store.nodes.cell 0) one in
    (handed_over w info, ground arith, (ground arith, (λ q. ground arith), refl))

-- Loading a document that the parser accepts and whose root is a node returns that root, the first
-- node that was made, for any fuel but 0: the root has one reference, which is the caller's, and
-- every object of the description is as the parser left it.
pub load_node_root :
    (ext : External) (fuel : ℕ) (a : Attributes) (content : Content) {w : World}
    → parse_element ext new_world (element (codes "node") a content) ≡ ok w
    → (w' : World) × (description_load_from_string ext
          (suc fuel)
          (events_of (element (codes "node") a content) [])
          true
        ≡ ok (0, w'))
      × IsHandedOver w w'
load_node_root ext fuel a content {w} h =
    let (result, refs, one) = root_parsed ext a content h in
    loaded ext fuel (events_of (element (codes "node") a content) []) w
      (handle_all_document ext (element (codes "node") a content) ∙ h) result refs one
