-- ===== src/Parser/Document/Counts.antt =====
-- The reference count of a node stays what it is while other elements are parsed.
use dbus_glib.Prelude.{ℕ, ◌≡◌, ◌<◌, ◌∙◌, arith, Option, none, some, str_equal, Bytes, codes}
use dbus_glib.Outcome.{ok, >>=-eq-ok}
use dbus_glib.Idl.Data.{Store, NodeInfo}
use dbus_glib.Parser.Attributes.{Attributes}
use dbus_glib.Parser.State.{External, World}
use dbus_glib.Parser.Attach.{
  attach_node, attach_interface, attach_method, attach_signal, attach_property, attach_arg,
  add_annotation,
}
use dbus_glib.Parser.Elements.{
  parse_node, parse_interface, parse_method, parse_signal, parse_property, parse_arg,
  parse_annotation,
}
use dbus_glib.Parser.Document.{
  start_unknown, end_unknown, end_node, parser_start_element, parser_end_element, parser_content,
  Element, element, Content, end, text, child, parse_element, parse_content,
}
use dbus_glib.Parser.Document.Context.{
  ElementName, node, interface, method, signal, property, arg, annotation, other, name_of,
}

abbrev pub refcount_of : Option NodeInfo → ℕ
refcount_of none = 0
refcount_of (some info) = info.base.refcount

-- The node at `p` was made, and its count does not change from `s` to `t`.
abbrev pub KeepsCount : ℕ → Store → Store → Type 0
KeepsCount p s t =
    (p < t.nodes.next) × (refcount_of (t.nodes.cell p) ≡ refcount_of (s.nodes.cell p))

module _ (p : ℕ) (ext : External) (s : Bytes) (a : Attributes) (w : World) where
  node_count :
      {w' : World}
      → p < w.store.nodes.next
      → parse_node s a w ≡ ok w'
      → KeepsCount p w.store w'.store
  unfolding parse_node attach_node
  node_count d h = ground arith

  interface_count :
      {w' : World}
      → p < w.store.nodes.next
      → parse_interface ext s a w ≡ ok w'
      → KeepsCount p w.store w'.store
  unfolding parse_interface attach_interface
  interface_count d h = ground arith

  method_count :
      {w' : World}
      → p < w.store.nodes.next
      → parse_method ext s a w ≡ ok w'
      → KeepsCount p w.store w'.store
  unfolding parse_method attach_method
  method_count d h = ground arith

  signal_count :
      {w' : World}
      → p < w.store.nodes.next
      → parse_signal ext s a w ≡ ok w'
      → KeepsCount p w.store w'.store
  unfolding parse_signal attach_signal
  signal_count d h = ground arith

  property_count :
      {w' : World}
      → p < w.store.nodes.next
      → parse_property ext s a w ≡ ok w'
      → KeepsCount p w.store w'.store
  unfolding parse_property attach_property
  property_count d h = ground arith

  annotation_count :
      {w' : World}
      → p < w.store.nodes.next
      → parse_annotation s a w ≡ ok w'
      → KeepsCount p w.store w'.store
  unfolding parse_annotation add_annotation
  annotation_count d h = ground arith

  arg_count :
      {w' : World}
      → p < w.store.nodes.next
      → parse_arg ext s a w ≡ ok w'
      → KeepsCount p w.store w'.store
  unfolding parse_arg attach_arg
  arg_count d h = ground arith

  unknown_count :
      {w' : World}
      → p < w.store.nodes.next
      → start_unknown s w ≡ ok w'
      → KeepsCount p w.store w'.store
  unfolding start_unknown
  unknown_count d h = ground arith

start_count :
    (p : ℕ) (ext : External) (s : Bytes) (a : Attributes) (w : World) {w' : World}
    → ElementName s
    → p < w.store.nodes.next
    → parser_start_element ext s a w ≡ ok w'
    → KeepsCount p w.store w'.store
unfolding parser_start_element str_equal
start_count p ext s a w (node e) d h = node_count p ext (codes "node") a w d (rw e at h)
start_count p ext s a w (interface e) d h =
    interface_count p ext (codes "interface") a w d (rw e at h)
start_count p ext s a w (method e) d h = method_count p ext (codes "method") a w d (rw e at h)
start_count p ext s a w (signal e) d h = signal_count p ext (codes "signal") a w d (rw e at h)
start_count p ext s a w (property e) d h = property_count p ext (codes "property") a w d (rw e at h)
start_count p ext s a w (arg e) d h = arg_count p ext (codes "arg") a w d (rw e at h)
start_count p ext s a w (annotation e) d h =
    annotation_count p ext (codes "annotation") a w d (rw e at h)
start_count p ext s a w (other start end') d h = unknown_count p ext s a w d (rw start at h)

-- the end of an element leaves the store as it is
end_store :
    (s : Bytes) (w : World) {w' : World} → parser_end_element s w ≡ ok w' → w'.store ≡ w.store
unfolding parser_end_element end_node end_unknown
end_store s w h = ground arith

KeepsCount-trans : (p : ℕ) (r s t : Store) → KeepsCount p r s → KeepsCount p s t → KeepsCount p r t
KeepsCount-trans p r s t h k = (k.0, k.1 ∙ h.1)

mutual
  unfolding parse_element parser_content

  element_count :
      (p : ℕ) (ext : External) (w : World) (e : Element) {w' : World}
      → p < w.store.nodes.next
      → parse_element ext w e ≡ ok w'
      → KeepsCount p w.store w'.store
  element_count p ext w (element s a content) {w'} d h =
      let (w1, started, h1) = >>=-eq-ok (parser_start_element ext s a w) _ h in
      let (w2, inside, ended) = >>=-eq-ok (parse_content ext w1 content) _ h1 in
      let first = start_count p ext s a w (name_of s) d started in
      let rest = content_count p ext w1 content first.0 inside in
      rw (end_store s w2 ended) (KeepsCount-trans p w.store w1.store w2.store first rest)

  pub content_count :
      (p : ℕ) (ext : External) (w : World) (c : Content) {w' : World}
      → p < w.store.nodes.next
      → parse_content ext w c ≡ ok w'
      → KeepsCount p w.store w'.store
  content_count p ext w end d h = ground arith
  content_count p ext w (text t rest) d h = content_count p ext w rest d h
  content_count p ext w (child e rest) {w'} d h =
      let (w1, first, h1) = >>=-eq-ok (parse_element ext w e) _ h in
      let head = element_count p ext w e d first in
      KeepsCount-trans p w.store w1.store w'.store head (content_count p ext w1 rest head.0 h1)
