-- ===== src/Parser/Document/Safety.antt =====
-- No document makes the parser fail an assertion or follow a dangling pointer.
use dbus_glib.Prelude.{
  ℕ, ◌≡◌, ◌≢◌, refl, sym, arith, true, Option, Bytes, subst, str_equal, has_char, Bool-cases, inl,
  inr, ◌==◌, ◌⊎◌, List, [], ◌∷◌,
}
use dbus_glib.Outcome.{
  ok, abort, Returns, Returns-bind_eq, Returns-of, Returns-ok, Returns-ne-abort, Returns-eq-ok,
  Returns-map, Returns-map_eq, failed,
}
use dbus_glib.Heap.{Table, LiveIf, AllLive}
use dbus_glib.Idl.Data.{NodeInfo, empty_store}
use dbus_glib.Idl.Growth.{Grows, Grows-refl, Grows-trans, Linked}
use dbus_glib.Parser.Attributes.{Attributes}
use dbus_glib.Parser.State.{External, World, is_cons, top, new_world}
use dbus_glib.Parser.Elements.{parse_node}
use dbus_glib.Parser.Elements.Safety.{
  IsSafe, grown, Started, ExternalLaws, parse_node_safe, parse_interface_safe, parse_method_safe,
  parse_signal_safe, parse_property_safe, parse_arg_safe, parse_annotation_safe,
}
use dbus_glib.Parser.Document.{
  start_unknown, parser_start_element, end_node, end_unknown, parser_end_element, Element, element,
  Content, end, text, child, parse_element, parse_content, parser_content,
}
use dbus_glib.Parser.Document.Context.{
  ElementName, node, interface, method, signal, property, arg, annotation, other, name_of,
  SameContext, FitsGuint, start_fits, element_context, content_context, SameContext-fits,
}

-- Safety reads nothing of the depth, and of the result only that it is alive.
with_depth :
    (w : World) (n : ℕ)
    → IsSafe w
    → IsSafe (record w { parser = record w.parser { unknown_namespaced_depth = n } })
with_depth w n h = record {
  stack_live = h.stack_live;
  interface_live = h.interface_live;
  method_live = h.method_live;
  signal_live = h.signal_live;
  property_live = h.property_live;
  arg_live = h.arg_live;
  result_live = h.result_live;
  member_inside = h.member_inside;
  args_live = h.args_live;
  linked = h.linked;
}

with_result :
    (w : World) (r : Option ℕ)
    → IsSafe w
    → LiveIf w.store.nodes r
    → IsSafe (record w { parser = record w.parser { result = r } })
with_result w r h l = record {
  stack_live = h.stack_live;
  interface_live = h.interface_live;
  method_live = h.method_live;
  signal_live = h.signal_live;
  property_live = h.property_live;
  arg_live = h.arg_live;
  result_live = l;
  member_inside = h.member_inside;
  args_live = h.args_live;
  linked = h.linked;
}

-- the store has grown, and the result is alive
abbrev GrowsTo : World → World → Type 0
GrowsTo w w' = Grows w.store w'.store × LiveIf w'.store.nodes w'.parser.result

-- A world of the same context over a grown store is as safe, if its result is alive.
same-IsSafe : (w w' : World) → IsSafe w → GrowsTo w w' → SameContext w'.parser w.parser → IsSafe w'
same-IsSafe w w' h (g, l) c =
    let r = w'.parser.result in
    subst (λ p. IsSafe (record { parser = p; store = w'.store })) (sym c)
      (with_result (record w { store = w'.store }) r (grown w w'.store h g) l)

start_unknown_safe : (s : Bytes) (w : World) → IsSafe w → Returns (Started w) (start_unknown s w)
unfolding start_unknown
start_unknown_safe s w h = elim (Bool-cases (has_char b':' s)) [
  | inl colon ↦
      rw colon (Returns-ok (record { safe = with_depth w _ h; grows = Grows-refl w.store }))
  | inr plain ↦ rw plain (elim (Bool-cases (w.parser.unknown_namespaced_depth == 0)) [
    | inl top_level ↦ rw top_level (failed _ refl)
    | inr below ↦ rw below (Returns-ok (record { safe = h; grows = Grows-refl w.store }))
  ])
]

start_safe :
    (ext : External) (laws : ExternalLaws ext) (s : Bytes) (a : Attributes) (w : World)
    → ElementName s
    → IsSafe w
    → Returns (Started w) (parser_start_element ext s a w)
unfolding parser_start_element str_equal
start_safe ext laws s a w (node e) h = rw e (parse_node_safe ext laws _ a w h)
start_safe ext laws s a w (interface e) h = rw e (parse_interface_safe ext laws _ a w h)
start_safe ext laws s a w (method e) h = rw e (parse_method_safe ext laws _ a w h)
start_safe ext laws s a w (signal e) h = rw e (parse_signal_safe ext laws _ a w h)
start_safe ext laws s a w (property e) h = rw e (parse_property_safe ext laws _ a w h)
start_safe ext laws s a w (arg e) h = rw e (parse_arg_safe ext laws _ a w h)
start_safe ext laws s a w (annotation e) h = rw e (parse_annotation_safe ext laws _ a w h)
start_safe ext laws s a w (other start end') h = rw start (start_unknown_safe s w h)

pushed :
    (e : Bytes) (a : Attributes) (w w1 : World)
    → parse_node e a w ≡ ok w1
    → is_cons w1.parser.node_stack ≡ true
unfolding parse_node
pushed e a w w1 h = ground arith

end_node_safe :
    (w1 w2 : World)
    → is_cons w1.parser.node_stack ≡ true
    → SameContext w2.parser w1.parser
    → Returns (λ w3. w3.store ≡ w2.store) (end_node w2)
unfolding end_node
end_node_safe w1 w2 h c = Returns-of (end_node w2) (ground arith) (λ w3 k. ground arith)

end_unknown_safe :
    (s : Bytes) (w w1 w2 : World)
    → start_unknown s w ≡ ok w1
    → SameContext w2.parser w1.parser
    → Returns (λ w3. w3.store ≡ w2.store) (end_unknown s w2)
unfolding start_unknown end_unknown
end_unknown_safe s w w1 w2 h c = Returns-of (end_unknown s w2) (ground arith) (λ w3 k. ground arith)

-- The end of an element that was started, in the context of its content.
end_safe :
    (ext : External) (s : Bytes) (a : Attributes) (w w1 w2 : World)
    → ElementName s
    → parser_start_element ext s a w ≡ ok w1
    → SameContext w2.parser w1.parser
    → Returns (λ w3. w3.store ≡ w2.store) (parser_end_element s w2)
unfolding parser_start_element parser_end_element str_equal
end_safe ext s a w w1 w2 (node e) h c = rw e (end_node_safe w1 w2 (pushed _ a w w1 (rw e at h)) c)
end_safe ext s a w w1 w2 (interface e) h c = rw e (Returns-ok refl)
end_safe ext s a w w1 w2 (method e) h c = rw e (Returns-ok refl)
end_safe ext s a w w1 w2 (signal e) h c = rw e (Returns-ok refl)
end_safe ext s a w w1 w2 (property e) h c = rw e (Returns-ok refl)
end_safe ext s a w w1 w2 (arg e) h c = rw e (Returns-ok refl)
end_safe ext s a w w1 w2 (annotation e) h c = rw e (Returns-ok refl)
end_safe ext s a w w1 w2 (other start end') h c =
    rw end' (end_unknown_safe s w w1 w2 (rw start at h) c)

top-LiveIf : (t : Table NodeInfo) (stack : List ℕ) → AllLive t stack → LiveIf t (top stack)
top-LiveIf t [] l = tt
top-LiveIf t (p ∷ ps) (l, ls) = l

-- The end of an element leaves the result, or makes it the node on top.
end_result :
    (s : Bytes) (w w' : World)
    → parser_end_element s w ≡ ok w'
    → (w'.parser.result ≡ w.parser.result) ⊎ (w'.parser.result ≡ top w.parser.node_stack)
unfolding parser_end_element end_node end_unknown
end_result s w w' h = ground arith

-- The end of an element leaves the result alive.
end_live :
    (s : Bytes) (w w' : World)
    → parser_end_element s w ≡ ok w'
    → IsSafe w
    → LiveIf w.store.nodes w'.parser.result
end_live s w w' e h = elim (end_result s w w' e) [
  | inl same ↦ subst (LiveIf w.store.nodes) (sym same) h.result_live
  | inr popped ↦
      subst (LiveIf w.store.nodes) (sym popped)
        (top-LiveIf w.store.nodes w.parser.node_stack h.stack_live)
]

mutual
  unfolding parse_element parser_content

  element_safe :
      (ext : External) (laws : ExternalLaws ext) (w : World) (e : Element)
      → FitsGuint w
      → IsSafe w
      → Returns (GrowsTo w) (parse_element ext w e)
  element_safe ext laws w (element s a content) d h =
      Returns-bind_eq (parser_start_element ext s a w) _ (start_safe ext laws s a w (name_of s) h)
        λ w1 started st.
          let d1 = start_fits ext s a w (name_of s) d started in
          Returns-bind_eq (parse_content ext w1 content) _
            (content_safe ext laws w1 content d1 st.safe)
            λ w2 inside g.
              let c = content_context ext w1 content d1 inside in
              let safe = same-IsSafe w1 w2 st.safe g c in
              Returns-map_eq (parser_end_element s w2)
                (end_safe ext s a w w1 w2 (name_of s) started c)
                λ w3 ended same.
                  rw same (
                    Grows-trans w.store w1.store w2.store st.grows g.0,
                    end_live s w2 w3 ended safe,
                  )

  content_safe :
      (ext : External) (laws : ExternalLaws ext) (w : World) (c : Content)
      → FitsGuint w
      → IsSafe w
      → Returns (GrowsTo w) (parse_content ext w c)
  content_safe ext laws w end d h = Returns-ok (Grows-refl w.store, h.result_live)
  content_safe ext laws w (text t rest) d h = content_safe ext laws w rest d h
  content_safe ext laws w (child e rest) d h =
      Returns-bind_eq (parse_element ext w e) _ (element_safe ext laws w e d h) λ w1 first g.
        let c = element_context ext w e d first in
        Returns-map (parse_content ext w1 rest)
          (content_safe ext laws w1 rest (SameContext-fits w w1 c d) (same-IsSafe w w1 h g c))
          λ w2 g2. (Grows-trans w.store w1.store w2.store g.0 g2.0, g2.1)

Linked-empty : Linked empty_store
Linked-empty = record {
  signal_args = λ p. tt;
  methods = λ p. tt;
  signals = λ p. tt;
  properties = λ p. tt;
  interfaces = λ p. tt;
  nodes = λ p. tt;
}

pub IsSafe-new_world : IsSafe new_world
IsSafe-new_world = record {
  stack_live = tt;
  interface_live = tt;
  method_live = tt;
  signal_live = tt;
  property_live = tt;
  arg_live = tt;
  result_live = tt;
  member_inside = λ m. cc;
  args_live = λ m. tt;
  linked = Linked-empty;
}

-- A new parser that is run over any well-formed document, whatever its elements and attributes, never
-- stops the process: no assertion fails, the code that is marked as not reached is not reached, and
-- no NULL or dangling pointer is followed. It returns, or it sets an error. This holds if GLib takes
-- every string that libdbus accepts as a signature for one, and if its list sort sorts.
pub document-ne-abort :
    (ext : External) (e : Element) → ExternalLaws ext → parse_element ext new_world e ≢ abort
document-ne-abort ext e laws =
    Returns-ne-abort _ (element_safe ext laws new_world e (omega arith) IsSafe-new_world)

-- What a parser has built before an element is still there after it: from any safe state, an element
-- that is parsed keeps every node, interface, method, signal, property and argument of the store alive,
-- and leaves the parser safe: its pointers, the result too, lead to live objects, what is open is inside an
-- interface, and whatever a node, an interface, a method or a signal lists is alive. This holds under
-- the laws of the theorem above and where the depth of unknown elements fits its `guint`.
pub parse_element_keeps :
    (ext : External) (w w' : World) (e : Element)
    → ExternalLaws ext
    → FitsGuint w
    → IsSafe w
    → parse_element ext w e ≡ ok w'
    → Grows w.store w'.store × IsSafe w'
parse_element_keeps ext w w' e laws d h k =
    let g = Returns-eq-ok _ (element_safe ext laws w e d h) k in
    (g.0, same-IsSafe w w' h g (element_context ext w e d k))
