-- ===== src/Parser/Document/Context.antt =====
-- Every element that is parsed leaves the parser in the context that it found.
use dbus_glib.Prelude.{
  ◌^◌, ◌<◌, ◌≡◌, arith, false, none, Bytes, str_equal, str_equal_iff, codes, Bool-cases, inl, inr,
}
use dbus_glib.Outcome.{ok, >>=-eq-ok}
use dbus_glib.Parser.Attributes.{Attributes}
use dbus_glib.Parser.State.{External, Parser, World, pop}
use dbus_glib.Parser.Elements.{
  parse_node, parse_interface, parse_method, parse_signal, parse_property, parse_arg,
  parse_annotation, check_node, check_interface, check_member, check_property, check_arg,
  check_annotation,
}
use dbus_glib.Parser.Document.{
  start_unknown, parser_start_element, end_node, end_unknown, parser_end_element, Element, element,
  Content, end, text, child, parse_element, parse_content, parser_content,
}

module _ (ext : External) (e : Bytes) (a : Attributes) (w : World) {w' : World} where
  interface_back :
      parse_interface ext e a w ≡ ok w' → record (w'.parser) { interface = none } ≡ w.parser
  unfolding parse_interface check_interface
  interface_back h = ground arith

  method_back : parse_method ext e a w ≡ ok w' → record (w'.parser) { method = none } ≡ w.parser
  unfolding parse_method check_member
  method_back h = ground arith

  signal_back : parse_signal ext e a w ≡ ok w' → record (w'.parser) { signal = none } ≡ w.parser
  unfolding parse_signal check_member
  signal_back h = ground arith

  property_back :
      parse_property ext e a w ≡ ok w' → record (w'.parser) { property = none } ≡ w.parser
  unfolding parse_property check_property
  property_back h = ground arith

  arg_back : parse_arg ext e a w ≡ ok w' → record (w'.parser) { arg = none } ≡ w.parser
  unfolding parse_arg check_arg
  arg_back h = ground arith

  annotation_back :
      parse_annotation e a w ≡ ok w' → record (w'.parser) { in_annotation = false } ≡ w.parser
  unfolding parse_annotation check_annotation
  annotation_back h = ground arith

  node_back :
      parse_node e a w ≡ ok w'
      → record (w'.parser) { node_stack = pop w'.parser.node_stack } ≡ w.parser
  unfolding parse_node check_node
  node_back h = ground arith

-- The names that the parser knows, and all others.
pub data ElementName (s : Bytes) : Type 0 where
  node : s ≡ codes "node" → ElementName s
  interface : s ≡ codes "interface" → ElementName s
  method : s ≡ codes "method" → ElementName s
  signal : s ≡ codes "signal" → ElementName s
  property : s ≡ codes "property" → ElementName s
  arg : s ≡ codes "arg" → ElementName s
  annotation : s ≡ codes "annotation" → ElementName s
  other :
      ((ext : External) (a : Attributes) (w : World)
        → parser_start_element ext s a w ≡ start_unknown s w)
      → ((w : World) → parser_end_element s w ≡ end_unknown s w)
      → ElementName s

pub name_of : (s : Bytes) → ElementName s
unfolding parser_start_element parser_end_element
name_of s = elim (Bool-cases (str_equal s (codes "node"))) [
  | inl e ↦ node ((str_equal_iff _ _).0 e)
  | inr n0 ↦ elim (Bool-cases (str_equal s (codes "interface"))) [
    | inl e ↦ interface ((str_equal_iff _ _).0 e)
    | inr n1 ↦ elim (Bool-cases (str_equal s (codes "method"))) [
      | inl e ↦ method ((str_equal_iff _ _).0 e)
      | inr n2 ↦ elim (Bool-cases (str_equal s (codes "signal"))) [
        | inl e ↦ signal ((str_equal_iff _ _).0 e)
        | inr n3 ↦ elim (Bool-cases (str_equal s (codes "property"))) [
          | inl e ↦ property ((str_equal_iff _ _).0 e)
          | inr n4 ↦ elim (Bool-cases (str_equal s (codes "arg"))) [
            | inl e ↦ arg ((str_equal_iff _ _).0 e)
            | inr n5 ↦ elim (Bool-cases (str_equal s (codes "annotation"))) [
              | inl e ↦ annotation ((str_equal_iff _ _).0 e)
              | inr n6 ↦
                  other (λ ext a w. rw (n0, n1, n2, n3, n4, n5, n6))
                    (λ w. rw (n1, n2, n3, n4, n5, n6, n0))
            ]
          ]
        ]
      ]
    ]
  ]
]

-- Two parsers that differ at most in the result.
abbrev pub SameContext : Parser → Parser → Type 0
SameContext p q = p ≡ record q { result = p.result }

unknown_back :
    (s : Bytes) (w w1 w2 w3 : World)
    → w.parser.unknown_namespaced_depth < 2 ^ 32
    → start_unknown s w ≡ ok w1
    → SameContext w2.parser w1.parser
    → end_unknown s w2 ≡ ok w3
    → SameContext w3.parser w.parser
unfolding start_unknown end_unknown
unknown_back s w w1 w2 w3 d h c k = ground arith

-- An element is closed in the context in which its content was left.
close :
    (ext : External) (s : Bytes) (a : Attributes) (w w1 w2 w3 : World)
    → ElementName s
    → w.parser.unknown_namespaced_depth < 2 ^ 32
    → parser_start_element ext s a w ≡ ok w1
    → SameContext w2.parser w1.parser
    → parser_end_element s w2 ≡ ok w3
    → SameContext w3.parser w.parser
unfolding parser_start_element parser_end_element str_equal
close ext s a w w1 w2 w3 (node e) d h c k =
    let h' = rw e at h in
    let k' = rw e at k in unfold end_node in ground (arith, node_back ext (codes "node") a w h')
close ext s a w w1 w2 w3 (interface e) d h c k =
    let h' = rw e at h in
    let k' = rw e at k in ground (arith, interface_back ext (codes "interface") a w h')
close ext s a w w1 w2 w3 (method e) d h c k =
    let h' = rw e at h in
    let k' = rw e at k in ground (arith, method_back ext (codes "method") a w h')
close ext s a w w1 w2 w3 (signal e) d h c k =
    let h' = rw e at h in
    let k' = rw e at k in ground (arith, signal_back ext (codes "signal") a w h')
close ext s a w w1 w2 w3 (property e) d h c k =
    let h' = rw e at h in
    let k' = rw e at k in ground (arith, property_back ext (codes "property") a w h')
close ext s a w w1 w2 w3 (arg e) d h c k =
    let h' = rw e at h in let k' = rw e at k in ground (arith, arg_back ext (codes "arg") a w h')
close ext s a w w1 w2 w3 (annotation e) d h c k =
    let h' = rw e at h in
    let k' = rw e at k in ground (arith, annotation_back ext (codes "annotation") a w h')
close ext s a w w1 w2 w3 (other start end') d h c k =
    unknown_back s w w1 w2 w3 d (rw start at h) c (rw end' at k)

-- The depth stays a `guint`.
abbrev pub FitsGuint : World → Type 0
FitsGuint w = w.parser.unknown_namespaced_depth < 2 ^ 32

start_unknown_fits :
    (s : Bytes) (w : World) {w' : World} → FitsGuint w → start_unknown s w ≡ ok w' → FitsGuint w'
unfolding start_unknown
start_unknown_fits s w d h = ground arith

pub start_fits :
    (ext : External) (s : Bytes) (a : Attributes) (w : World) {w' : World}
    → ElementName s
    → FitsGuint w
    → parser_start_element ext s a w ≡ ok w'
    → FitsGuint w'
unfolding parser_start_element str_equal
start_fits ext s a w (node e) d h =
    let h' = rw e at h in ground (arith, node_back ext (codes "node") a w h')
start_fits ext s a w (interface e) d h =
    let h' = rw e at h in ground (arith, interface_back ext (codes "interface") a w h')
start_fits ext s a w (method e) d h =
    let h' = rw e at h in ground (arith, method_back ext (codes "method") a w h')
start_fits ext s a w (signal e) d h =
    let h' = rw e at h in ground (arith, signal_back ext (codes "signal") a w h')
start_fits ext s a w (property e) d h =
    let h' = rw e at h in ground (arith, property_back ext (codes "property") a w h')
start_fits ext s a w (arg e) d h =
    let h' = rw e at h in ground (arith, arg_back ext (codes "arg") a w h')
start_fits ext s a w (annotation e) d h =
    let h' = rw e at h in ground (arith, annotation_back ext (codes "annotation") a w h')
start_fits ext s a w (other start end') d h = start_unknown_fits s w d (rw start at h)

SameContext-trans : (p q r : Parser) → SameContext p q → SameContext q r → SameContext p r
SameContext-trans p q r h k = ground arith

pub SameContext-fits : (w w' : World) → SameContext w'.parser w.parser → FitsGuint w → FitsGuint w'
SameContext-fits w w' h d = ground arith

mutual
  unfolding parse_element parser_content

  pub element_context :
      (ext : External) (w : World) (e : Element) {w' : World}
      → FitsGuint w
      → parse_element ext w e ≡ ok w'
      → SameContext w'.parser w.parser
  element_context ext w (element s a content) {w'} d h =
      let (w1, started, h1) = >>=-eq-ok (parser_start_element ext s a w) _ h in
      let (w2, inside, ended) = >>=-eq-ok (parse_content ext w1 content) _ h1 in
      close ext s a w w1 w2 w' (name_of s) d started
        (content_context ext w1 content (start_fits ext s a w (name_of s) d started) inside) ended

  pub content_context :
      (ext : External) (w : World) (c : Content) {w' : World}
      → FitsGuint w
      → parse_content ext w c ≡ ok w'
      → SameContext w'.parser w.parser
  content_context ext w end d h = ground arith
  content_context ext w (text t rest) d h = content_context ext w rest d h
  content_context ext w (child e rest) {w'} d h =
      let (w1, first, h1) = >>=-eq-ok (parse_element ext w e) _ h in
      let same = element_context ext w e d first in
      SameContext-trans w'.parser w1.parser w.parser
        (content_context ext w1 rest (SameContext-fits w w1 same d) h1) same

-- A complete element of a document, nested in any way, that is parsed with no error leaves the
-- parser as it was before, but for the result: the same open nodes, interface, method, signal,
-- property and argument, the same annotation flag and the same depth below namespaced elements,
-- where that depth fits its `guint` at the start.
pub parse_element_context :
    (ext : External) (w : World) (e : Element) {w' : World}
    → FitsGuint w
    → parse_element ext w e ≡ ok w'
    → w'.parser ≡ record (w.parser) { result = w'.parser.result }
parse_element_context ext w e d h = element_context ext w e d h
