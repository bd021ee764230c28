-- ===== src/Parser/Document.antt =====
-- The dispatch on element names of dbus/dbus-gparser.c, and a whole XML document run through it.
pub mod Context
pub mod Safety
pub mod Counts
use dbus_glib.Prelude.{
  ℕ, ◌+◌, ◌-◌, ◌%◌, ◌^◌, Bool, true, false, not, ◌||◌, Option, none, some, List, [], ◌∷◌, Bytes,
  str_equal, has_char, codes, if◌then◌else◌, ◌==◌, ltb,
}
use dbus_glib.Outcome.{Outcome, ok, err, abort, guard, g_assert, ◌>>=◌, ◌>>◌, not_recognized}
use dbus_glib.Parser.Attributes.{Attributes}
use dbus_glib.Parser.State.{External, Parser, World, is_cons, top, pop}
use dbus_glib.Parser.Elements.{
  parse_node, parse_interface, parse_method, parse_signal, parse_property, parse_arg,
  parse_annotation,
}

-- `unknown_namespaced_depth` is a `guint`.
abbrev pub deeper : Parser → Parser
deeper p = record p { unknown_namespaced_depth = (p.unknown_namespaced_depth + 1) % 2 ^ 32 }

abbrev pub shallower : Parser → Parser
shallower p = record p {
  unknown_namespaced_depth = (p.unknown_namespaced_depth + 2 ^ 32 - 1) % 2 ^ 32;
}

unfoldable pub start_unknown : Bytes → World → Outcome World
start_unknown element_name w =
    if has_char b':' element_name
    then ok (record w { parser = deeper w.parser })
    else if w.parser.unknown_namespaced_depth == 0
    then err (not_recognized element_name)
    else ok w

unfoldable pub parser_start_element : External → Bytes → Attributes → World → Outcome World
parser_start_element ext element_name attributes w =
    if str_equal element_name (codes "node")
    then parse_node element_name attributes w
    else if str_equal element_name (codes "interface")
    then parse_interface ext element_name attributes w
    else if str_equal element_name (codes "method")
    then parse_method ext element_name attributes w
    else if str_equal element_name (codes "signal")
    then parse_signal ext element_name attributes w
    else if str_equal element_name (codes "property")
    then parse_property ext element_name attributes w
    else if str_equal element_name (codes "arg")
    then parse_arg ext element_name attributes w
    else if str_equal element_name (codes "annotation")
    then parse_annotation element_name attributes w
    else start_unknown element_name w

-- the last node popped is the result
abbrev pub result_after : Parser → List ℕ → Option ℕ
result_after p [] = top p.node_stack
result_after p (node ∷ rest) = p.result

unfoldable pub end_node : World → Outcome World
end_node w = do
  let p = w.parser
  g_assert (is_cons p.node_stack)
  let rest = pop p.node_stack
  ok (record w { parser = record p { node_stack = rest; result = result_after p rest } })

unfoldable pub end_unknown : Bytes → World → Outcome World
end_unknown element_name w =
    if has_char b':' element_name
    then ok (record w { parser = shallower w.parser })
    else if ltb 0 w.parser.unknown_namespaced_depth
    then ok w
    else abort

unfoldable pub parser_end_element : Bytes → World → Outcome World
parser_end_element element_name w =
    let p = w.parser in
    if str_equal element_name (codes "interface")
    then ok (record w { parser = record p { interface = none } })
    else if str_equal element_name (codes "method")
    then ok (record w { parser = record p { method = none } })
    else if str_equal element_name (codes "signal")
    then ok (record w { parser = record p { signal = none } })
    else if str_equal element_name (codes "property")
    then ok (record w { parser = record p { property = none } })
    else if str_equal element_name (codes "arg")
    then ok (record w { parser = record p { arg = none } })
    else if str_equal element_name (codes "annotation")
    then ok (record w { parser = record p { in_annotation = false } })
    else if str_equal element_name (codes "node")
    then end_node w
    else end_unknown element_name w

-- `parser_content` accepts all text, and changes nothing.
unfoldable pub parser_content : Bytes → World → Outcome World
parser_content content w = ok w

-- `parser_finished`
unfoldable pub parser_finished : World → Outcome World
parser_finished w = ok w

-- `parser_get_nodes`
unfoldable pub parser_get_nodes : World → Option ℕ
parser_get_nodes w = w.parser.result

-- A well-formed document: its elements are nested.
mutual
  pub data Element : Type 0 where
    element : Bytes → Attributes → Content → Element

  pub data Content : Type 0 where
    end : Content
    text : Bytes → Content → Content
    child : Element → Content → Content

-- The calls that an XML parser makes for it.
unfoldable mutual
  pub parse_element : External → World → Element → Outcome World
  parse_element ext w (element name attributes content) = do
    started ← parser_start_element ext name attributes w
    inside ← parse_content ext started content
    parser_end_element name inside

  pub parse_content : External → World → Content → Outcome World
  parse_content ext w end = ok w
  parse_content ext w (text t rest) = do w' ← parser_content t w; parse_content ext w' rest
  parse_content ext w (child e rest) = do w' ← parse_element ext w e; parse_content ext w' rest
