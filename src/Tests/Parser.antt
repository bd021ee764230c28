-- ===== src/Tests/Parser.antt =====
-- Runs of dbus/dbus-gparser.c and dbus/dbus-gloader-expat.c, and their theorems at concrete inputs.
use dbus_glib.Prelude.{
  ◌≡◌, ◌≢◌, ◌≤◌, ◌↔◌, refl, arith, true, none, some, List, [], ◌∷◌, Bytes, codes, str_equal,
  has_char, length, ℕ, inl,
}
use mathlib.Core.Option
use dbus_glib.Outcome.{Outcome, ok, err, abort, cannot_put_here, not_recognized, repeated_attribute}
use dbus_glib.Idl.Data.{Store, NodeInfo, ArgInfo, hash_insert}
use dbus_glib.Idl.Growth.{Grows, args_at}
use dbus_glib.Idl.Containers.{node_info_unref}
use dbus_glib.Parser.Attributes.{Attributes, locate_attributes}
use dbus_glib.Parser.Attributes.Laws.{all_known, none_twice, found_values, locate_attributes_iff}
use dbus_glib.Parser.State.{External, World, new_world, decimal}
use dbus_glib.Parser.Elements.{
  parse_node, parse_interface, parse_method, parse_signal, parse_property, parse_arg,
  parse_annotation, check_node, check_interface, check_member, check_property, check_arg,
  check_annotation,
}
use dbus_glib.Parser.Attach.{
  attach_node, attach_interface, attach_method, attach_signal, attach_property, attach_arg,
  add_annotation,
}
use dbus_glib.Idl.Members.{
  method_info_get_n_args, signal_info_get_n_args, args_sort_by_direction, directions_of,
}
use dbus_glib.Parser.Elements.Safety.{ExternalLaws, IsSafe}
use dbus_glib.Parser.Elements.Annotations.{EnteredAt, annotation_goes_to_interface}
use dbus_glib.Parser.Document.{
  Element, element, Content, end, text, child, parser_start_element, parser_end_element,
  parse_element, start_unknown, end_node, end_unknown, parser_content,
}
use dbus_glib.Parser.Document.Context.{parse_element_context}
use dbus_glib.Parser.Document.Safety.{document-ne-abort, parse_element_keeps, IsSafe-new_world}
use dbus_glib.Loader.{handle_all, new_context, description_load_from_string}
use dbus_glib.Loader.Handlers.{events_of, outcome_of, handle_all_document}
use dbus_glib.Loader.Bugs.{node_with, load_namespaced_root, child_node_leaks}
use dbus_glib.Loader.Root.{IsHandedOver, load_node_root}
use dbus_glib.Tests.Sort.{insertion_sort, insertion_sort_laws}

-- An interface name has a '.', a member name has none; all else is accepted.
abbrev plain : External
plain = record {
  is_interface_name = has_char b'.';
  is_member_name = λ name. true;
  utf8_validate = λ name. true;
  is_signature = λ type. true;
  signature_validate = λ type. none;
  slist_sort = insertion_sort;
}

plain_laws : ExternalLaws plain
plain_laws = record { signatures_agree = λ t h. refl; sorts = insertion_sort_laws }

abbrev named : Bytes → Attributes
named name = (codes "name", name) ∷ []

abbrev arg_out_s : Element
arg_out_s =
    element (codes "arg") ((codes "type", codes "s") ∷ (codes "direction", codes "out") ∷ []) end

abbrev arg_in_u : Element
arg_in_u = element (codes "arg") ((codes "type", codes "u") ∷ []) end

abbrev note : Element
note =
    element (codes "annotation") ((codes "name", codes "x.y") ∷ (codes "value", codes "1") ∷ []) end

abbrev bar : Element
bar =
    element (codes "method") (named (codes "Bar"))
      (child arg_out_s (child arg_in_u (child note end)))

abbrev prop : Element
prop =
    element (codes "property")
      ((codes "name", codes "P") ∷ (codes "access", codes "read") ∷ (codes "type", codes "s") ∷ [])
      (child note end)

abbrev iface : Element
iface =
    element (codes "interface") (named (codes "org.Foo"))
      (text (codes " ") (child bar (child prop end)))

abbrev doc_content : Content
doc_content = child iface (child (element (codes "node") (named (codes "child")) end) end)

abbrev doc : Element
doc = element (codes "node") (named (codes "/org/Foo")) doc_content

abbrev world_of : Outcome World → World
world_of (ok w) = w
world_of (err e) = new_world
world_of abort = new_world

abbrev parsed : World
parsed = world_of (parse_element plain new_world doc)

-- To run the parser is to unfold all of it.
abbrev parser_runs : Unit {0}
unfolding parse_element parser_start_element parser_end_element start_unknown end_node end_unknown
    parser_content parse_node parse_interface parse_method parse_signal parse_property parse_arg
    parse_annotation check_node check_interface check_member check_property check_arg
    check_annotation attach_node attach_interface attach_method attach_signal attach_property
    attach_arg add_annotation method_info_get_n_args signal_info_get_n_args args_sort_by_direction
    directions_of decimal locate_attributes hash_insert str_equal has_char
parser_runs = tt

doc_parses : parse_element plain new_world doc ≡ ok parsed
unfolding parser_runs
doc_parses = refl

-- The "in" argument comes first, and is called after its place; the first has no name either.
doc_args : args_at parsed.store 0 ≡ 1 ∷ 0 ∷ []
unfolding parser_runs
doc_args = refl

arg_names :
    (Option.map (λ (info : ArgInfo). info.base.name) (parsed.store.args.cell 0)
      ≡ some (some (codes "arg0")))
    × (Option.map (λ (info : ArgInfo). info.base.name) (parsed.store.args.cell 1)
        ≡ some (some (codes "arg1")))
unfolding parser_runs
arg_names = (refl, refl)

-- What is refused, and how.
refusals :
    (parse_element plain new_world iface ≡ err (cannot_put_here (codes "interface")))
    × (parse_element plain new_world (element (codes "foo") [] end)
        ≡ err (not_recognized (codes "foo")))
    × (parse_element plain new_world
          (element (codes "node") ((codes "name", codes "/") ∷ (codes "name", codes "/") ∷ []) end)
        ≡ err (repeated_attribute (codes "name") (codes "node")))
unfolding parser_runs
refusals = (refl, refl, refl)

document-ne-abort_example : parse_element plain new_world doc ≢ abort
document-ne-abort_example = document-ne-abort plain doc plain_laws

parse_element_context_example :
    parsed.parser ≡ record (new_world.parser) { result = parsed.parser.result }
parse_element_context_example = parse_element_context plain new_world doc (omega arith) doc_parses

handle_all_document_example :
    outcome_of (handle_all plain (events_of doc []) new_context) ≡ parse_element plain new_world doc
handle_all_document_example = handle_all_document plain doc

load_node_root_example :
    (w : World) × (description_load_from_string plain 1 (events_of doc []) true ≡ ok (0, w))
    × IsHandedOver parsed w
load_node_root_example = load_node_root plain 0 (named (codes "/org/Foo")) doc_content doc_parses

load_namespaced_root_example :
    description_load_from_string plain 9 (events_of (element (codes "x:y") [] end) []) true ≡ abort
load_namespaced_root_example =
    load_namespaced_root plain 9 (codes "x:y") [] (unfold has_char in refl)

parse_element_keeps_example : Grows new_world.store parsed.store × IsSafe parsed
parse_element_keeps_example =
    parse_element_keeps plain new_world parsed doc plain_laws (omega arith) IsSafe-new_world
      doc_parses

abbrev three : List Bytes
three = codes "name" ∷ codes "access" ∷ codes "type" ∷ []

abbrev two_known : Attributes
two_known = (codes "type", codes "s") ∷ (codes "x:y", codes "1") ∷ (codes "name", codes "P") ∷ []

locate_attributes_iff_example :
    (locate_attributes (codes "property") two_known three ≡ ok (found_values two_known three)) ↔ (
      (length three ≤ 24)
      × (all_known three two_known ≡ true)
      × (none_twice three two_known ≡ true)
      × (found_values two_known three ≡ found_values two_known three))
locate_attributes_iff_example =
    locate_attributes_iff (codes "property") two_known three (found_values two_known three)

-- The root node is open; then an interface, and a property in it.
abbrev at_root : World
at_root = world_of (parse_node (codes "node") (named (codes "/")) new_world)

abbrev in_interface : World
in_interface =
    world_of (parse_interface plain (codes "interface") (named (codes "org.Foo")) at_root)

abbrev property_attributes : Attributes
property_attributes =
    (codes "name", codes "P") ∷ (codes "access", codes "read") ∷ (codes "type", codes "s") ∷ []

abbrev in_property : World
in_property = world_of (parse_property plain (codes "property") property_attributes in_interface)

abbrev note_attributes : Attributes
note_attributes = (codes "name", codes "x.y") ∷ (codes "value", codes "1") ∷ []

abbrev annotated : World
annotated = world_of (parse_annotation (codes "annotation") note_attributes in_property)

annotated_property :
    (parse_property plain (codes "property") property_attributes in_interface ≡ ok in_property)
    × (parse_annotation (codes "annotation") note_attributes in_property ≡ ok annotated)
unfolding parser_runs
annotated_property = (refl, refl)

annotation_goes_to_interface_example :
    (i : ℕ) × (in_interface.parser.interface ≡ some i)
    × EnteredAt i note_attributes in_property.store annotated.store
annotation_goes_to_interface_example =
    annotation_goes_to_interface plain (codes "property") (codes "annotation") property_attributes
      note_attributes in_interface in_property annotated (inl annotated_property.0)
      annotated_property.1

abbrev with_child : World
with_child = world_of (parse_node (codes "node") (named (codes "child")) at_root)

child_is_parsed :
    (at_root.parser.node_stack ≡ 0 ∷ [])
    × (at_root.store.nodes.cell 0 ≡ some (node_with (some (codes "/")) 1 []))
    × (0 ≢ at_root.store.nodes.next)
    × (parse_node (codes "node") (named (codes "child")) at_root ≡ ok with_child)
unfolding parser_runs
child_is_parsed = (refl, refl, omega arith, refl)

child_node_leaks_example :
    (s : Store) × (left : NodeInfo) × (node_info_unref 2 0 with_child.store ≡ ok s)
    × (s.nodes.cell 0 ≡ none)
    × (s.nodes.cell at_root.store.nodes.next ≡ some left)
    × (left.base.refcount ≡ 1)
child_node_leaks_example =
    child_node_leaks (codes "node") (named (codes "child")) at_root with_child 0 0 []
      (some (codes "/")) child_is_parsed.0 child_is_parsed.1 child_is_parsed.2 child_is_parsed.3
