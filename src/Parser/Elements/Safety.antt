-- ===== src/Parser/Elements/Safety.antt =====
-- No handler fails an assertion or follows a dangling pointer, and each keeps the parser safe.
use dbus_glib.Prelude.{ℕ, ◌≡◌, refl, arith, true, ◌||◌, Option, none, some, List, [], ◌∷◌, Bytes}
use dbus_glib.Outcome.{or_abort, Returns, Returns-bind, Returns-of, Returns-ok}
use dbus_glib.Heap.{Table, is_some, Live, LiveIf, LiveIf-Keeps, AllLive, AllLive-Keeps}
use dbus_glib.Idl.Data.{Store, NodeInfo}
use dbus_glib.Idl.Growth.{Grows, ArgsLive, Linked}
use dbus_glib.Parser.Attributes.{Attributes}
use dbus_glib.Parser.State.{External, World, is_cons, top, in_member}
use dbus_glib.Idl.Sorting.{SortLaws}
use dbus_glib.Idl.Members.{method_info_get_n_args, signal_info_get_n_args}
use dbus_glib.Parser.Attach.{
  attach_node, attach_interface, attach_method, attach_signal, attach_property, attach_arg,
  add_annotation,
}
use dbus_glib.Parser.Attach.Growth.{
  TopLive, attach_interface_lem, attach_node_lem, attach_method_lem, attach_signal_lem,
  attach_property_lem,
}
use dbus_glib.Parser.Attach.Args.{attach_arg_lem, add_annotation_lem}
use dbus_glib.Parser.Elements.{
  parse_node, parse_interface, parse_method, parse_signal, parse_property, parse_arg,
  parse_annotation, check_node, check_interface, check_member, check_property, check_arg,
  check_annotation, arg_name,
}
use dbus_glib.Parser.Elements.Checks.{
  check_node_lem, check_interface_lem, check_member_lem, check_property_lem, check_arg_lem,
  check_annotation_lem,
}

-- What the pointers of the parser lead to, and what is open inside what.
pub record IsSafe (w : World) : Type 0 where
  pub stack_live : AllLive w.store.nodes w.parser.node_stack
  pub interface_live : LiveIf w.store.interfaces w.parser.interface
  pub method_live : LiveIf w.store.methods w.parser.method
  pub signal_live : LiveIf w.store.signals w.parser.signal
  pub property_live : LiveIf w.store.properties w.parser.property
  pub arg_live : LiveIf w.store.args w.parser.arg
  pub result_live : LiveIf w.store.nodes w.parser.result
  pub member_inside : in_member w.parser ≡ true → is_some w.parser.interface ≡ true
  pub args_live : ArgsLive w.store
  pub linked : Linked w.store

-- A grown store is as safe, for the same parser.
pub grown : (w : World) (s : Store) → IsSafe w → Grows w.store s → IsSafe (record w { store = s })
grown w s h g = record {
  stack_live = AllLive-Keeps w.store.nodes s.nodes w.parser.node_stack g.nodes h.stack_live;
  interface_live =
      LiveIf-Keeps w.store.interfaces s.interfaces w.parser.interface g.interfaces h.interface_live;
  method_live = LiveIf-Keeps w.store.methods s.methods w.parser.method g.methods h.method_live;
  signal_live = LiveIf-Keeps w.store.signals s.signals w.parser.signal g.signals h.signal_live;
  property_live =
      LiveIf-Keeps w.store.properties s.properties w.parser.property g.properties h.property_live;
  arg_live = LiveIf-Keeps w.store.args s.args w.parser.arg g.args h.arg_live;
  result_live = LiveIf-Keeps w.store.nodes s.nodes w.parser.result g.nodes h.result_live;
  member_inside = h.member_inside;
  args_live = g.args_live h.args_live;
  linked = g.linked h.linked;
}

-- A start handler keeps the world safe, and only adds to the store.
pub record Started (w w' : World) : Type 0 where
  pub safe : IsSafe w'
  pub grows : Grows w.store w'.store

-- The signatures that libdbus accepts are signatures to GLib too, and `g_slist_sort` sorts.
pub record ExternalLaws (ext : External) : Type 0 where
  pub signatures_agree : (t : Bytes) → ext.signature_validate t ≡ none → ext.is_signature t ≡ true
  pub sorts : SortLaws ext.slist_sort

top-Live :
    (t : Table NodeInfo) (stack : List ℕ)
    → AllLive t stack
    → is_cons stack ≡ true
    → Returns (λ node. Live t node) (or_abort (top stack))
top-Live t [] l c = cc
top-Live t (p ∷ ps) (l, ls) c = Returns-ok l

open-Live :
    {A : Type 0} (t : Table A) (o : Option ℕ)
    → LiveIf t o
    → is_some o ≡ true
    → Returns (λ p. Live t p) (or_abort o)
open-Live t none l c = cc
open-Live t (some p) l c = Returns-ok l

TopLive-of_AllLive : (s : Store) (stack : List ℕ) → AllLive s.nodes stack → TopLive s stack
TopLive-of_AllLive s [] l = tt
TopLive-of_AllLive s (p ∷ ps) (l, ls) = l

module _ (ext : External) (laws : ExternalLaws ext) (e : Bytes) (a : Attributes) (w : World)
    (h : IsSafe w) where
  pub parse_node_safe : Returns (Started w) (parse_node e a w)
  unfolding parse_node
  parse_node_safe =
      Returns-bind (check_node e a w.parser) _ (check_node_lem ext e a w.parser) λ name c.
        Returns-bind (attach_node w.parser.node_stack name w.store) _
          (attach_node_lem w.parser.node_stack name w.store
            (TopLive-of_AllLive w.store w.parser.node_stack h.stack_live))
          λ made g.
            let safe = grown w made.1 h g.0 in
            Returns-ok (record {
              safe = record {
                stack_live = (g.1, safe.stack_live);
                interface_live = safe.interface_live;
                method_live = safe.method_live;
                signal_live = safe.signal_live;
                property_live = safe.property_live;
                arg_live = safe.arg_live;
                member_inside = safe.member_inside;
                result_live = safe.result_live;
                args_live = safe.args_live;
                linked = safe.linked;
              };
              grows = g.0;
            })

  pub parse_interface_safe : Returns (Started w) (parse_interface ext e a w)
  unfolding parse_interface
  parse_interface_safe =
      Returns-bind (check_interface ext e a w.parser) _ (check_interface_lem ext e a w.parser)
        λ name c.
          Returns-bind (or_abort (top w.parser.node_stack)) _
            (top-Live w.store.nodes w.parser.node_stack h.stack_live c.1)
            λ node l.
              Returns-bind (attach_interface ext.is_interface_name name node w.store) _
                (attach_interface_lem ext.is_interface_name name node w.store c.2 l)
                λ made g.
                  let safe = grown w made.1 h g.0 in
                  Returns-ok (record {
                    safe = record {
                      stack_live = safe.stack_live;
                      interface_live = g.1;
                      method_live = safe.method_live;
                      signal_live = safe.signal_live;
                      property_live = safe.property_live;
                      arg_live = safe.arg_live;
                      member_inside = λ m. refl;
                      result_live = safe.result_live;
                      args_live = safe.args_live;
                      linked = safe.linked;
                    };
                    grows = g.0;
                  })

  pub parse_method_safe : Returns (Started w) (parse_method ext e a w)
  unfolding parse_method
  parse_method_safe =
      Returns-bind (check_member ext e a w.parser) _ (check_member_lem ext e a w.parser) λ name c.
        Returns-bind (or_abort w.parser.interface) _
          (open-Live w.store.interfaces w.parser.interface h.interface_live c.0.0)
          λ iface l.
            Returns-bind (attach_method ext.is_member_name name iface w.store) _
              (attach_method_lem ext.is_member_name name iface w.store c.1 l)
              λ made g.
                let safe = grown w made.1 h g.0 in
                Returns-ok (record {
                  safe = record {
                    stack_live = safe.stack_live;
                    interface_live = safe.interface_live;
                    method_live = g.1;
                    signal_live = safe.signal_live;
                    property_live = safe.property_live;
                    arg_live = safe.arg_live;
                    member_inside = λ m. c.0.0;
                    result_live = safe.result_live;
                    args_live = safe.args_live;
                    linked = safe.linked;
                  };
                  grows = g.0;
                })

  pub parse_signal_safe : Returns (Started w) (parse_signal ext e a w)
  unfolding parse_signal
  parse_signal_safe =
      Returns-bind (check_member ext e a w.parser) _ (check_member_lem ext e a w.parser) λ name c.
        Returns-bind (or_abort w.parser.interface) _
          (open-Live w.store.interfaces w.parser.interface h.interface_live c.0.0)
          λ iface l.
            Returns-bind (attach_signal ext.is_member_name name iface w.store) _
              (attach_signal_lem ext.is_member_name name iface w.store c.1 l)
              λ made g.
                let safe = grown w made.1 h g.0 in
                Returns-ok (record {
                  safe = record {
                    stack_live = safe.stack_live;
                    interface_live = safe.interface_live;
                    method_live = safe.method_live;
                    signal_live = g.1;
                    property_live = safe.property_live;
                    arg_live = safe.arg_live;
                    member_inside = λ m. c.0.0;
                    result_live = safe.result_live;
                    args_live = safe.args_live;
                    linked = safe.linked;
                  };
                  grows = g.0;
                })

  pub parse_property_safe : Returns (Started w) (parse_property ext e a w)
  unfolding parse_property
  parse_property_safe =
      Returns-bind (check_property ext e a w.parser) _ (check_property_lem ext e a w.parser)
        λ found c.
          Returns-bind (or_abort w.parser.interface) _
            (open-Live w.store.interfaces w.parser.interface h.interface_live c.0.0)
            λ iface l.
              Returns-bind
                (attach_property ext.utf8_validate ext.is_signature found.0 found.1 found.2 iface
                  w.store)
                _
                (attach_property_lem ext.utf8_validate ext.is_signature found.0 found.1 found.2
                  iface w.store c.1 (laws.signatures_agree found.1 c.2) l)
                λ made g.
                  let safe = grown w made.1 h g.0 in
                  Returns-ok (record {
                    safe = record {
                      stack_live = safe.stack_live;
                      interface_live = safe.interface_live;
                      method_live = safe.method_live;
                      signal_live = safe.signal_live;
                      property_live = g.1;
                      arg_live = safe.arg_live;
                      member_inside = λ m. c.0.0;
                      result_live = safe.result_live;
                      args_live = safe.args_live;
                      linked = safe.linked;
                    };
                    grows = g.0;
                  })

  arg_name_safe :
      (name : Option Bytes)
      → (is_some w.parser.method || is_some w.parser.signal) ≡ true
      → Returns (λ n. Unit {0}) (arg_name w.parser name w.store)
  unfolding method_info_get_n_args signal_info_get_n_args
  arg_name_safe name c =
      Returns-of (arg_name w.parser name w.store) (ground (arith, h.method_live, h.signal_live))
        (λ n k. tt)

  pub parse_arg_safe : Returns (Started w) (parse_arg ext e a w)
  unfolding parse_arg
  parse_arg_safe =
      Returns-bind (check_arg ext e a w.parser) _ (check_arg_lem ext e a w.parser) λ found c.
        Returns-bind (arg_name w.parser found.0 w.store) _ (arg_name_safe found.0 c.0) λ name _.
          Returns-bind
            (attach_arg ext.slist_sort w.parser.method w.parser.signal name found.1 found.2 w.store)
            _
            (attach_arg_lem ext.slist_sort laws.sorts name found.2 found.1 w.store w.parser.method
              w.parser.signal h.method_live h.signal_live c.0 c.2 h.args_live)
            λ made g.
              let safe = grown w made.1 h g.0 in
              Returns-ok (record {
                safe = record {
                  stack_live = safe.stack_live;
                  interface_live = safe.interface_live;
                  method_live = safe.method_live;
                  signal_live = safe.signal_live;
                  property_live = safe.property_live;
                  arg_live = g.1;
                  member_inside = safe.member_inside;
                  result_live = safe.result_live;
                  args_live = safe.args_live;
                  linked = safe.linked;
                };
                grows = g.0;
              })

  annotated :
      (is_some w.parser.interface || in_member w.parser || is_some w.parser.arg) ≡ true
      → (is_some w.parser.arg || is_some w.parser.method || is_some w.parser.interface) ≡ true
  annotated c = ground (arith, h.member_inside)

  pub parse_annotation_safe : Returns (Started w) (parse_annotation e a w)
  unfolding parse_annotation
  parse_annotation_safe =
      Returns-bind (check_annotation e a w.parser) _ (check_annotation_lem ext e a w.parser)
        λ found c.
          Returns-bind
            (add_annotation w.parser.arg w.parser.method w.parser.interface found.0 found.1 w.store)
            _
            (add_annotation_lem w.parser.arg w.parser.method w.parser.interface found.0 found.1
              w.store h.arg_live h.method_live h.interface_live (annotated c))
            λ s g.
              let safe = grown w s h g in
              Returns-ok (record {
                safe = record {
                  stack_live = safe.stack_live;
                  interface_live = safe.interface_live;
                  method_live = safe.method_live;
                  signal_live = safe.signal_live;
                  property_live = safe.property_live;
                  arg_live = safe.arg_live;
                  member_inside = safe.member_inside;
                  result_live = safe.result_live;
                  args_live = safe.args_live;
                  linked = safe.linked;
                };
                grows = g;
              })
