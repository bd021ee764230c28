-- ===== src/Parser/Elements/Checks.antt =====
-- What the checks of each handler establish when they pass; they never stop the process.
use dbus_glib.Prelude.{◌≡◌, arith, true, false, ◌||◌, none, [], ◌∷◌, Bytes, codes}
use dbus_glib.Outcome.{Returns, Returns-of}
use dbus_glib.Heap.{is_some}
use dbus_glib.Idl.Data.{arg_out}
use dbus_glib.Parser.Attributes.{Attributes}
use dbus_glib.Parser.Attributes.Totality.{locate-ne-abort}
use dbus_glib.Parser.State.{External, Parser, in_member, is_cons}
use dbus_glib.Parser.Elements.{
  check_node, check_interface, check_member, check_property, check_arg, check_annotation,
}

-- Nothing that an interface holds is open.
abbrev pub NoneOpen : Parser → Type 0
NoneOpen p =
    (is_some p.interface ≡ false)
    × (in_member p ≡ false)
    × (is_some p.arg ≡ false)
    × (p.in_annotation ≡ false)

-- An interface is open, and nothing in it.
abbrev pub InterfaceOpen : Parser → Type 0
InterfaceOpen p =
    (is_some p.interface ≡ true)
    × (is_cons p.node_stack ≡ true)
    × (in_member p ≡ false)
    × (is_some p.arg ≡ false)
    × (p.in_annotation ≡ false)

module _ (ext : External) (e : Bytes) (a : Attributes) (p : Parser) where
  pub check_node_lem : Returns (λ name. NoneOpen p) (check_node e a p)
  unfolding check_node
  check_node_lem =
      Returns-of (check_node e a p) (ground (arith, locate-ne-abort e a (codes "name" ∷ [])))
        (λ name h. (ground arith, ground arith, ground arith, ground arith))

  pub check_interface_lem :
      Returns
        (λ name. NoneOpen p × (is_cons p.node_stack ≡ true) × (ext.is_interface_name name ≡ true))
        (check_interface ext e a p)
  unfolding check_interface
  check_interface_lem =
      Returns-of (check_interface ext e a p)
        (ground (arith, locate-ne-abort e a (codes "name" ∷ [])))
        (λ name h.
          ((ground arith, ground arith, ground arith, ground arith), ground arith, ground arith))

  pub check_member_lem :
      Returns (λ name. InterfaceOpen p × (ext.is_member_name name ≡ true)) (check_member ext e a p)
  unfolding check_member
  check_member_lem =
      Returns-of (check_member ext e a p) (ground (arith, locate-ne-abort e a (codes "name" ∷ [])))
        (λ name h.
          ((ground arith, ground arith, ground arith, ground arith, ground arith), ground arith))

  pub check_property_lem :
      Returns
        (λ found.
          InterfaceOpen p
          × (ext.utf8_validate found.0 ≡ true)
          × (ext.signature_validate found.1 ≡ none))
        (check_property ext e a p)
  unfolding check_property
  check_property_lem =
      Returns-of (check_property ext e a p)
        (ground (arith, locate-ne-abort e a (codes "name" ∷ codes "access" ∷ codes "type" ∷ [])))
        (λ found h. (
          (ground arith, ground arith, ground arith, ground arith, ground arith),
          ground arith,
          ground arith,
        ))

  pub check_arg_lem :
      Returns
        (λ found.
          ((is_some p.method || is_some p.signal) ≡ true)
          × (is_some p.arg ≡ false)
          × (is_some p.signal ≡ true → found.1 ≡ arg_out))
        (check_arg ext e a p)
  unfolding check_arg
  check_arg_lem =
      Returns-of (check_arg ext e a p)
        (ground (arith, locate-ne-abort e a (codes "name" ∷ codes "type" ∷ codes "direction" ∷ [])))
        (λ found h. (ground arith, ground arith, λ open_signal. ground arith))

  pub check_annotation_lem :
      Returns
        (λ found. (is_some p.interface || in_member p || is_some p.arg) ≡ true)
        (check_annotation e a p)
  unfolding check_annotation
  check_annotation_lem =
      Returns-of (check_annotation e a p)
        (ground (arith, locate-ne-abort e a (codes "name" ∷ codes "value" ∷ [])))
        (λ found h. ground arith)
