-- ===== src/Parser/State.antt =====
-- The `Parser` of dbus/dbus-gparser.c, the store that it builds in, and what it calls outside the
-- repository.
use Prim.Native.Nat.{Ordering}
use dbus_glib.Prelude.{
  ℕ, zero, suc, ◌+◌, ◌-◌, ◌%◌, ◌/◌, Bool, true, false, ◌||◌, Option, none, some, List, [], ◌∷◌,
  ◌==◌, ltb, Bytes, if◌then◌else◌,
}
use dbus_glib.Outcome.{Outcome, ok, err, guard, ◌>>=◌, wrong_doctype, attribute_required}
use dbus_glib.Prelude.{str_equal, codes}
use dbus_glib.Heap.{is_some}
use dbus_glib.Idl.Data.{Store, empty_store}
use dbus_glib.Idl.Containers.{node_info_unref}
use dbus_glib.Parser.Attributes.{Slots}

-- GLib and libdbus: the checks of names, of UTF-8 and of signatures, and the sorting of a list.
-- `signature_validate` gives the message of the error that libdbus sets.
pub record External : Type 0 where
  pub is_interface_name : Bytes → Bool
  pub is_member_name : Bytes → Bool
  pub utf8_validate : Bytes → Bool
  pub is_signature : Bytes → Bool
  pub signature_validate : Bytes → Option Bytes
  pub slist_sort : (ℕ → ℕ → Ordering) → List ℕ → List ℕ

pub record Parser : Type 0 where
  pub refcount : ℕ
  pub result : Option ℕ
  pub node_stack : List ℕ
  pub interface : Option ℕ
  pub method : Option ℕ
  pub signal : Option ℕ
  pub property : Option ℕ
  pub arg : Option ℕ
  pub in_annotation : Bool
  pub unknown_namespaced_depth : ℕ

pub record World : Type 0 where
  pub parser : Parser
  pub store : Store

abbrev pub parser_new : Parser
parser_new = record {
  refcount = 1;
  result = none;
  node_stack = [];
  interface = none;
  method = none;
  signal = none;
  property = none;
  arg = none;
  in_annotation = false;
  unknown_namespaced_depth = 0;
}

abbrev pub new_world : World
new_world = record { parser = parser_new; store = empty_store }

-- `refcount` is an `int`; a count past INT_MAX is not modelled.
unfoldable pub parser_ref : World → World
parser_ref w = record w { parser = record w.parser { refcount = w.parser.refcount + 1 } }

-- The description that is left when the parser loses a reference, with fuel for its depth.
unfoldable pub parser_unref : ℕ → World → Outcome World
unfolding node_info_unref
parser_unref fuel w = do
  let parser = record w.parser { refcount = w.parser.refcount - 1 }
  let lowered = record w { parser = parser }
  if parser.refcount == 0
      then elim parser.result [
        | none ↦ ok lowered
        | some result ↦
            node_info_unref fuel result w.store >>= λ s. ok (record lowered { store = s })
      ]
      else ok lowered

unfoldable pub parser_check_doctype : Bytes → Outcome (Unit {0})
parser_check_doctype doctype = guard (str_equal doctype (codes "node")) (wrong_doctype doctype)

-- the part of the guards that all elements share
abbrev pub in_member : Parser → Bool
in_member p = is_some p.method || is_some p.signal || is_some p.property

abbrev pub is_cons : List ℕ → Bool
is_cons [] = false
is_cons (p ∷ ps) = true

abbrev pub top : List ℕ → Option ℕ
top [] = none
top (p ∷ ps) = some p

abbrev pub pop : List ℕ → List ℕ
pop [] = []
pop (p ∷ ps) = ps

-- the variable behind the i-th `retloc`
abbrev pub value_of : Slots → ℕ → Option Bytes
value_of [] i = none
value_of ((name, value) ∷ slots) zero = value
value_of ((name, value) ∷ slots) (suc i) = value_of slots i

abbrev pub required : Bytes → Bytes → Option Bytes → Outcome Bytes
required attribute element_name none = err (attribute_required attribute element_name)
required attribute element_name (some value) = ok value

abbrev pub starts_slash : Bytes → Bool
starts_slash [] = false
starts_slash (c ∷ cs) = c == b'/'

-- `printf ("%d")` of a count
digits : ℕ → ℕ → Bytes → Bytes
digits zero n acc = acc
digits (suc fuel) n acc =
    let more = digits fuel (n / 10) ((b'0' + n % 10) ∷ acc) in
    if ltb n 10 then (b'0' + n) ∷ acc else more

unfoldable pub decimal : ℕ → Bytes
unfolding digits
decimal n = digits (suc n) n []
