-- ===== src/Parser/Elements/Annotations.antt =====
-- Where an annotation goes.
use dbus_glib.Prelude.{
  ℕ, ◌≡◌, refl, arith, ◌⊎◌, inl, inr, Option-cases, none, some, List, [], ◌∷◌, Bytes, codes,
}
use dbus_glib.Outcome.{Outcome, ok, err, abort, >>=-eq-ok}
use dbus_glib.Heap.{Live, Live-some, write}
use dbus_glib.Idl.Data.{Store, InterfaceInfo, hash_insert}
use dbus_glib.Parser.Attributes.{Attributes, Slots, locate_attributes}
use dbus_glib.Parser.Attributes.Laws.{find, locate_attributes_iff}
use dbus_glib.Parser.State.{External, Parser, World}
use dbus_glib.Parser.Attach.{add_annotation}
use dbus_glib.Parser.Elements.{
  check_annotation, parse_annotation, check_property, parse_property, check_member, parse_signal,
}

abbrev annotation_attributes : List Bytes
annotation_attributes = codes "name" ∷ codes "value" ∷ []

-- the name and the value of the attributes are entered at an interface of the store
abbrev pub EnteredAt : ℕ → Attributes → Store → Store → Type 0
EnteredAt i a s s' =
    (info : InterfaceInfo) × (name value : Bytes) × (s.interfaces.cell i ≡ some info)
    × (find (codes "name") a ≡ some name)
    × (find (codes "value") a ≡ some value)
    × (s' ≡ record s {
      interfaces =
          write s.interfaces i
            (record info { annotations = hash_insert name value info.annotations });
    })

abbrev InMember : World → World → Type 0
InMember w w1 =
    (i : ℕ) × (w.parser.interface ≡ some i)
    × (w1.parser.arg ≡ none)
    × (w1.parser.method ≡ none)
    × (w1.parser.interface ≡ some i)

found_annotation :
    (e : Bytes) (a : Attributes) (p : Parser) {found : Bytes × Bytes} (o : Outcome Slots)
    → locate_attributes e a annotation_attributes ≡ o
    → check_annotation e a p ≡ ok found
    → (find (codes "name") a ≡ some found.0) × (find (codes "value") a ≡ some found.1)
unfolding check_annotation
found_annotation e a p (ok slots) l h =
    let facts = (locate_attributes_iff e a annotation_attributes slots).0 l in
    (ground (arith, facts.3), ground (arith, facts.3))
found_annotation e a p (err x) l h = ground arith
found_annotation e a p abort l h = ground arith

-- an annotation with no argument and no method open is entered at the interface
entered :
    (e : Bytes) (a : Attributes) (w w' : World) (i : ℕ)
    → w.parser.arg ≡ none
    → w.parser.method ≡ none
    → w.parser.interface ≡ some i
    → parse_annotation e a w ≡ ok w'
    → EnteredAt i a w.store w'.store
unfolding parse_annotation add_annotation
entered e a w w' i no_arg no_method open_interface h =
    let (found, checked, added) = >>=-eq-ok (check_annotation e a w.parser) _ h in
    let (name_is, value_is) = found_annotation e a w.parser _ refl checked in
    let live : Live w.store.interfaces i = ground arith in
    let (info, here) = Live-some w.store.interfaces i live in
    (info, found.0, found.1, here, name_is, value_is, ground arith)

-- what the parser has open once a property or a signal has started
opened_property :
    (ext : External) (e : Bytes) (a : Attributes) (w w1 : World)
    → parse_property ext e a w ≡ ok w1
    → InMember w w1
unfolding parse_property check_property
opened_property ext e a w w1 h = elim (Option-cases w.parser.interface) [
  | inl closed ↦ ground (arith, closed)
  | inr (i, here) ↦ (i, here, ground (arith, here), ground (arith, here), ground (arith, here))
]

opened_signal :
    (ext : External) (e : Bytes) (a : Attributes) (w w1 : World)
    → parse_signal ext e a w ≡ ok w1
    → InMember w w1
unfolding parse_signal check_member
opened_signal ext e a w w1 h = elim (Option-cases w.parser.interface) [
  | inl closed ↦ ground (arith, closed)
  | inr (i, here) ↦ (i, here, ground (arith, here), ground (arith, here), ground (arith, here))
]

-- If a property or a signal of an interface has started and an annotation starts in it, then the
-- annotation is entered at the interface that is open, in place of one of the same name there, and
-- nothing else in the store changes: the property or the signal does not get it.
pub annotation_goes_to_interface :
    (ext : External) (member_name e : Bytes) (member_attributes a : Attributes) (w w1 w' : World)
    → (parse_property ext member_name member_attributes w ≡ ok w1)
      ⊎ (parse_signal ext member_name member_attributes w ≡ ok w1)
    → parse_annotation e a w1 ≡ ok w'
    → (i : ℕ) × (w.parser.interface ≡ some i) × EnteredAt i a w1.store w'.store
annotation_goes_to_interface ext member_name e member_attributes a w w1 w' (inl h) k =
    let (i, here, no_arg, no_method, still) =
      opened_property ext member_name member_attributes w w1 h in
    (i, here, entered e a w1 w' i no_arg no_method still k)
annotation_goes_to_interface ext member_name e member_attributes a w w1 w' (inr h) k =
    let (i, here, no_arg, no_method, still) =
      opened_signal ext member_name member_attributes w w1 h in
    (i, here, entered e a w1 w' i no_arg no_method still k)
