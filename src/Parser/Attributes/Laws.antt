-- ===== src/Parser/Attributes/Laws.antt =====
-- What `locate_attributes` accepts, and what it finds.
use dbus_glib.Prelude.{
  Bool, true, false, ◌||◌, ◌&&◌, not, Option, none, some, List, [], ◌∷◌, map, Bytes, str_equal,
  has_char, length, leb, ◌↔◌, if◌then◌else◌, ◌≡◌, refl, sym, ap, ◌∙◌, arith, ◌≤◌, Bool-cases, inl,
  inr,
}
use dbus_glib.Outcome.{GError, ok, g_assert, guard, invalid_attribute, >>=-eq-ok}
use dbus_glib.Parser.Attributes.{
  Attributes, Slots, max_attrs, fill_slot, match_slots, scan_attributes, locate_attributes,
}

-- The value of the first attribute of a name.
abbrev pub find : Bytes → Attributes → Option Bytes
find name [] = none
find name ((n, v) ∷ attributes) = if str_equal name n then some v else find name attributes

-- How often a name stands among the attributes.
abbrev pub occurs : Bytes → Attributes → Bool
occurs name [] = false
occurs name ((n, v) ∷ attributes) = str_equal name n || occurs name attributes

abbrev pub occurs_twice : Bytes → Attributes → Bool
occurs_twice name [] = false
occurs_twice name ((n, v) ∷ attributes) =
    if str_equal name n then occurs name attributes else occurs_twice name attributes

abbrev pub is_known : List Bytes → Bytes → Bool
is_known [] n = false
is_known (name ∷ names) n = str_equal name n || is_known names n

-- Every attribute is one of the names, or in a namespace.
abbrev pub all_known : List Bytes → Attributes → Bool
all_known names [] = true
all_known names ((n, v) ∷ attributes) =
    (is_known names n || has_char b':' n) && all_known names attributes

-- None of the names stands there twice.
abbrev pub none_twice : List Bytes → Attributes → Bool
none_twice [] attributes = true
none_twice (name ∷ names) attributes =
    not (occurs_twice name attributes) && none_twice names attributes

abbrev or_else : Option Bytes → Option Bytes → Option Bytes
or_else none b = b
or_else (some a) b = some a

-- What the slots hold at the end.
final : Attributes → Slots → Slots
final attributes [] = []
final attributes ((name, slot) ∷ slots) =
    (name, or_else slot (find name attributes)) ∷ final attributes slots

names_of : Slots → List Bytes
names_of [] = []
names_of ((name, slot) ∷ slots) = name ∷ names_of slots

-- No slot that was filled, or that is named twice, meets the attributes.
clean : Attributes → Slots → Bool
clean attributes [] = true
clean attributes ((name, none) ∷ slots) =
    not (occurs_twice name attributes) && clean attributes slots
clean attributes ((name, some v) ∷ slots) = not (occurs name attributes) && clean attributes slots

-- One attribute: the slots of its name are filled.
put : Bytes × Bytes → Slots → Slots
put (n, v) [] = []
put (n, v) ((name, slot) ∷ slots) =
    (name, if str_equal name n then some v else slot) ∷ put (n, v) slots

-- the slots of this name are all empty
free : Bytes → Slots → Bool
free n [] = true
free n ((name, none) ∷ slots) = free n slots
free n ((name, some v) ∷ slots) = not (str_equal name n) && free n slots

match_slots-free :
    (e n v : Bytes) (found : Bool) (slots : Slots)
    → free n slots ≡ true
    → match_slots e (n, v) found slots ≡ ok (found || is_known (names_of slots) n, put (n, v) slots)
unfolding match_slots fill_slot free put names_of
match_slots-free e n v found [] h = ground arith
match_slots-free e n v found ((name, none) ∷ slots) h =
    ground (arith, match_slots-free e n v true slots, match_slots-free e n v found slots)
match_slots-free e n v found ((name, some w) ∷ slots) h =
    ground (arith, match_slots-free e n v found slots)

match_slots-taken :
    (e n v : Bytes) (found : Bool) (slots : Slots) {r : Bool × Slots}
    → match_slots e (n, v) found slots ≡ ok r
    → free n slots ≡ true
unfolding match_slots fill_slot free
match_slots-taken e n v found [] h = refl
match_slots-taken e n v found ((name, none) ∷ slots) h = elim (Bool-cases (str_equal name n)) [
  | inl same ↦
      let (rest, m, k) = >>=-eq-ok (match_slots e (n, v) true slots) _ (rw same at h) in
      match_slots-taken e n v true slots m
  | inr other ↦
      let (rest, m, k) = >>=-eq-ok (match_slots e (n, v) found slots) _ (rw other at h) in
      match_slots-taken e n v found slots m
]
match_slots-taken e n v found ((name, some w) ∷ slots) h = elim (Bool-cases (str_equal name n)) [
  | inl same ↦ cc (rw same at h)
  | inr other ↦
      let (rest, m, k) = >>=-eq-ok (match_slots e (n, v) found slots) _ (rw other at h) in
      ground (arith, match_slots-taken e n v found slots m)
]

clean-cons :
    (n v : Bytes) (rest : Attributes) (slots : Slots)
    → clean ((n, v) ∷ rest) slots ≡ free n slots && clean rest (put (n, v) slots)
unfolding clean free put
clean-cons n v rest [] = refl
clean-cons n v rest ((name, none) ∷ slots) = ground (arith, clean-cons n v rest slots)
clean-cons n v rest ((name, some w) ∷ slots) = ground (arith, clean-cons n v rest slots)

names_of-put : (n v : Bytes) (slots : Slots) → names_of (put (n, v) slots) ≡ names_of slots
unfolding names_of put
names_of-put n v [] = refl
names_of-put n v ((name, slot) ∷ slots) = ap (◌∷◌ name) (names_of-put n v slots)

final-put :
    (n v : Bytes) (rest : Attributes) (slots : Slots)
    → free n slots ≡ true
    → final rest (put (n, v) slots) ≡ final ((n, v) ∷ rest) slots
unfolding final put free
final-put n v rest [] h = refl
final-put n v rest ((name, none) ∷ slots) h = ground (arith, final-put n v rest slots)
final-put n v rest ((name, some w) ∷ slots) h = ground (arith, final-put n v rest slots)

final-nil : (slots : Slots) → final [] slots ≡ slots
unfolding final
final-nil [] = refl
final-nil ((name, none) ∷ slots) = ap (◌∷◌ (name, none)) (final-nil slots)
final-nil ((name, some v) ∷ slots) = ap (◌∷◌ (name, some v)) (final-nil slots)

clean-nil : (slots : Slots) → clean [] slots ≡ true
unfolding clean
clean-nil [] = refl
clean-nil ((name, none) ∷ slots) = clean-nil slots
clean-nil ((name, some v) ∷ slots) = clean-nil slots

-- The loop succeeds on attributes that are known and not repeated.
scan_complete :
    (e : Bytes) (attributes : Attributes) (slots : Slots)
    → clean attributes slots ≡ true
    → all_known (names_of slots) attributes ≡ true
    → scan_attributes e attributes slots ≡ ok (final attributes slots)
unfolding scan_attributes
scan_complete e [] slots c k = ap ok (sym (final-nil slots))
scan_complete e ((n, v) ∷ rest) slots c k =
    let split = sym (clean-cons n v rest slots) ∙ c in
    let unfilled : free n slots ≡ true = ground arith in
    rw (match_slots-free e n v false slots unfilled) (
      ground (
        arith,
        names_of-put n v slots,
        final-put n v rest slots unfilled,
        scan_complete e rest (put (n, v) slots),
      ))

guard-eq-ok : (b : Bool) (x : GError) {u : Unit {0}} → guard b x ≡ ok u → b ≡ true
guard-eq-ok true x h = refl
guard-eq-ok false x h = cc

-- and only on those.
scan_sound :
    (e : Bytes) (attributes : Attributes) (slots : Slots) {r : Slots}
    → scan_attributes e attributes slots ≡ ok r
    → (clean attributes slots ≡ true) × (all_known (names_of slots) attributes ≡ true)
unfolding scan_attributes
scan_sound e [] slots h = (clean-nil slots, refl)
scan_sound e ((n, v) ∷ rest) slots h =
    let (m, matched, later) = >>=-eq-ok (match_slots e (n, v) false slots) _ h in
    let unfilled = match_slots-taken e n v false slots matched in
    let h' = rw (match_slots-free e n v false slots unfilled) at h in
    let (u, guarded, rest_ok) =
      >>=-eq-ok (guard (is_known (names_of slots) n || has_char b':' n) (invalid_attribute n e)) _
        h' in
    let (c, k) = scan_sound e rest (put (n, v) slots) rest_ok in
    (
      clean-cons n v rest slots ∙ rw (unfilled, c),
      rw (guard-eq-ok _ _ guarded) (rw (names_of-put n v slots) at k),
    )

names_of-empty : (names : List Bytes) → names_of (map (λ name. (name, none)) names) ≡ names
unfolding names_of
names_of-empty [] = refl
names_of-empty (name ∷ names) = ap (◌∷◌ name) (names_of-empty names)

clean-empty :
    (attributes : Attributes) (names : List Bytes)
    → clean attributes (map (λ name. (name, none)) names) ≡ none_twice names attributes
unfolding clean
clean-empty attributes [] = refl
clean-empty attributes (name ∷ names) = rw (clean-empty attributes names)

-- What each variable is set to.
abbrev pub found_values : Attributes → List Bytes → Slots
found_values attributes names = map (λ name. (name, find name attributes)) names

final-empty :
    (attributes : Attributes) (names : List Bytes)
    → final attributes (map (λ name. (name, none)) names) ≡ found_values attributes names
unfolding final
final-empty attributes [] = refl
final-empty attributes (name ∷ names) =
    ap (◌∷◌ (name, find name attributes)) (final-empty attributes names)

-- `locate_attributes` succeeds exactly when at most 24 names are asked for, every attribute has one
-- of the names or a ':' in its own, and none of the names stands there twice; each variable is then
-- the value of the attribute of its name, or NULL where there is none.
pub locate_attributes_iff :
    (element_name : Bytes) (attributes : Attributes) (names : List Bytes) (slots : Slots)
    → (locate_attributes element_name attributes names ≡ ok slots) ↔ (
        (length names ≤ 24)
        × (all_known names attributes ≡ true)
        × (none_twice names attributes ≡ true)
        × (slots ≡ found_values attributes names))
unfolding locate_attributes
locate_attributes_iff e attributes names slots = (to, from)
  where
    to :
        locate_attributes e attributes names ≡ ok slots
        → (length names ≤ 24)
          × (all_known names attributes ≡ true)
          × (none_twice names attributes ≡ true)
          × (slots ≡ found_values attributes names)
    to h =
        let (u, few, scanned) = >>=-eq-ok (g_assert (leb (length names) max_attrs)) _ h in
        let (c, k) = scan_sound e attributes (map (λ name. (name, none)) names) scanned in
        let run = scan_complete e attributes (map (λ name. (name, none)) names) c k in
        (
          ground arith,
          rw names_of-empty at k,
          rw clean-empty at c,
          cc (scanned, run, final-empty attributes names),
        )

    from :
        (length names ≤ 24)
          × (all_known names attributes ≡ true)
          × (none_twice names attributes ≡ true)
          × (slots ≡ found_values attributes names)
        → locate_attributes e attributes names ≡ ok slots
    from (few, known, once, e') = ground (
      arith,
      final-empty attributes names,
      scan_complete e attributes (map (λ name. (name, none)) names)
          (clean-empty attributes names ∙ once) (rw names_of-empty known),
    )
