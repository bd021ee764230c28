-- ===== src/Parser/Attributes/Totality.antt =====
-- `locate_attributes` fails no assertion where at most 24 names are asked for.
use dbus_glib.Prelude.{
  Bool, true, false, ◌||◌, none, some, List, [], ◌∷◌, map, Bytes, has_char, length, leb, ◌≡◌, ◌≢◌,
  refl, arith,
}
use dbus_glib.Outcome.{Outcome, ok, err, abort, guard, g_assert, ◌>>=◌, ◌>>◌, invalid_attribute}
use dbus_glib.Parser.Attributes.{
  Attributes, Slots, fill_slot, match_slots, scan_attributes, locate_attributes,
}

match_slots-ne-abort :
    (e : Bytes) (a : Bytes × Bytes) (found : Bool) (slots : Slots)
    → match_slots e a found slots ≢ abort
unfolding match_slots fill_slot
match_slots-ne-abort e a found [] = λ h. cc
match_slots-ne-abort e a found ((name, none) ∷ slots) =
    ground (arith, match_slots-ne-abort e a true slots, match_slots-ne-abort e a found slots)
match_slots-ne-abort e a found ((name, some v) ∷ slots) =
    ground (arith, match_slots-ne-abort e a found slots)

after_match :
    (e n : Bytes) (o : Outcome (Bool × Slots)) (next : Slots → Outcome Slots)
    → o ≢ abort
    → ((slots : Slots) → next slots ≢ abort)
    → (o >>= λ m. guard (m.0 || has_char b':' n) (invalid_attribute n e) >> next m.1) ≢ abort
after_match e n (ok (found, slots)) next h k = ground (arith, k slots)
after_match e n (err x) next h k = λ z. cc
after_match e n abort next h k = absurd (h refl)

scan-ne-abort : (e : Bytes) (a : Attributes) (slots : Slots) → scan_attributes e a slots ≢ abort
unfolding scan_attributes
scan-ne-abort e [] slots = λ h. cc
scan-ne-abort e ((n, v) ∷ rest) slots =
    after_match e n (match_slots e (n, v) false slots) (scan_attributes e rest)
      (match_slots-ne-abort e (n, v) false slots) (scan-ne-abort e rest)

run-ne-abort :
    (e : Bytes) (a : Attributes) (names : List Bytes)
    → leb (length names) 24 ≡ true
    → (g_assert (leb (length names) 24) >> scan_attributes e a (map (λ name. (name, none)) names))
      ≢ abort
run-ne-abort e a names h = rw h (scan-ne-abort e a (map (λ name. (name, none)) names))

pub locate-ne-abort :
    (e : Bytes) (a : Attributes) (names : List Bytes)
    → leb (length names) 24 ≡ true
    → locate_attributes e a names ≢ abort
locate-ne-abort e a names h = unfold locate_attributes in run-ne-abort e a names h
