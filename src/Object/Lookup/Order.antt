-- ===== src/Object/Lookup/Order.antt =====
-- In which metadata dbus/dbus-gobject.c finds the method of a message.
use dbus_glib.Prelude.{
  ℕ, ◌≡◌, refl, ap, ◌∙◌, arith, Option, none, some, List, [], ◌∷◌, ◌++◌, Option-cases, inl, inr,
}
use dbus_glib.Outcome.{ok}
use dbus_glib.Object.Metadata.{DBusGObjectInfo, DBusGMethodInfo}
use dbus_glib.Object.Lookup.{
  GObject, TypeData, Message, foreach_types, foreach_object_info, lookup_object_info_cb,
  lookup_object_info, find_method, find_object_and_method, lookup_object_and_method, both_found,
}

-- the metadata of types, in their order
unfoldable pub infos_of : TypeData → List ℕ → List DBusGObjectInfo
infos_of types [] = []
infos_of types (t ∷ ts) =
    let rest = infos_of types ts in
    elim (types.metadata t) [ none ↦ rest | some info ↦ info ∷ rest ]

abbrev pub Answer : Type 0
Answer = Option (DBusGObjectInfo × DBusGMethodInfo)

-- the last metadata that has an answer, or else what was found before
abbrev pub last_answer :
    (DBusGObjectInfo → Option DBusGMethodInfo) → List DBusGObjectInfo → Answer → Answer
last_answer answer [] before = before
last_answer answer (info ∷ infos) before =
    last_answer answer infos
      (elim (answer info) [ some method ↦ some (info, method) | none ↦ before ])

-- `answer` gives the method of each metadata that fits the message.
abbrev pub AllAnswer :
    (DBusGObjectInfo → Option DBusGMethodInfo) → Message → List DBusGObjectInfo → Type 0
AllAnswer answer message [] = Unit
AllAnswer answer message (info ∷ infos) =
    (find_method info info.method_infos message ≡ ok (answer info)) × AllAnswer answer message infos

-- the search of `find_object_and_method`
abbrev first_answer :
    (DBusGObjectInfo → Option DBusGMethodInfo)
    → List DBusGObjectInfo
    → Option DBusGObjectInfo
    → Option DBusGObjectInfo × Option DBusGMethodInfo
first_answer answer [] ret = (ret, none)
first_answer answer (info ∷ infos) ret = elim (answer info) [
  | some method ↦ (some info, some method)
  | none ↦ first_answer answer infos (some info)
]

-- each is put in front
abbrev pushed : List DBusGObjectInfo → List DBusGObjectInfo → List DBusGObjectInfo
pushed [] list = list
pushed (info ∷ infos) list = pushed infos (info ∷ list)

pushed-append :
    (xs ys list : List DBusGObjectInfo) → pushed (xs ++ ys) list ≡ pushed ys (pushed xs list)
pushed-append [] ys list = refl
pushed-append (x ∷ xs) ys list = pushed-append xs ys (x ∷ list)

foreach-pushed :
    (types : TypeData) (ts : List ℕ) (list : List DBusGObjectInfo)
    → foreach_types lookup_object_info_cb types ts list ≡ ok (pushed (infos_of types ts) list)
unfolding foreach_types infos_of
foreach-pushed types [] list = refl
foreach-pushed types (t ∷ ts) list = elim (Option-cases (types.metadata t)) [
  | inl plain ↦ ground (arith, plain, foreach-pushed types ts list)
  | inr (info, here) ↦ ground (arith, here, foreach-pushed types ts (info ∷ list))
]

module _ (answer : DBusGObjectInfo → Option DBusGMethodInfo) where
  first_answer-same :
      (list : List DBusGObjectInfo) (a b : Option DBusGObjectInfo)
      → both_found (first_answer answer list a) ≡ both_found (first_answer answer list b)
  first_answer-same [] none none = refl
  first_answer-same [] none (some b) = refl
  first_answer-same [] (some a) none = refl
  first_answer-same [] (some a) (some b) = refl
  first_answer-same (info ∷ list) a b = refl

  first_answer-pushed :
      (infos list : List DBusGObjectInfo) (ret : Option DBusGObjectInfo)
      → both_found (first_answer answer (pushed infos list) ret)
        ≡ last_answer answer infos (both_found (first_answer answer list ret))
  first_answer-pushed [] list ret = refl
  first_answer-pushed (info ∷ infos) list ret =
      first_answer-pushed infos (info ∷ list) ret
      ∙ ap (last_answer answer infos) (elim (Option-cases (answer info)) [
        | inl nothing ↦ ground (arith, nothing, first_answer-same list (some info) ret)
        | inr (method, here) ↦ ground (arith, here)
      ])

  find-first_answer :
      (message : Message) (list : List DBusGObjectInfo) (ret : Option DBusGObjectInfo)
      → AllAnswer answer message list
      → find_object_and_method list message ret ≡ ok (first_answer answer list ret)
  unfolding find_object_and_method
  find-first_answer message [] ret h = refl
  find-first_answer message (info ∷ list) ret (here, h) =
      ground (arith, here, find-first_answer message list (some info) h)

  AllAnswer-pushed :
      (message : Message) (infos list : List DBusGObjectInfo)
      → AllAnswer answer message infos
      → AllAnswer answer message list
      → AllAnswer answer message (pushed infos list)
  AllAnswer-pushed message [] list h h' = h'
  AllAnswer-pushed message (info ∷ infos) list (here, h) h' =
      AllAnswer-pushed message infos (info ∷ list) h (here, h')

-- If `answer` gives the method of each metadata of an object that fits the message, then the search for a
-- method returns, and it finds the last metadata that has one, in the order of the object's interfaces,
-- its class and the classes above it, with that method; it finds none if none has one.
pub lookup_object_and_method_lem :
    (types : TypeData) (object : GObject) (message : Message)
    (answer : DBusGObjectInfo → Option DBusGMethodInfo)
    → AllAnswer answer message (infos_of types object.interfaces ++ infos_of types object.classes)
    → (found : Option DBusGObjectInfo × Option DBusGMethodInfo) × (lookup_object_and_method types
          object message
        ≡ ok found)
      × (both_found found
          ≡ last_answer answer
              (infos_of types object.interfaces ++ infos_of types object.classes)
              none)
unfolding lookup_object_and_method lookup_object_info foreach_object_info
lookup_object_and_method_lem types object message answer h =
    let front = infos_of types object.interfaces in
    let back = infos_of types object.classes in
    let reversed = pushed-append front back [] in
    (
      first_answer answer (pushed (front ++ back) []) none,
      rw
          (
            foreach-pushed types object.interfaces [],
            foreach-pushed types object.classes (pushed front []),
            ← reversed,
          )
          (find-first_answer answer message (pushed (front ++ back) []) none
            (AllAnswer-pushed answer message (front ++ back) [] h tt)),
      first_answer-pushed answer (front ++ back) [] none,
    )
