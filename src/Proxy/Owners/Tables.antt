-- ===== src/Proxy/Owners/Tables.antt =====
-- Searches and writes in `owner_names`.
use dbus_glib.Prelude.{
  ◌+◌, ◌^◌, ◌≡◌, refl, arith, Bool, true, false, not, ◌&&◌, Option, none, some, [], ◌∷◌, ◌++◌, ltb,
  Bytes, str_equal, str_equal_iff, str_equal_refl, Bool-cases, inl, inr, if◌then◌else◌,
}
use dbus_glib.Outcome.{ok}
use dbus_glib.Heap.{is_some}
use dbus_glib.Proxy.Owners.{
  NameOwnerInfo, Names, OwnerNames, ForeachData, lookup_names, insert_names, remove_names,
  find_name, write_info, delete_name, foreach_owner, lookup_name_owner, is_nil,
}

abbrev pub counts : Option NameOwnerInfo → Bool
counts none = true
counts (some info) = ltb 0 info.refcount && ltb (info.refcount + 1) (2 ^ 32)

-- Every owner has a name, `name` is a name of `owner` alone, if of any, and its count may grow.
abbrev pub tracked : Bytes → Bytes → OwnerNames → Bool
tracked owner name [] = true
tracked owner name ((key, names) ∷ table) =
    not (is_nil names)
    && (if str_equal key owner
        then counts (find_name name names)
        else not (is_some (find_name name names)))
    && tracked owner name table

module _ (name : Bytes) where
  pub find-append :
      (names : Names) (new : NameOwnerInfo)
      → find_name name names ≡ none
      → new.name ≡ name
      → (find_name name (names ++ new ∷ []) ≡ some new)
        × (delete_name name (names ++ new ∷ []) ≡ names)
  unfolding find_name delete_name
  find-append [] new h e = let same = str_equal_iff new.name name in (ground arith, ground arith)
  find-append (info ∷ names) new h e =
      let (f, d) = find-append names new (ground arith) e in (ground arith, ground arith)

  pub write-append :
      (names : Names) (new newer : NameOwnerInfo)
      → find_name name names ≡ none
      → new.name ≡ name
      → newer.name ≡ name
      → write_info newer (names ++ new ∷ []) ≡ names ++ newer ∷ []
  unfolding find_name write_info
  write-append [] new newer h e e' = let same = str_equal_iff new.name newer.name in ground arith
  write-append (info ∷ names) new newer h e e' =
      let rest = write-append names new newer (ground arith) e e' in
      let same = str_equal_iff info.name newer.name in
      let other = str_equal_iff info.name name in ground arith

  pub find-write :
      (names : Names) (info new : NameOwnerInfo)
      → find_name name names ≡ some info
      → new.name ≡ info.name
      → (find_name name (write_info new names) ≡ some new)
        × (write_info info (write_info new names) ≡ names)
        × (info.name ≡ name)
  unfolding find_name write_info
  find-write [] info new h e = cc
  find-write (first ∷ names) info new h e =
      let here = str_equal_iff first.name name in
      let there = str_equal_iff first.name new.name in
      let new_is = str_equal_iff new.name name in
      let again = str_equal_iff new.name info.name in
      let stays = str_equal_iff first.name info.name in
      elim (Bool-cases (str_equal first.name name)) [
        | inl same_name ↦ (ground arith, ground arith, ground arith)
        | inr other_name ↦
            let (f, w, n) = find-write names info new (ground arith) e in
            (ground arith, ground arith, n)
      ]

module _ (owner : Bytes) where
  pub lookup-insert :
      (names : Names) (t : OwnerNames) → lookup_names owner (insert_names owner names t) ≡ names
  unfolding lookup_names insert_names
  lookup-insert names [] = let same = str_equal_refl owner in ground arith
  lookup-insert names ((key, old) ∷ t) =
      let rest = lookup-insert names t in let same = str_equal_refl owner in ground arith

  pub insert-insert :
      (n m : Names) (t : OwnerNames)
      → insert_names owner n (insert_names owner m t) ≡ insert_names owner n t
  unfolding insert_names
  insert-insert n m [] = let same = str_equal_refl owner in ground arith
  insert-insert n m ((key, old) ∷ t) =
      let rest = insert-insert n m t in let same = str_equal_refl owner in ground arith

  pub insert-lookup :
      (t : OwnerNames)
      → is_nil (lookup_names owner t) ≡ false
      → insert_names owner (lookup_names owner t) t ≡ t
  unfolding insert_names lookup_names
  insert-lookup [] h = cc
  insert-lookup ((key, old) ∷ t) h =
      let same = str_equal_iff key owner in let rest = insert-lookup t in ground arith

  pub remove-insert :
      (name : Bytes) (n : Names) (t : OwnerNames)
      → tracked owner name t ≡ true
      → is_nil (lookup_names owner t) ≡ true
      → remove_names owner (insert_names owner n t) ≡ t
  unfolding insert_names lookup_names remove_names
  remove-insert name n [] h e = let same = str_equal_refl owner in ground arith
  remove-insert name n ((key, old) ∷ t) h e = let rest = remove-insert name n t in ground arith

pub some_not_nil :
    (name : Bytes) (names : Names) {i : NameOwnerInfo}
    → find_name name names ≡ some i
    → is_nil names ≡ false
unfolding find_name
some_not_nil name [] h = cc
some_not_nil name (info ∷ names) h = refl

-- A search that has found its name goes on to nothing.
foreach_owner-found :
    (t : OwnerNames) (d : ForeachData) → is_some d.owner ≡ true → foreach_owner t d ≡ ok d
unfolding foreach_owner
foreach_owner-found [] d h = refl
foreach_owner-found (entry ∷ t) d h = let rest = foreach_owner-found t d h in ground arith

abbrev start : Bytes → ForeachData
start name = record { name = name; owner = none; info = none }

foreach_owner-insert :
    (owner name : Bytes) (n : Names) (t : OwnerNames) {i : NameOwnerInfo}
    → tracked owner name t ≡ true
    → find_name name n ≡ some i
    → foreach_owner (insert_names owner n t) (start name)
      ≡ ok (record { name = name; owner = some owner; info = some i })
unfolding foreach_owner insert_names
foreach_owner-insert owner name n [] h f = ground arith
foreach_owner-insert owner name n ((key, names) ∷ t) {i} h f =
    let found =
      foreach_owner-found t (record { name = name; owner = some owner; info = some i }) refl in
    let same = str_equal_iff key owner in
    let rest = foreach_owner-insert owner name n t {i = i} in ground arith

pub lookup_name_owner-insert :
    (owner name : Bytes) (n : Names) (t : OwnerNames) {i : NameOwnerInfo}
    → tracked owner name t ≡ true
    → find_name name n ≡ some i
    → lookup_name_owner name (insert_names owner n t) ≡ ok (some i, some owner)
unfolding lookup_name_owner
lookup_name_owner-insert owner name n t h f = rw (foreach_owner-insert owner name n t h f) refl
