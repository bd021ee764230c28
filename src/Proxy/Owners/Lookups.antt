-- ===== src/Proxy/Owners/Lookups.antt =====
-- What a search in `owner_names` finds after a name is dropped from an owner or added to one.
use dbus_glib.Prelude.{
  ◌≡◌, refl, sym, ap, ◌∙◌, arith, Bool, true, false, not, ◌&&◌, ◌||◌, some, [], ◌∷◌, ◌++◌, Bytes,
  str_equal, str_equal_iff, Bool-cases, inl, inr,
}
use dbus_glib.Proxy.Owners.{
  NameOwnerInfo, Names, OwnerNames, lookup_names, insert_names, remove_names, find_name,
  delete_name, insert_nameinfo, drop_name,
}
use dbus_glib.Proxy.Owners.Tables.{lookup-insert}

abbrev pub has_owner : Bytes → OwnerNames → Bool
has_owner owner [] = false
has_owner owner ((key, names) ∷ table) = str_equal key owner || has_owner owner table

-- a hash table has each key once
abbrev pub keys_distinct : OwnerNames → Bool
keys_distinct [] = true
keys_distinct ((key, names) ∷ table) = not (has_owner key table) && keys_distinct table

module _ (k owner : Bytes) (apart : str_equal k owner ≡ false) where
  lookup-insert_other :
      (names : Names) (t : OwnerNames)
      → lookup_names owner (insert_names k names t) ≡ lookup_names owner t
  unfolding lookup_names insert_names
  lookup-insert_other names [] = ground (arith, apart)
  lookup-insert_other names ((key, old) ∷ t) = ground (
    arith,
    apart,
    lookup-insert_other names t,
    str_equal_iff key k,
    str_equal_iff key owner,
    str_equal_iff k owner,
  )

  lookup-remove_other :
      (t : OwnerNames) → lookup_names owner (remove_names k t) ≡ lookup_names owner t
  unfolding lookup_names remove_names
  lookup-remove_other [] = refl
  lookup-remove_other ((key, old) ∷ t) = ground (
    arith,
    apart,
    lookup-remove_other t,
    str_equal_iff key k,
    str_equal_iff key owner,
    str_equal_iff k owner,
  )

  pub lookup-drop_other :
      (name : Bytes) (t : OwnerNames)
      → lookup_names owner (drop_name k name t) ≡ lookup_names owner t
  lookup-drop_other name t =
      let names = delete_name name (lookup_names k t) in
      ground (arith, lookup-remove_other t, lookup-insert_other names t)

  pub lookup-insert_nameinfo_other :
      (info : NameOwnerInfo) (t : OwnerNames)
      → lookup_names owner (insert_nameinfo k info t) ≡ lookup_names owner t
  unfolding insert_nameinfo
  lookup-insert_nameinfo_other info t = lookup-insert_other (lookup_names k t ++ info ∷ []) t

lookup-has_owner : (k : Bytes) (t : OwnerNames) → has_owner k t ≡ false → lookup_names k t ≡ []
unfolding lookup_names
lookup-has_owner k [] h = refl
lookup-has_owner k ((key, names) ∷ t) h = ground (arith, lookup-has_owner k t)

lookup-remove_self :
    (k : Bytes) (t : OwnerNames) → keys_distinct t ≡ true → lookup_names k (remove_names k t) ≡ []
unfolding lookup_names remove_names
lookup-remove_self k [] h = refl
lookup-remove_self k ((key, names) ∷ t) h = elim (Bool-cases (str_equal key k)) [
  | inl same ↦
      let e = (str_equal_iff key k).0 same in
      let gone : has_owner k t ≡ false = ap (λ o. has_owner o t) (sym e) ∙ ground arith in
      ground (arith, same, lookup-has_owner k t gone)
  | inr other ↦ ground (arith, other, lookup-remove_self k t)
]

pub lookup-drop_self :
    (k name : Bytes) (t : OwnerNames)
    → keys_distinct t ≡ true
    → lookup_names k (drop_name k name t) ≡ delete_name name (lookup_names k t)
lookup-drop_self k name t h =
    let names = delete_name name (lookup_names k t) in
    ground (arith, lookup-remove_self k t h, lookup-insert k names t)

module _ (name n : Bytes) (apart : str_equal name n ≡ false) where
  pub find-delete_other : (names : Names) → find_name n (delete_name name names) ≡ find_name n names
  unfolding find_name delete_name
  find-delete_other [] = refl
  find-delete_other (info ∷ names) = ground (
    arith,
    apart,
    find-delete_other names,
    str_equal_iff info.name name,
    str_equal_iff info.name n,
    str_equal_iff name n,
  )

  pub find-append_other :
      (names : Names) (info : NameOwnerInfo)
      → info.name ≡ name
      → find_name n (names ++ info ∷ []) ≡ find_name n names
  unfolding find_name
  find-append_other [] info e = ground (arith, apart, ap (λ (s : Bytes). str_equal s n) e)
  find-append_other (first ∷ names) info e = ground (arith, find-append_other names info e)

pub find-named :
    (name : Bytes) (names : Names) {i : NameOwnerInfo}
    → find_name name names ≡ some i
    → i.name ≡ name
unfolding find_name
find-named name [] h = cc
find-named name (info ∷ names) {i} h =
    ground (arith, str_equal_iff info.name name, find-named name names {i = i})
