-- ===== src/Proxy/Owners.antt =====
-- dbus/dbus-gproxy.c: which bus names are watched and who owns them. `owner_names` maps an owner to
-- the names that it has, each with the number of proxies that watch it. `g_hash_table_foreach` visits
-- the entries in the order of the list; an entry that is inserted for a new key is the last one.
pub mod Tables
pub mod Watching
pub mod Lookups
use dbus_glib.Prelude.{
  ℕ, ◌+◌, ◌-◌, ◌%◌, ◌^◌, Bool, true, false, not, Option, none, some, List, [], ◌∷◌, ◌++◌, ◌==◌,
  Bytes, str_equal, if◌then◌else◌,
}
use dbus_glib.Outcome.{Outcome, ok, abort, or_abort, g_assert, ◌>>=◌, ◌>>◌}
use dbus_glib.Heap.{is_some}

-- `refcount` is a `guint`.
pub record NameOwnerInfo : Type 0 where
  pub name : Bytes
  pub refcount : ℕ

abbrev pub Names : Type 0
Names = List NameOwnerInfo

abbrev pub OwnerNames : Type 0
OwnerNames = List (Bytes × Names)

-- `g_hash_table_lookup`; no list is the empty one
unfoldable pub lookup_names : Bytes → OwnerNames → Names
lookup_names owner [] = []
lookup_names owner ((key, names) ∷ table) =
    if str_equal key owner then names else lookup_names owner table

-- `g_hash_table_insert`
unfoldable pub insert_names : Bytes → Names → OwnerNames → OwnerNames
insert_names owner names [] = (owner, names) ∷ []
insert_names owner names ((key, old) ∷ table) =
    if str_equal key owner
    then (owner, names) ∷ table
    else (key, old) ∷ insert_names owner names table

-- `g_hash_table_remove`
unfoldable pub remove_names : Bytes → OwnerNames → OwnerNames
remove_names owner [] = []
remove_names owner ((key, names) ∷ table) =
    if str_equal key owner then table else (key, names) ∷ remove_names owner table

-- `g_slist_find_custom (names, name, find_name_in_info)`
unfoldable pub find_name : Bytes → Names → Option NameOwnerInfo
find_name name [] = none
find_name name (info ∷ names) = if str_equal info.name name then some info else find_name name names

-- a write through the pointer that the search found
unfoldable pub write_info : NameOwnerInfo → Names → Names
write_info new [] = []
write_info new (info ∷ names) =
    if str_equal info.name new.name then new ∷ names else info ∷ write_info new names

-- `g_slist_delete_link` on the link that the search found
unfoldable pub delete_name : Bytes → Names → Names
delete_name name [] = []
delete_name name (info ∷ names) =
    if str_equal info.name name then names else info ∷ delete_name name names

pub record ForeachData : Type 0 where
  pub name : Bytes
  pub owner : Option Bytes
  pub info : Option NameOwnerInfo

unfoldable pub name_owner_foreach : Bytes × Names → ForeachData → Outcome ForeachData
unfolding find_name
name_owner_foreach (owner, names) foreach_data =
    if is_some foreach_data.owner then ok foreach_data else (do
      g_assert (not (is_some foreach_data.info))
      ok (elim (find_name foreach_data.name names) [
        | none ↦ foreach_data
        | some link ↦ record foreach_data { owner = some owner; info = some link }
      ]))

unfoldable pub foreach_owner : OwnerNames → ForeachData → Outcome ForeachData
unfolding name_owner_foreach
foreach_owner [] foreach_data = ok foreach_data
foreach_owner (entry ∷ table) foreach_data = do
  after ← name_owner_foreach entry foreach_data
  foreach_owner table after

-- `*info` and `*owner`, which both stay NULL if the name has no owner
unfoldable pub lookup_name_owner :
    Bytes → OwnerNames → Outcome (Option NameOwnerInfo × Option Bytes)
unfolding foreach_owner
lookup_name_owner name owner_names = do
  found ← foreach_owner owner_names (record { name = name; owner = none; info = none })
  ok (found.info, found.owner)

abbrev pub is_nil : Names → Bool
is_nil [] = true
is_nil (info ∷ names) = false

-- A list that is there grows in place, as its head stays the same.
unfoldable pub insert_nameinfo : Bytes → NameOwnerInfo → OwnerNames → OwnerNames
unfolding lookup_names insert_names
insert_nameinfo owner info owner_names =
    insert_names owner (lookup_names owner owner_names ++ info ∷ []) owner_names

unfoldable pub monitor_name_owner : Bytes → Bytes → OwnerNames → OwnerNames
unfolding lookup_names find_name insert_nameinfo insert_names write_info
monitor_name_owner owner name owner_names =
    let names = lookup_names owner owner_names in
    elim (find_name name names) [
      | none ↦ insert_nameinfo owner (record { name = name; refcount = 1 }) owner_names
      | some nameinfo ↦
          insert_names owner
            (write_info (record nameinfo { refcount = (nameinfo.refcount + 1) % 2 ^ 32 }) names)
            owner_names
    ]

-- the list of the owner without the name; an owner with no names leaves the table
abbrev pub drop_name : Bytes → Bytes → OwnerNames → OwnerNames
drop_name owner name owner_names =
    let names = delete_name name (lookup_names owner owner_names) in
    if is_nil names then remove_names owner owner_names else insert_names owner names owner_names

unfoldable pub unmonitor_name_owner : Bytes → OwnerNames → Outcome OwnerNames
unfolding lookup_name_owner lookup_names find_name write_info delete_name insert_names remove_names
unmonitor_name_owner name owner_names = do
  found ← lookup_name_owner name owner_names
  info ← or_abort found.0
  owner ← or_abort found.1
  let lowered = record info { refcount = (info.refcount + 2 ^ 32 - 1) % 2 ^ 32 }
  let written = insert_names owner (write_info lowered (lookup_names owner owner_names)) owner_names
  if lowered.refcount == 0 then ok (drop_name owner name written) else ok written
