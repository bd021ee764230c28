-- ===== src/Proxy/Manager.antt =====
-- dbus/dbus-gproxy.c: the manager of the proxies of a connection. A key of `proxy_lists` is the three
-- strings of a tristring, which are equal as tristrings exactly when they are equal one by one. What
-- libdbus is asked to do is kept in order; the lock is not recursive, and taking it twice stops the
-- process.
pub mod Registration
pub mod Signals
pub mod Routing
pub mod Faults
pub mod Moving
pub mod Tables
pub mod Leaving
use dbus_glib.Prelude.{
  ℕ, suc, ◌+◌, ◌-◌, ◌^◌, Bool, true, false, not, ◌&&◌, ◌||◌, Option, none, some, List, [], ◌∷◌,
  ◌++◌, ◌==◌, Bytes, codes, str_equal, ltb, if◌then◌else◌,
}
use dbus_glib.Outcome.{Outcome, ok, abort, or_abort, g_assert, ◌>>=◌, ◌>>◌}
use dbus_glib.Heap.{Table, load, write, is_some}
use dbus_glib.Proxy.Tristring.{string_or_empty}
use dbus_glib.Proxy.Owners.{
  NameOwnerInfo, OwnerNames, lookup_name_owner, unmonitor_name_owner, lookup_names, insert_names,
  write_info,
}

-- `DBusGProxyPrivate`, as far as the manager uses it; `name_call` is the number of a pending call,
-- and a proxy that is `destroyed` has no manager any more.
pub record Proxy : Type 0 where
  pub name : Option Bytes
  pub path : Bytes
  pub interface : Bytes
  pub name_call : Option ℕ
  pub for_owner : Bool
  pub associated : Bool
  pub destroyed : Bool

-- what `dbus_g_proxy_set_property` makes of the name
abbrev pub for_owner_of : Option Bytes → Bool
for_owner_of none = true
for_owner_of (some []) = false
for_owner_of (some (c ∷ name)) = c == b':'

abbrev pub new_proxy : Option Bytes → Bytes → Bytes → Proxy
new_proxy name path interface = record {
  name = name;
  path = path;
  interface = interface;
  name_call = none;
  for_owner = for_owner_of name;
  associated = false;
  destroyed = false;
}

pub record Key : Type 0 where
  pub name : Bytes
  pub path : Bytes
  pub interface : Bytes

abbrev pub key_equal : Key → Key → Bool
key_equal a b =
    str_equal a.name b.name && str_equal a.path b.path && str_equal a.interface b.interface

abbrev pub tristring_from_proxy : Proxy → Key
tristring_from_proxy proxy = record {
  name = string_or_empty proxy.name;
  path = proxy.path;
  interface = proxy.interface;
}

abbrev pub ProxyLists : Type 0
ProxyLists = List (Key × List ℕ)

abbrev pub MatchRules : Type 0
MatchRules = List (Bytes × ℕ)

pub data Request : Type 0 where
  add_match : Bytes → Request
  remove_match : Bytes → Request
  get_name_owner_of : Bytes → ℕ → Request
  cancel_call : ℕ → Request

-- A hash table that is NULL is `none`. `call_id_counter` is that of the bus proxy.
pub record DBusGProxyManager : Type 0 where
  pub locked : Bool
  pub refcount : ℕ
  pub proxy_lists : Option ProxyLists
  pub owner_match_rules : Option MatchRules
  pub owner_names : Option OwnerNames
  pub unassociated_proxies : List ℕ
  pub call_id_counter : ℕ
  pub requests : List Request

pub record World : Type 0 where
  pub proxies : Table Proxy
  pub manager : DBusGProxyManager

-- To wait for a lock that is never given up is taken as the end of the process.
abbrev pub lock : DBusGProxyManager → Outcome DBusGProxyManager
lock manager = if manager.locked then abort else ok (record manager { locked = true })

abbrev pub unlock : DBusGProxyManager → DBusGProxyManager
unlock manager = record manager { locked = false }

abbrev pub request : Request → DBusGProxyManager → DBusGProxyManager
request r manager = record manager { requests = manager.requests ++ r ∷ [] }

unfoldable pub manager_ref : DBusGProxyManager → Outcome DBusGProxyManager
manager_ref manager = do
  g_assert (ltb 0 manager.refcount)
  locked ← lock manager
  ok (unlock (record locked { refcount = locked.refcount + 1 }))

abbrev is_empty {ℓ} : {A : Type ℓ} → List A → Bool
is_empty [] = true
is_empty (x ∷ xs) = false

-- `g_hash_table_size (...) == 0`, for a table that is there
abbrev empty_or_null {ℓ} : {A : Type ℓ} → Option (List A) → Bool
empty_or_null none = true
empty_or_null (some xs) = is_empty xs

-- `none` is the manager that was freed.
unfoldable pub manager_unref : DBusGProxyManager → Outcome (Option DBusGProxyManager)
manager_unref manager = do
  g_assert (ltb 0 manager.refcount)
  locked ← lock manager
  let lowered = unlock (record locked { refcount = locked.refcount - 1 })
  if lowered.refcount == 0
      then (do
        g_assert (empty_or_null lowered.proxy_lists)
        g_assert (empty_or_null lowered.owner_match_rules)
        g_assert (empty_or_null lowered.owner_names)
        g_assert (is_empty lowered.unassociated_proxies)
        ok none)
      else ok (some lowered)

-- `g_hash_table_lookup`
unfoldable pub lookup_list : Key → ProxyLists → Option (List ℕ)
lookup_list key [] = none
lookup_list key ((k, proxies) ∷ lists) =
    if key_equal k key then some proxies else lookup_list key lists

-- `g_hash_table_replace`, or a write to the list that was found
unfoldable pub replace_list : Key → List ℕ → ProxyLists → ProxyLists
replace_list key proxies [] = (key, proxies) ∷ []
replace_list key proxies ((k, old) ∷ lists) =
    if key_equal k key then (key, proxies) ∷ lists else (k, old) ∷ replace_list key proxies lists

-- `g_hash_table_remove`
unfoldable pub remove_list : Key → ProxyLists → ProxyLists
remove_list key [] = []
remove_list key ((k, proxies) ∷ lists) =
    if key_equal k key then lists else (k, proxies) ∷ remove_list key lists

unfoldable pub lookup_rule : Bytes → MatchRules → Option ℕ
lookup_rule name [] = none
lookup_rule name ((n, refcount) ∷ rules) =
    if str_equal n name then some refcount else lookup_rule name rules

unfoldable pub insert_rule : Bytes → ℕ → MatchRules → MatchRules
insert_rule name refcount [] = (name, refcount) ∷ []
insert_rule name refcount ((n, old) ∷ rules) =
    if str_equal n name
    then (name, refcount) ∷ rules
    else (n, old) ∷ insert_rule name refcount rules

unfoldable pub remove_rule : Bytes → MatchRules → MatchRules
remove_rule name [] = []
remove_rule name ((n, refcount) ∷ rules) =
    if str_equal n name then rules else (n, refcount) ∷ remove_rule name rules

-- `g_slist_find (list, proxy) != NULL`
unfoldable pub has_proxy : ℕ → List ℕ → Bool
has_proxy p [] = false
has_proxy p (q ∷ qs) = q == p || has_proxy p qs

-- `g_slist_remove`, which takes out the first one
unfoldable pub remove_proxy : ℕ → List ℕ → List ℕ
remove_proxy p [] = []
remove_proxy p (q ∷ qs) = if q == p then qs else q ∷ remove_proxy p qs

unfoldable pub signal_match_rule : Proxy → Bytes
signal_match_rule proxy = elim proxy.name [
  | some name ↦
      codes "type='signal',sender='"
      ++ name
      ++ codes "',path='"
      ++ proxy.path
      ++ codes "',interface='"
      ++ proxy.interface
      ++ codes "'"
  | none ↦
      codes "type='signal',path='"
      ++ proxy.path
      ++ codes "',interface='"
      ++ proxy.interface
      ++ codes "'"
]

unfoldable pub owner_match_rule : Bytes → Bytes
owner_match_rule name =
    codes "type='signal',sender='org.freedesktop.DBus',path='/org/freedesktop/DBus'"
    ++ codes ",interface='org.freedesktop.DBus',member='NameOwnerChanged'"
    ++ codes ",arg0='"
    ++ name
    ++ codes "'"
