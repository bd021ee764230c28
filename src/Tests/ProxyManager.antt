-- ===== src/Tests/ProxyManager.antt =====
-- Runs of the manager of dbus/dbus-gproxy.c, and its theorems at concrete inputs.
use dbus_glib.Prelude.{
  ℕ, ◌≡◌, refl, true, false, none, some, List, [], ◌∷◌, ◌++◌, codes, has_char, str_equal,
}
use dbus_glib.Outcome.{ok, abort, ◌>>=◌}
use dbus_glib.Heap.{Table, load, alloc, empty_table}
use dbus_glib.Proxy.Owners.{OwnerNames, lookup_names, find_name, delete_name}
use dbus_glib.Proxy.Owners.Watching.{named, watches}
use dbus_glib.Proxy.Manager.{
  Proxy, new_proxy, DBusGProxyManager, World, lookup_list, lookup_rule, ProxyLists, MatchRules,
  Request, has_proxy, tristring_from_proxy,
}
use dbus_glib.Proxy.Manager.Registration.{register, unregister, set_interface, or_empty}
use dbus_glib.Proxy.Manager.Signals.{
  targets, got_name_owner, owned_by, filter, Signal, replace_name_owner,
}
use dbus_glib.Proxy.Manager.Moving.{is_movable, replace_name_owner-moves}
use dbus_glib.Proxy.Manager.Leaving.{is_absent, counted, added, removed, unregister-register}
use dbus_glib.Proxy.Manager.Routing.{
  is_distinct, all_counted, owned_names, is_told, key_of, targets_iff,
}
use dbus_glib.Proxy.Manager.Faults.{
  unregister_unknown, set_interface-register, register_twice_beside_peer, beside_peer,
}

abbrev player : Proxy
player = new_proxy (some (codes "com.a")) (codes "/p") (codes "i")

abbrev unique : Proxy
unique = new_proxy (some (codes ":1.2")) (codes "/p") (codes "i")

abbrev peer : Proxy
peer = new_proxy none (codes "/p") (codes "i")

abbrev proxies : Table Proxy
proxies = alloc (alloc (alloc empty_table player) unique) peer

abbrev unused : DBusGProxyManager
unused = record {
  locked = false;
  refcount = 4;
  proxy_lists = none;
  owner_match_rules = none;
  owner_names = none;
  unassociated_proxies = [];
  call_id_counter = 0;
  requests = [];
}

abbrev start : World
start = record { proxies = proxies; manager = unused }

-- the owner of `com.a` is known, and both it and its name have a proxy
abbrev busy : DBusGProxyManager
busy = record unused {
  proxy_lists =
      some ((tristring_from_proxy player, 0 ∷ []) ∷ (tristring_from_proxy unique, 1 ∷ []) ∷ []);
  owner_names = some ((codes ":1.2", named (codes "com.a") 1 ∷ []) ∷ []);
}

abbrev changed : Signal
changed = record {
  sender = some (codes ":1.2");
  path = codes "/p";
  interface = codes "i";
  member = codes "Changed";
  arguments = none;
}

-- A proxy of a name and one of its owner are told of the owner's signal.
told :
    (do
      w1 ← register 1 start
      w2 ← register 0 w1
      w3 ← got_name_owner 0 (owned_by (codes ":1.2")) w2
      s ← filter changed w3
      ok s.0)
    ≡ ok (1 ∷ 0 ∷ [])
unfolding register got_name_owner filter str_equal lookup_list has_proxy
told = refl

busy-all_counted : all_counted (owned_names (some (codes ":1.2")) busy) ≡ true
unfolding lookup_names str_equal
busy-all_counted = refl

registered_once :
    is_distinct (
      or_empty
        (lookup_list (key_of (codes ":1.2") (codes "/p") (codes "i")) (or_empty busy.proxy_lists)))
    ≡ true
unfolding lookup_list str_equal has_proxy
registered_once = refl

targets_iff_example :
    (found : List ℕ) × (targets (some (codes ":1.2")) (codes "/p") (codes "i") busy ≡ ok found)
    × ((p : ℕ) → has_proxy p found ≡ is_told p (some (codes ":1.2")) (codes "/p") (codes "i") busy)
    × (is_distinct found ≡ true)
targets_iff_example =
    targets_iff (some (codes ":1.2")) (codes "/p") (codes "i") busy busy-all_counted registered_once

abbrev others : World
others = record { proxies = proxies; manager = busy }

peer_unknown : lookup_list (tristring_from_proxy peer) (or_empty busy.proxy_lists) ≡ none
unfolding lookup_list str_equal
peer_unknown = refl

peer_loaded : load proxies 2 ≡ ok peer
peer_loaded = refl

unregister_unknown_example :
    (w' : World) × (unregister 2 others ≡ ok w')
    × (w' ≡ record others { manager = record busy { locked = true } })
    × ((q : ℕ) → (register q w' ≡ abort) × (unregister q w' ≡ abort))
unregister_unknown_example = unregister_unknown 2 others refl (peer, peer_loaded, peer_unknown)

unique_loaded : load proxies 1 ≡ ok unique
unique_loaded = refl

-- With an invalid name nothing happens.
refused :
    (has_char b'.' (codes "com.a") ≡ true)
    × (set_interface (has_char b'.') 1 (codes "i2") start ≡ ok start)
unfolding has_char set_interface
refused = (refl, refl)

set_interface-register_example :
    (do w1 ← register 1 start; set_interface (has_char b'.') 1 (codes "com.a") w1) ≡ abort
set_interface-register_example =
    set_interface-register (has_char b'.') 1 unique (codes "com.a") start refused.0 refl
      (refl, refl, refl, refl) unique_loaded refl

register_twice_example :
    (do
      w1 ← register 1 (beside_peer 2 peer (some []) [] start)
      w2 ← unregister 1 w1
      w3 ← register 1 w2
      unregister 1 w3)
    ≡ abort
register_twice_example =
    register_twice_beside_peer 1 2 unique peer 58 (codes "1.2") [] start unique_loaded refl refl
      refl

-- the name of `busy` passes from one owner to another
abbrev one_owner : OwnerNames
one_owner = (codes ":1.2", named (codes "com.a") 1 ∷ named (codes "com.b") 2 ∷ []) ∷ []

movable : is_movable (codes "com.a") (codes ":1.2") (codes ":1.9") one_owner ≡ true
unfolding lookup_names find_name delete_name str_equal
movable = refl

other_name : str_equal (codes "com.a") (codes "com.b") ≡ false
unfolding str_equal
other_name = refl

abbrev two_names : World
two_names = record { proxies = proxies; manager = record busy { owner_names = some one_owner } }

replace_name_owner_example :
    (t' : OwnerNames) × (replace_name_owner (codes "com.a") (codes ":1.2") (codes ":1.9") two_names
      ≡ ok (record two_names { manager = record two_names.manager { owner_names = some t' } }))
    × (watches (codes ":1.9") (codes "com.a") t' ≡ watches (codes ":1.2") (codes "com.a") one_owner)
    × (watches (codes ":1.2") (codes "com.a") t' ≡ 0)
    × (watches (codes ":1.2") (codes "com.b") t' ≡ watches (codes ":1.2") (codes "com.b") one_owner)
replace_name_owner_example =
    replace_name_owner-moves (codes "com.a") 58 58 (codes "1.2") (codes "1.9") two_names one_owner
      (codes ":1.2") (codes "com.b") refl movable other_name

-- a manager with one proxy of a name
abbrev lists : ProxyLists
lists = (tristring_from_proxy player, 0 ∷ []) ∷ []

abbrev rules : MatchRules
rules = (codes "com.a", 1) ∷ []

abbrev one_proxy : World
one_proxy = record {
  proxies = proxies;
  manager = record unused {
    proxy_lists = some lists;
    owner_match_rules = some rules;
    owner_names = some [];
  };
}

no_list : is_absent 1 (lookup_list (tristring_from_proxy unique) lists) ≡ true
unfolding lookup_list str_equal
no_list = refl

no_rule : counted (lookup_rule (codes ":1.2") rules) ≡ true
unfolding lookup_rule str_equal
no_rule = refl

unregister-register_example :
    (asked : List Request) × ((do w1 ← register 1 one_proxy; unregister 1 w1)
      ≡ ok (record one_proxy {
        manager = record one_proxy.manager { requests = one_proxy.manager.requests ++ asked };
      }))
    × (added asked ≡ removed asked)
unregister-register_example =
    unregister-register 1 unique (codes ":1.2") one_proxy lists rules refl refl refl refl refl
      unique_loaded refl refl no_list no_rule
