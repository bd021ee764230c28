-- ===== src/Proxy/Manager/Signals.antt =====
-- dbus/dbus-gproxy.c: what the manager does with a signal. It follows the owners of names, and finds the
-- proxies that are told. What a handler of the program does when it is told is left out.
use dbus_glib.Prelude.{
  ℕ, Bool, true, false, ◌&&◌, Option, none, some, List, [], ◌∷◌, ◌++◌, Bytes, codes, str_equal, ltb,
  if◌then◌else◌,
}
use dbus_glib.Outcome.{Outcome, ok, or_abort, g_assert, ◌>>=◌, ◌>>◌}
use dbus_glib.Heap.{load, write, is_some}
use dbus_glib.Proxy.Tristring.{string_or_empty}
use dbus_glib.Proxy.Owners.{
  NameOwnerInfo, Names, OwnerNames, monitor_name_owner, find_name, insert_nameinfo, lookup_names,
  drop_name,
}
use dbus_glib.Proxy.Manager.{
  Key, ProxyLists, cancel_call, DBusGProxyManager, World, lock, unlock, request, lookup_list,
  has_proxy, manager_ref, manager_unref,
}
use dbus_glib.Proxy.Manager.Registration.{or_empty, on_table, unregister}

-- A proxy is destroyed by its manager, at most once: it leaves it and gives its reference back. The
-- manager works on after that, so it stops the process if that was the last reference.
unfoldable pub dispose : ℕ → World → Outcome World
unfolding unregister manager_unref
dispose p w = do
  called ← load w.proxies p
  elim called.destroyed [
    | true ↦ ok w
    | false ↦ (do
      w1 ← unregister p w
      left ← manager_unref w1.manager
      manager ← or_abort left
      proxy ← load w1.proxies p
      ok (record {
        proxies = write w1.proxies p (record proxy { destroyed = true });
        manager = manager;
      }))
  ]

unfoldable pub dispose_all : List ℕ → World → Outcome World
unfolding dispose
dispose_all [] w = ok w
dispose_all (p ∷ ps) w = do w1 ← dispose p w; dispose_all ps w1

-- the loop over the proxies that wait for an owner: those of the name are taken off the list
unfoldable pub associate : Bytes → Bytes → List ℕ → World → Outcome (List ℕ × World)
unfolding monitor_name_owner
associate name new_owner [] w = ok ([], w)
associate name new_owner (p ∷ ps) w = do
  proxy ← load w.proxies p
  its_name ← or_abort proxy.name
  elim (str_equal its_name name) [
    | true ↦ associate name new_owner ps (record w {
      proxies = write w.proxies p (record proxy { associated = true });
      manager = record w.manager {
        owner_names = on_table (monitor_name_owner new_owner name) w.manager.owner_names;
      };
    })
    | false ↦ (do rest ← associate name new_owner ps w; ok (p ∷ rest.0, rest.1))
  ]

-- `unassociate_proxies` on one proxy; the list is `destroyed`
unfoldable pub unassociate_proxy : Bytes → ℕ → List ℕ × World → Outcome (List ℕ × World)
unfolding str_equal
unassociate_proxy name p (destroyed, w) = do
  proxy ← load w.proxies p
  elim (str_equal (string_or_empty proxy.name) name && is_some proxy.name) [
    | false ↦ ok (destroyed, w)
    | true ↦ elim proxy.for_owner [
      | true ↦ ok (p ∷ destroyed, w)
      | false ↦
          (let manager : DBusGProxyManager = elim proxy.name_call [
            | none ↦ w.manager
            | some call ↦ request (cancel_call call) w.manager
          ] in
            ok (
              destroyed,
              record w {
                proxies = write w.proxies p (record proxy { name_call = none; associated = false });
                manager = record manager {
                  unassociated_proxies = p ∷ manager.unassociated_proxies;
                };
              },
            ))
    ]
  ]

unfoldable pub unassociate_list : Bytes → List ℕ → List ℕ × World → Outcome (List ℕ × World)
unfolding unassociate_proxy
unassociate_list name [] s = ok s
unassociate_list name (p ∷ ps) s = do s1 ← unassociate_proxy name p s; unassociate_list name ps s1

unfoldable pub unassociate_proxies : Bytes → ProxyLists → List ℕ × World → Outcome (List ℕ × World)
unfolding unassociate_list
unassociate_proxies name [] s = ok s
unassociate_proxies name ((key, proxies) ∷ lists) s = do
  s1 ← unassociate_list name proxies s
  unassociate_proxies name lists s1

-- The name is taken from its owner, and what the owner had for it is returned.
unfoldable pub take_name : Bytes → Bytes → OwnerNames → Option NameOwnerInfo × OwnerNames
unfolding lookup_names find_name
take_name name owner owner_names = elim (find_name name (lookup_names owner owner_names)) [
  | none ↦ (none, owner_names)
  | some info ↦ (some info, drop_name owner name owner_names)
]

-- An owner that is empty is none. The manager is locked, and it is unlocked while proxies are destroyed.
unfoldable pub replace_name_owner : Bytes → Bytes → Bytes → World → Outcome World
unfolding associate unassociate_proxies take_name insert_nameinfo dispose_all
replace_name_owner name [] new_owner w = do
  done ← associate name new_owner w.manager.unassociated_proxies w
  ok (record done.1 { manager = record done.1.manager { unassociated_proxies = done.0 } })
replace_name_owner name (c ∷ prev_owner) [] w = do
  let taken = take_name name (c ∷ prev_owner) (or_empty w.manager.owner_names)
  let w1 = record w {
    manager = record w.manager { owner_names = on_table (λ t. taken.1) w.manager.owner_names };
  }
  found ← unassociate_proxies name (or_empty w1.manager.proxy_lists) ([], w1)
  w2 ← dispose_all found.0 (record found.1 { manager = unlock found.1.manager })
  locked ← lock w2.manager
  ok (record w2 { manager = locked })
replace_name_owner name (c ∷ prev_owner) (d ∷ new_owner) w =
    let taken = take_name name (c ∷ prev_owner) (or_empty w.manager.owner_names) in
    let table : OwnerNames = elim taken.0 [
      | none ↦ taken.1
      | some info ↦ insert_nameinfo (d ∷ new_owner) info taken.1
    ] in
    ok (record w {
      manager = record w.manager { owner_names = on_table (λ t. table) w.manager.owner_names };
    })

-- what the bus answers to `GetNameOwner`
pub data Answer : Type 0 where
  owned_by : Bytes → Answer
  no_owner : Answer
  other_error : Answer

unfoldable pub got_name_owner : ℕ → Answer → World → Outcome World
unfolding monitor_name_owner
got_name_owner p answer w = do
  locked ← lock w.manager
  proxy ← load w.proxies p
  elim answer [
    | owned_by owner ↦ (do
      name ← or_abort proxy.name
      ok (record w {
        proxies = write w.proxies p (record proxy { name_call = none; associated = true });
        manager = unlock (record locked {
          owner_names = on_table (monitor_name_owner owner name) locked.owner_names;
        });
      }))
    | no_owner ↦ ok (record w {
      proxies = write w.proxies p (record proxy { name_call = none });
      manager = unlock (record locked { unassociated_proxies = p ∷ locked.unassociated_proxies });
    })
    | other_error ↦ ok (record w {
      proxies = write w.proxies p (record proxy { name_call = none });
      manager = unlock locked;
    })
  ]

-- the proxies of a list that are not there yet, at the end
unfoldable pub append_new : List ℕ → List ℕ → List ℕ
unfolding has_proxy
append_new full [] = full
append_new full (p ∷ ps) = append_new (if has_proxy p full then full else full ++ p ∷ []) ps

-- the loop over the names that the sender owns
unfoldable pub add_owned : Bytes → Bytes → ProxyLists → Names → List ℕ → Outcome (List ℕ)
unfolding lookup_list append_new
add_owned path interface lists [] full = ok full
add_owned path interface lists (info ∷ names) full = do
  g_assert (ltb 0 info.refcount)
  let key : Key = record { name = info.name; path = path; interface = interface }
  add_owned path interface lists names (append_new full (or_empty (lookup_list key lists)))

-- `full_list`, the proxies that a signal is for
unfoldable pub targets : Option Bytes → Bytes → Bytes → DBusGProxyManager → Outcome (List ℕ)
unfolding lookup_list add_owned lookup_names
targets sender path interface manager = do
  let lists = or_empty manager.proxy_lists
  let key : Key = record { name = string_or_empty sender; path = path; interface = interface }
  let full_list = or_empty (lookup_list key lists)
  elim sender [
    | none ↦ ok full_list
    | some name ↦
        add_owned path interface lists (lookup_names name (or_empty manager.owner_names)) full_list
  ]

-- a signal, with its arguments where it is a `NameOwnerChanged` whose arguments are three strings
pub record Signal : Type 0 where
  pub sender : Option Bytes
  pub path : Bytes
  pub interface : Bytes
  pub member : Bytes
  pub arguments : Option (Bytes × Bytes × Bytes)

abbrev says : Signal → Bytes → Bytes → Bool
says message interface member =
    str_equal message.interface interface && str_equal message.member member

-- `NameOwnerChanged` of the bus itself
unfoldable pub follow_owner : Signal → World → Outcome World
unfolding str_equal replace_name_owner
follow_owner message w =
    elim (str_equal (string_or_empty message.sender) (codes "org.freedesktop.DBus")
      && says message (codes "org.freedesktop.DBus") (codes "NameOwnerChanged")
      && is_some w.manager.owner_names) [
        | false ↦ ok w
        | true ↦ elim message.arguments [
          | none ↦ ok w
          | some (name, prev_owner, new_owner) ↦ replace_name_owner name prev_owner new_owner w
        ]
      ]

-- `dbus_g_proxy_manager_list_all`, which conses each proxy
abbrev consed : List ℕ → List ℕ → List ℕ
consed ret [] = ret
consed ret (p ∷ ps) = consed (p ∷ ret) ps

unfoldable pub list_all : List ℕ → ProxyLists → List ℕ
list_all ret [] = ret
list_all ret ((key, proxies) ∷ lists) = list_all (consed ret proxies) lists

unfoldable pub handle_message : Signal → World → Outcome (List ℕ × World)
unfolding follow_owner targets dispose_all list_all str_equal
handle_message message w = do
  locked ← lock w.manager
  elim (says message (codes "org.freedesktop.DBus.Local") (codes "Disconnected")) [
    | true ↦ (do
      w1 ←
          dispose_all (list_all [] (or_empty locked.proxy_lists))
            (record w { manager = unlock locked })
      ok ([], w1))
    | false ↦ (do
      w1 ← follow_owner message (record w { manager = locked })
      full_list ← targets message.sender message.path message.interface w1.manager
      ok (full_list, record w1 { manager = unlock w1.manager }))
  ]

-- The proxies that are told of a signal; when the connection is lost all are destroyed instead. The
-- manager has one reference more while it works.
unfoldable pub filter : Signal → World → Outcome (List ℕ × World)
unfolding manager_ref manager_unref handle_message
filter message w = do
  reffed ← manager_ref w.manager
  told ← handle_message message (record w { manager = reffed })
  left ← manager_unref told.1.manager
  manager ← or_abort left
  ok (told.0, record told.1 { manager = manager })
