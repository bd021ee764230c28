-- ===== src/Proxy/Manager/Registration.antt =====
-- dbus/dbus-gproxy.c: `dbus_g_proxy_manager_register` and `dbus_g_proxy_manager_unregister`, which enter a
-- proxy in the tables of its manager and take it out, and `dbus_g_proxy_set_interface`. A table that is
-- NULL is found empty, and an insertion into it does nothing, as GLib warns and returns.
use dbus_glib.Prelude.{
  ℕ, ◌+◌, ◌-◌, ◌%◌, ◌^◌, Bool, true, false, not, ◌||◌, Option, none, some, List, [], ◌∷◌, ◌==◌,
  Bytes, ltb, if◌then◌else◌,
}
use dbus_glib.Outcome.{Outcome, ok, or_abort, g_assert, ◌>>=◌, ◌>>◌}
use dbus_glib.Heap.{load, write, is_some}
use dbus_glib.Proxy.Owners.{
  lookup_name_owner, unmonitor_name_owner, lookup_names, insert_names, write_info,
}
use dbus_glib.Proxy.Manager.{
  Proxy, tristring_from_proxy, ProxyLists, add_match, remove_match, get_name_owner_of, cancel_call,
  DBusGProxyManager, World, lock, unlock, request, lookup_list, replace_list, remove_list,
  lookup_rule, insert_rule, remove_rule, has_proxy, remove_proxy, signal_match_rule,
  owner_match_rule,
}

abbrev pub is_nil {ℓ} : {A : Type ℓ} → List A → Bool
is_nil [] = true
is_nil (x ∷ xs) = false

abbrev pub or_empty {ℓ} : {A : Type ℓ} → Option (List A) → List A
or_empty none = []
or_empty (some xs) = xs

abbrev pub on_table {ℓ} : {A : Type ℓ} → (List A → List A) → Option (List A) → Option (List A)
on_table change none = none
on_table change (some table) = some (change table)

-- a table with nothing left is destroyed
abbrev pub destroy_empty {ℓ} : {A : Type ℓ} → Option (List A) → Option (List A)
destroy_empty none = none
destroy_empty (some []) = none
destroy_empty (some (x ∷ xs)) = some (x ∷ xs)

-- The three tables are made together, and none of them may be there before.
unfoldable pub make_tables : DBusGProxyManager → Outcome DBusGProxyManager
make_tables manager = elim manager.proxy_lists [
  | some lists ↦ ok manager
  | none ↦ (do
    g_assert (not (is_some manager.owner_names))
    g_assert (not (is_some manager.owner_match_rules))
    ok (record manager {
      proxy_lists = some [];
      owner_names = some [];
      owner_match_rules = some [];
    }))
]

-- the match rules for the first proxy of a list
unfoldable pub add_rules : Proxy → Bytes → DBusGProxyManager → Outcome DBusGProxyManager
unfolding lookup_rule insert_rule signal_match_rule owner_match_rule
add_rules proxy name manager =
    let asked = request (add_match (signal_match_rule proxy)) manager in
    elim (lookup_rule name (or_empty manager.owner_match_rules)) [
      | some refcount ↦ (do
        g_assert (not (refcount == 0))
        g_assert (ltb refcount (2 ^ 32 - 1))
        ok (record asked {
          owner_match_rules = on_table (insert_rule name (refcount + 1)) manager.owner_match_rules;
        }))
      | none ↦ ok (record (request (add_match (owner_match_rule name)) asked) {
        owner_match_rules = on_table (insert_rule name 1) manager.owner_match_rules;
      })
    ]

unfoldable pub add_rules_if : Bool → Proxy → DBusGProxyManager → Outcome DBusGProxyManager
unfolding add_rules
add_rules_if first proxy manager = elim first [
  | false ↦ ok manager
  | true ↦ elim proxy.name [ none ↦ ok manager | some name ↦ add_rules proxy name manager ]
]

-- The owner of a proxy's name is watched, or asked for if it is not known, on a connection that is up.
-- A call whose number is 0 is no call.
unfoldable pub watch_owner : ℕ → Proxy → World → Outcome World
unfolding lookup_name_owner lookup_names insert_names write_info
watch_owner p proxy w = do
  name ← or_abort proxy.name
  let names = or_empty w.manager.owner_names
  found ← lookup_name_owner name names
  elim found.0 [
    | none ↦
        (let call = (w.manager.call_id_counter + 1) % 2 ^ 32 in
          ok (record w {
            proxies = write w.proxies p (record proxy {
              name_call = if call == 0 then none else some call;
              associated = false;
            });
            manager = record (request (get_name_owner_of name call) w.manager) {
              call_id_counter = call;
            };
          }))
    | some info ↦ (do
      owner ← or_abort found.1
      let counted = record info { refcount = (info.refcount + 1) % 2 ^ 32 }
      ok (record w {
        proxies = write w.proxies p (record proxy { associated = true });
        manager = record w.manager {
          owner_names =
              on_table (insert_names owner (write_info counted (lookup_names owner names)))
                w.manager.owner_names;
        };
      }))
  ]

-- the proxies of a key, and the table with a list for it
unfoldable pub enter_proxy : ℕ → Proxy → DBusGProxyManager → Outcome DBusGProxyManager
unfolding lookup_list replace_list has_proxy add_rules_if
enter_proxy p proxy manager = do
  lists ← or_abort manager.proxy_lists
  let key = tristring_from_proxy proxy
  let proxies = or_empty (lookup_list key lists)
  ruled ← add_rules_if (is_nil proxies) proxy manager
  g_assert (not (has_proxy p proxies))
  ok (record ruled { proxy_lists = some (replace_list key (p ∷ proxies) lists) })

unfoldable pub register : ℕ → World → Outcome World
unfolding make_tables enter_proxy watch_owner
register p w = do
  locked ← lock w.manager
  proxy ← load w.proxies p
  ready ← make_tables locked
  entered ← enter_proxy p proxy ready
  let w1 = record w { manager = entered }
  w2 ← if proxy.for_owner then ok w1 else watch_owner p proxy w1
  ok (record w2 { manager = unlock w2.manager })

-- the watch of a proxy's name, or the wait for its owner, is given up
unfoldable pub unwatch_owner : ℕ → Proxy → World → Outcome World
unfolding unmonitor_name_owner remove_proxy
unwatch_owner p proxy w = elim proxy.associated [
  | true ↦ (do
    g_assert (not (is_some proxy.name_call))
    name ← or_abort proxy.name
    names ← or_abort w.manager.owner_names
    names' ← unmonitor_name_owner name names
    ok (record w { manager = record w.manager { owner_names = some names' } }))
  | false ↦ elim proxy.name_call [
    | some call ↦ ok (record w {
      proxies = write w.proxies p (record proxy { name_call = none });
      manager = request (cancel_call call) w.manager;
    })
    | none ↦ ok (record w {
      manager = record w.manager {
        unassociated_proxies = remove_proxy p w.manager.unassociated_proxies;
      };
    })
  ]
]

unfoldable pub drop_rule : Bytes → DBusGProxyManager → Outcome DBusGProxyManager
unfolding lookup_rule insert_rule remove_rule owner_match_rule
drop_rule name manager = do
  refcount ← or_abort (lookup_rule name (or_empty manager.owner_match_rules))
  let lowered = (refcount + 2 ^ 32 - 1) % 2 ^ 32
  if lowered == 0
      then ok (record (request (remove_match (owner_match_rule name)) manager) {
        owner_match_rules = on_table (remove_rule name) manager.owner_match_rules;
      })
      else ok (record manager {
        owner_match_rules = on_table (insert_rule name lowered) manager.owner_match_rules;
      })

-- The list of a key has nothing left: it leaves the table, and its rules are given back.
unfoldable pub drop_list : Proxy → DBusGProxyManager → Outcome DBusGProxyManager
unfolding remove_list drop_rule signal_match_rule
drop_list proxy manager =
    let asked = record (request (remove_match (signal_match_rule proxy)) manager) {
      proxy_lists = on_table (remove_list (tristring_from_proxy proxy)) manager.proxy_lists;
    } in
    elim proxy.name [ none ↦ ok asked | some name ↦ drop_rule name asked ]

-- `unregister` for a proxy that is in the list `proxies` of its key
unfoldable pub leave_list : ℕ → Proxy → List ℕ → ProxyLists → World → Outcome World
unfolding has_proxy remove_proxy replace_list unwatch_owner drop_list
leave_list p proxy proxies lists w = do
  g_assert (has_proxy p proxies)
  let left = remove_proxy p proxies
  g_assert (not (has_proxy p left))
  let w1 = record w {
    manager = record w.manager {
      proxy_lists = some (replace_list (tristring_from_proxy proxy) left lists);
    };
  }
  w2 ← if proxy.for_owner then ok w1 else unwatch_owner p proxy w1
  manager ← if is_nil left then drop_list proxy w2.manager else ok w2.manager
  ok (record w2 {
    manager = unlock (record manager {
      proxy_lists = destroy_empty manager.proxy_lists;
      owner_match_rules = destroy_empty manager.owner_match_rules;
    });
  })

-- The two early returns, with a warning, leave the manager locked.
unfoldable pub unregister : ℕ → World → Outcome World
unfolding lookup_list leave_list
unregister p w = do
  locked ← lock w.manager
  proxy ← load w.proxies p
  let w1 = record w { manager = locked }
  elim locked.proxy_lists [
    | none ↦ ok w1
    | some lists ↦ elim (lookup_list (tristring_from_proxy proxy) lists) [
      | none ↦ ok w1
      | some proxies ↦ leave_list p proxy proxies lists w1
    ]
  ]

-- The guards at its start return; `is_interface_name` is GLib's check.
unfoldable pub set_interface : (Bytes → Bool) → ℕ → Bytes → World → Outcome World
unfolding register unregister
set_interface is_interface_name p interface_name w = do
  called ← load w.proxies p
  elim (called.destroyed || not (is_interface_name interface_name)) [
    | true ↦ ok w
    | false ↦ (do
      w1 ← unregister p w
      proxy ← load w1.proxies p
      register p (record w1 {
        proxies = write w1.proxies p (record proxy { interface = interface_name });
      }))
  ]
