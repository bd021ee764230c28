-- ===== src/Proxy/Manager/Faults.antt =====
-- States of the manager of dbus/dbus-gproxy.c in which its next call stops the process.
use dbus_glib.Prelude.{
  ℕ, ◌≡◌, refl, sym, ◌∙◌, arith, Bool, true, false, Option, none, some, List, [], ◌∷◌, ◌++◌, Bytes,
  str_equal, str_equal_refl, Option-cases, inl, inr,
}
use dbus_glib.Outcome.{ok, abort, ◌>>=◌, >>=_assoc}
use dbus_glib.Heap.{load}
use dbus_glib.Proxy.Manager.{
  Request, add_match, remove_match, signal_match_rule, owner_match_rule, MatchRules, Proxy,
  ProxyLists, key_equal, tristring_from_proxy, DBusGProxyManager, World, lookup_list,
}
use dbus_glib.Proxy.Manager.Tables.{key_equal_refl}
use dbus_glib.Proxy.Manager.Registration.{register, unregister, set_interface, or_empty}

-- The manager's tables have no list for the key of the proxy.
abbrev pub IsUnknown : ℕ → World → Type 0
IsUnknown p w =
    (proxy : Proxy) × (load w.proxies p ≡ ok proxy)
    × (lookup_list (tristring_from_proxy proxy) (or_empty w.manager.proxy_lists) ≡ none)

register-locked : (p : ℕ) (w : World) → w.manager.locked ≡ true → register p w ≡ abort
unfolding register
register-locked p w h = ground (arith, h)

unregister-locked : (p : ℕ) (w : World) → w.manager.locked ≡ true → unregister p w ≡ abort
unfolding unregister
unregister-locked p w h = ground (arith, h)

-- If an unlocked manager has no list for the key of a proxy, unregistering the proxy returns and changes
-- nothing but that the manager stays locked; after that, to register or unregister any proxy stops the
-- process, as which the model takes a call that never gets the lock.
pub unregister_unknown :
    (p : ℕ) (w : World)
    → w.manager.locked ≡ false
    → IsUnknown p w
    → (w' : World) × (unregister p w ≡ ok w')
      × (w' ≡ record w { manager = record w.manager { locked = true } })
      × ((q : ℕ) → (register q w' ≡ abort) × (unregister q w' ≡ abort))
unfolding unregister
unregister_unknown p w free (proxy, loaded, unknown) =
    let w' : World = record w { manager = record w.manager { locked = true } } in
    (
      w',
      ground (arith, free, loaded, unknown),
      refl,
      (λ q. (register-locked q w' refl, unregister-locked q w' refl)),
    )

-- a manager with no proxy yet
abbrev pub IsUnused : DBusGProxyManager → Type 0
IsUnused manager =
    (manager.locked ≡ false)
    × (manager.proxy_lists ≡ none)
    × (manager.owner_names ≡ none)
    × (manager.owner_match_rules ≡ none)

-- Registered alone: the tables have one list, and at most one rule.
abbrev sole_rules : Option Bytes → MatchRules
sole_rules none = []
sole_rules (some name) = (name, 1) ∷ []

abbrev IsSole : ℕ → Proxy → World → Type 0
IsSole p proxy w =
    (w.manager.locked ≡ false)
    × (load w.proxies p ≡ ok proxy)
    × (w.manager.proxy_lists ≡ some ((tristring_from_proxy proxy, p ∷ []) ∷ []))
    × (w.manager.owner_names ≡ some [])
    × (w.manager.owner_match_rules ≡ some (sole_rules proxy.name))

-- the world after the first registration
abbrev with_sole : ℕ → Proxy → List Request → World → World
with_sole p proxy asked w = record w {
  manager = record w.manager {
    locked = false;
    proxy_lists = some ((tristring_from_proxy proxy, p ∷ []) ∷ []);
    owner_names = some [];
    owner_match_rules = some (sole_rules proxy.name);
    requests = asked;
  };
}

register-IsSole :
    (p : ℕ) (proxy : Proxy) (w : World)
    → IsUnused w.manager
    → load w.proxies p ≡ ok proxy
    → proxy.for_owner ≡ true
    → (w' : World) × (register p w ≡ ok w') × IsSole p proxy w'
unfolding register
register-IsSole p proxy w (free, lists, names, rules) loaded owner =
    elim (Option-cases proxy.name) [
      | inl nameless ↦ (
        with_sole p proxy w.manager.requests w,
        ground (arith, free, lists, names, rules, loaded, owner, nameless),
        (refl, loaded, refl, refl, refl),
      )
      | inr (name, named) ↦ (
        with_sole p proxy
            (w.manager.requests
              ++ add_match (signal_match_rule proxy) ∷ []
              ++ add_match (owner_match_rule name) ∷ [])
            w,
        ground (arith, free, lists, names, rules, loaded, owner, named),
        (refl, loaded, refl, refl, refl),
      )
    ]

set_interface-IsSole :
    (is_interface_name : Bytes → Bool) (p : ℕ) (proxy : Proxy) (interface_name : Bytes) (w : World)
    → is_interface_name interface_name ≡ true
    → proxy.destroyed ≡ false
    → IsSole p proxy w
    → proxy.for_owner ≡ true
    → set_interface is_interface_name p interface_name w ≡ abort
unfolding set_interface register unregister
set_interface-IsSole is_interface_name p proxy interface_name w valid alive
      (free, loaded, lists, names, rules) owner =
    let same = key_equal_refl (tristring_from_proxy proxy) in
    elim (Option-cases proxy.name) [
      | inl nameless ↦
          ground (arith, valid, alive, free, loaded, lists, names, rules, owner, nameless, same)
      | inr (name, named) ↦ ground (
        arith,
        valid,
        alive,
        free,
        loaded,
        lists,
        names,
        rules,
        owner,
        named,
        same,
        str_equal_refl name,
      )
    ]

-- If the first proxy of a manager has an owner's name or none, is not destroyed, and is registered, then
-- setting its interface to a valid name stops the process: the tables of owners outlive those of proxies,
-- and making the tables again asserts that there are none.
pub set_interface-register :
    (is_interface_name : Bytes → Bool) (p : ℕ) (proxy : Proxy) (interface_name : Bytes) (w : World)
    → is_interface_name interface_name ≡ true
    → proxy.destroyed ≡ false
    → IsUnused w.manager
    → load w.proxies p ≡ ok proxy
    → proxy.for_owner ≡ true
    → (do w1 ← register p w; set_interface is_interface_name p interface_name w1) ≡ abort
set_interface-register is_interface_name p proxy interface_name w valid alive unused loaded owner =
    let (w1, e, sole) = register-IsSole p proxy w unused loaded owner in
    rw e (set_interface-IsSole is_interface_name p proxy interface_name w1 valid alive sole owner)

-- the tables of a manager whose only list is that of the proxy `q` with no name
abbrev one_list : ℕ → Proxy → ProxyLists
one_list q peer = (tristring_from_proxy peer, q ∷ []) ∷ []

abbrev pub beside_peer : ℕ → Proxy → Option MatchRules → List Request → World → World
beside_peer q peer rules asked w = record w {
  manager = record w.manager {
    locked = false;
    proxy_lists = some (one_list q peer);
    owner_names = some [];
    owner_match_rules = rules;
    requests = asked;
  };
}

-- what is asked of libdbus for the first proxy of a name, and when it leaves
abbrev asked_and_back : Proxy → Bytes → List Request → List Request
asked_and_back proxy name before =
    before
    ++ add_match (signal_match_rule proxy) ∷ []
    ++ add_match (owner_match_rule name) ∷ []
    ++ remove_match (signal_match_rule proxy) ∷ []
    ++ remove_match (owner_match_rule name) ∷ []

module _ (p q : ℕ) (proxy peer : Proxy) (name : Bytes) (asked : List Request) (w : World)
    (loaded : load w.proxies p ≡ ok proxy) (owner : proxy.for_owner ≡ true)
    (named : proxy.name ≡ some name)
    (apart : key_equal (tristring_from_proxy peer) (tristring_from_proxy proxy) ≡ false) where
  rules_destroyed :
      (do w1 ← register p (beside_peer q peer (some []) asked w); unregister p w1)
      ≡ ok (beside_peer q peer none (asked_and_back proxy name asked) w)
  unfolding register unregister
  rules_destroyed =
      let same = key_equal_refl (tristring_from_proxy proxy) in
      ground (arith, loaded, owner, named, same, apart, str_equal_refl name)

  rules_missing : (do w1 ← register p (beside_peer q peer none asked w); unregister p w1) ≡ abort
  unfolding register unregister
  rules_missing =
      let same = key_equal_refl (tristring_from_proxy proxy) in
      ground (arith, loaded, owner, named, same, apart, str_equal_refl name)

-- If a proxy with no name is the only one that is registered, then a proxy of an owner that is
-- registered, unregistered, registered and unregistered stops the process: the table of match rules
-- is destroyed when it is empty and is not made again while a proxy is left.
pub register_twice_beside_peer :
    (p q : ℕ) (proxy peer : Proxy) (c : ℕ) (name : Bytes) (asked : List Request) (w : World)
    → load w.proxies p ≡ ok proxy
    → proxy.for_owner ≡ true
    → proxy.name ≡ some (c ∷ name)
    → peer.name ≡ none
    → (do
      w1 ← register p (beside_peer q peer (some []) asked w)
      w2 ← unregister p w1
      w3 ← register p w2
      unregister p w3)
      ≡ abort
register_twice_beside_peer p q proxy peer c name asked w loaded owner named nameless =
    let apart : key_equal (tristring_from_proxy peer) (tristring_from_proxy proxy) ≡ false =
      unfold str_equal in ground (arith, named, nameless) in
    let first = rules_destroyed p q proxy peer (c ∷ name) asked w loaded owner named apart in
    let second =
      rules_missing p q proxy peer (c ∷ name) (asked_and_back proxy (c ∷ name) asked) w loaded owner
        named apart in
    sym (
      >>=_assoc (register p (beside_peer q peer (some []) asked w)) (unregister p)
        (λ w2. register p w2 >>= unregister p))
    ∙ rw first second
