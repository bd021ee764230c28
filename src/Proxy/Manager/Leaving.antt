-- ===== src/Proxy/Manager/Leaving.antt =====
-- A proxy of dbus/dbus-gproxy.c that is registered and unregistered again.
use dbus_glib.Prelude.{
  ℕ, ◌+◌, ◌-◌, ◌%◌, ◌^◌, ◌≡◌, refl, sym, ap, ◌∙◌, arith, Bool, true, false, not, ◌&&◌, Option, none,
  some, List, [], ◌∷◌, ◌++◌, Bytes, ltb, append-nil, Option-cases, inl, inr,
}
use dbus_glib.Outcome.{Outcome, ok, ◌>>=◌}
use dbus_glib.Heap.{load}
use dbus_glib.Proxy.Manager.{
  Proxy, Key, tristring_from_proxy, ProxyLists, MatchRules, Request, add_match, remove_match,
  get_name_owner_of, cancel_call, signal_match_rule, owner_match_rule, DBusGProxyManager, World,
  lookup_list, lookup_rule, has_proxy,
}
use dbus_glib.Proxy.Manager.Tables.{
  lookup-replace, replace-replace, replace-lookup, remove-replace, lookup-insert_rule,
  insert-insert_rule, insert-lookup_rule, remove-insert_rule, remove-enter,
}
use dbus_glib.Proxy.Manager.Registration.{register, unregister, is_nil}

-- a count that may grow
abbrev pub counted : Option ℕ → Bool
counted none = true
counted (some n) = ltb 0 n && ltb n (2 ^ 32 - 1)

-- `p` is not in the list of its key, which has a proxy if it is there
abbrev pub is_absent : ℕ → Option (List ℕ) → Bool
is_absent p none = true
is_absent p (some ps) = not (is_nil ps) && not (has_proxy p ps)

abbrev with_tables : ProxyLists → MatchRules → List Request → DBusGProxyManager → DBusGProxyManager
with_tables lists rules asked m = record m {
  locked = false;
  proxy_lists = some lists;
  owner_match_rules = some rules;
  requests = asked;
}

-- the match rules that are asked for, and those that are given back
abbrev pub added : List Request → List Bytes
added [] = []
added (add_match rule ∷ asked) = rule ∷ added asked
added (remove_match rule ∷ asked) = added asked
added (get_name_owner_of name call ∷ asked) = added asked
added (cancel_call call ∷ asked) = added asked

abbrev pub removed : List Request → List Bytes
removed [] = []
removed (add_match rule ∷ asked) = removed asked
removed (remove_match rule ∷ asked) = rule ∷ removed asked
removed (get_name_owner_of name call ∷ asked) = removed asked
removed (cancel_call call ∷ asked) = removed asked

-- the requests of the two cases in which the proxy is the first of its key
abbrev both_rules : Proxy → Bytes → List Request
both_rules proxy name =
    add_match (signal_match_rule proxy)
    ∷ add_match (owner_match_rule name)
    ∷ remove_match (signal_match_rule proxy)
    ∷ remove_match (owner_match_rule name)
    ∷ []

abbrev signal_rule : Proxy → List Request
signal_rule proxy =
    add_match (signal_match_rule proxy) ∷ remove_match (signal_match_rule proxy) ∷ []

append_two : (xs : List Request) (a b : Request) → (xs ++ a ∷ [] ++ b ∷ []) ≡ xs ++ a ∷ b ∷ []
append_two [] a b = refl
append_two (x ∷ xs) a b = ap (λ ys. x ∷ ys) (append_two xs a b)

append_four :
    (xs : List Request) (a b c d : Request)
    → (xs ++ a ∷ [] ++ b ∷ [] ++ c ∷ [] ++ d ∷ []) ≡ xs ++ a ∷ b ∷ c ∷ d ∷ []
append_four [] a b c d = refl
append_four (x ∷ xs) a b c d = ap (λ ys. x ∷ ys) (append_four xs a b c d)

module _ (p : ℕ) (proxy : Proxy) (w : World) (lists : ProxyLists) (rules : MatchRules)
    (loaded : load w.proxies p ≡ ok proxy) (owner : proxy.for_owner ≡ true)
    (full : is_nil lists ≡ false) (ruled : is_nil rules ≡ false) where
  abbrev at_key : Key
  at_key = tristring_from_proxy proxy

  -- another proxy has the key
  listed :
      (q : ℕ) (qs : List ℕ) (asked : List Request)
      → lookup_list at_key lists ≡ some (q ∷ qs)
      → has_proxy p (q ∷ qs) ≡ false
      → (do
        w1 ← register p (record w { manager = with_tables lists rules asked w.manager })
        unregister p w1)
        ≡ ok (record w { manager = with_tables lists rules asked w.manager })
  unfolding register unregister
  listed q qs asked found fresh = ground (
    arith,
    loaded,
    owner,
    found,
    fresh,
    lookup-replace at_key (p ∷ q ∷ qs) lists,
    remove-enter p (q ∷ qs),
    replace-replace at_key (q ∷ qs) (p ∷ q ∷ qs) lists,
    replace-lookup at_key (q ∷ qs) lists found,
    full,
    ruled,
  )

  -- the proxy is the first of its key and of its name
  alone_first :
      (asked : List Request) (name : Bytes)
      → lookup_list at_key lists ≡ none
      → proxy.name ≡ some name
      → lookup_rule name rules ≡ none
      → (do
        w1 ← register p (record w { manager = with_tables lists rules asked w.manager })
        unregister p w1)
        ≡ ok (record w {
          manager =
              with_tables lists rules
                (asked
                  ++ add_match (signal_match_rule proxy) ∷ []
                  ++ add_match (owner_match_rule name) ∷ []
                  ++ remove_match (signal_match_rule proxy) ∷ []
                  ++ remove_match (owner_match_rule name) ∷ [])
                w.manager;
        })
  unfolding register unregister
  alone_first asked name missing named unruled = ground (
    arith,
    loaded,
    owner,
    missing,
    named,
    unruled,
    lookup-replace at_key (p ∷ []) lists,
    remove-enter p [],
    replace-replace at_key [] (p ∷ []) lists,
    remove-replace at_key [] lists missing,
    full,
    ruled,
    lookup-insert_rule name 1 rules,
    remove-insert_rule name 1 rules unruled,
  )

  -- the proxy is the first of its key, and its name has rules
  alone_more :
      (asked : List Request) (name : Bytes) (n : ℕ)
      → lookup_list at_key lists ≡ none
      → proxy.name ≡ some name
      → lookup_rule name rules ≡ some n
      → counted (some n) ≡ true
      → (do
        w1 ← register p (record w { manager = with_tables lists rules asked w.manager })
        unregister p w1)
        ≡ ok (record w {
          manager =
              with_tables lists rules
                (asked
                  ++ add_match (signal_match_rule proxy) ∷ []
                  ++ remove_match (signal_match_rule proxy) ∷ [])
                w.manager;
        })
  unfolding register unregister
  alone_more asked name n missing named has_rule fits =
      let lowered : (n + 1 + 2 ^ 32 - 1) % 2 ^ 32 ≡ n = ground arith in
      ground (
        arith,
        loaded,
        owner,
        missing,
        named,
        has_rule,
        lookup-replace at_key (p ∷ []) lists,
        remove-enter p [],
        replace-replace at_key [] (p ∷ []) lists,
        remove-replace at_key [] lists missing,
        full,
        ruled,
        lowered,
        fits,
        lookup-insert_rule name (n + 1) rules,
        insert-insert_rule name n (n + 1) rules,
        insert-lookup_rule name n rules has_rule,
      )

abbrev as_tables : ProxyLists → MatchRules → World → World
as_tables lists rules w = record w {
  manager = with_tables lists rules w.manager.requests w.manager;
}

as_tables-same :
    (lists : ProxyLists) (rules : MatchRules) (w : World)
    → w.manager.locked ≡ false
    → w.manager.proxy_lists ≡ some lists
    → w.manager.owner_match_rules ≡ some rules
    → as_tables lists rules w ≡ w
as_tables-same lists rules w free listed ruled = ground (arith, free, listed, ruled)

abbrev ended : ProxyLists → MatchRules → World → List Request → Outcome World
ended lists rules w asked = ok (record w { manager = with_tables lists rules asked w.manager })

abbrev there_and_back : ℕ → World → Outcome World
there_and_back p w = do w1 ← register p w; unregister p w1

-- a run that is known of `as_tables` is one of the world itself
run_as_tables :
    (p : ℕ) (lists : ProxyLists) (rules : MatchRules) (w : World) (asked : List Request)
    → w.manager.locked ≡ false
    → w.manager.proxy_lists ≡ some lists
    → w.manager.owner_match_rules ≡ some rules
    → there_and_back p (as_tables lists rules w)
      ≡ ok (record w { manager = with_tables lists rules (w.manager.requests ++ asked) w.manager })
    → there_and_back p w
      ≡ ok (record w { manager = record w.manager { requests = w.manager.requests ++ asked } })
run_as_tables p lists rules w asked free listed ruled run =
    ap (there_and_back p) (sym (as_tables-same lists rules w free listed ruled))
    ∙ run
    ∙ ap ok (ground (arith, free, listed, ruled))

-- If a manager that is not locked has a list and a match rule, then registering a proxy of an owner and
-- unregistering it returns and leaves the proxies and the manager as they were, but for what is asked of
-- libdbus meanwhile: every match rule that is added is removed, in the order in which it was added. The
-- proxy is not in the list of its key, which is not empty if it is there, and the count of its name's
-- rules is neither 0 nor the largest `guint`.
pub unregister-register :
    (p : ℕ) (proxy : Proxy) (name : Bytes) (w : World) (lists : ProxyLists) (rules : MatchRules)
    → w.manager.locked ≡ false
    → w.manager.proxy_lists ≡ some lists
    → w.manager.owner_match_rules ≡ some rules
    → is_nil lists ≡ false
    → is_nil rules ≡ false
    → load w.proxies p ≡ ok proxy
    → proxy.for_owner ≡ true
    → proxy.name ≡ some name
    → is_absent p (lookup_list (tristring_from_proxy proxy) lists) ≡ true
    → counted (lookup_rule name rules) ≡ true
    → (asked : List Request) × ((do w1 ← register p w; unregister p w1)
        ≡ ok (record w { manager = record w.manager { requests = w.manager.requests ++ asked } }))
      × (added asked ≡ removed asked)
unregister-register p proxy name w lists rules free tables rule_table full ruled loaded owner
      is_named absent fits =
    let key = tristring_from_proxy proxy in
    let run =
      λ (asked : List Request). run_as_tables p lists rules w asked free tables rule_table in
    elim (Option-cases (lookup_list key lists)) [
      | inl missing ↦ elim (Option-cases (lookup_rule name rules)) [
        | inl unruled ↦ (
          both_rules proxy name,
          run (both_rules proxy name) (
              alone_first p proxy w lists rules loaded owner full ruled w.manager.requests name
                missing is_named unruled
              ∙ ap (ended lists rules w) (
                  append_four w.manager.requests (add_match (signal_match_rule proxy))
                    (add_match (owner_match_rule name)) (remove_match (signal_match_rule proxy))
                    (remove_match (owner_match_rule name)))),
          refl,
        )
        | inr (n, has_rule) ↦ (
          signal_rule proxy,
          run (signal_rule proxy) (
              alone_more p proxy w lists rules loaded owner full ruled w.manager.requests name n
                missing is_named has_rule (sym (ap counted has_rule) ∙ fits)
              ∙ ap (ended lists rules w) (
                  append_two w.manager.requests (add_match (signal_match_rule proxy))
                    (remove_match (signal_match_rule proxy)))),
          refl,
        )
      ]
      | inr ([], found) ↦ cc
      | inr (q ∷ qs, found) ↦ (
        [],
        run [] (
            listed p proxy w lists rules loaded owner full ruled q qs w.manager.requests found
              (ground (arith, found))
            ∙ ap (ended lists rules w) (sym (append-nil w.manager.requests))),
        refl,
      )
    ]
