-- ===== src/Proxy/Manager/Tables.antt =====
-- Searches and writes in `proxy_lists` and in `owner_match_rules`.
use dbus_glib.Prelude.{
  ℕ, ◌≡◌, ap, arith, true, none, some, List, [], ◌∷◌, Bytes, str_equal, str_equal_iff,
  str_equal_refl,
}
use dbus_glib.Proxy.Manager.{
  Key, key_equal, ProxyLists, MatchRules, lookup_list, replace_list, remove_list, lookup_rule,
  insert_rule, remove_rule, remove_proxy,
}

pub key_equal_refl : (k : Key) → key_equal k k ≡ true
key_equal_refl k =
    ground (arith, str_equal_refl k.name, str_equal_refl k.path, str_equal_refl k.interface)

key_equal-same : (a b c : Key) → key_equal a b ≡ true → key_equal a c ≡ key_equal b c
key_equal-same a b c h = ground (
  arith,
  ap (λ (s : Bytes). str_equal s c.name) ((str_equal_iff a.name b.name).0 (ground arith)),
  ap (λ (s : Bytes). str_equal s c.path) ((str_equal_iff a.path b.path).0 (ground arith)),
  ap (λ (s : Bytes). str_equal s c.interface)
      ((str_equal_iff a.interface b.interface).0 (ground arith)),
)

key_equal-eq : (a b : Key) → key_equal a b ≡ true → a ≡ b
key_equal-eq a b h = ground (
  arith,
  (str_equal_iff a.name b.name).0 (ground arith),
  (str_equal_iff a.path b.path).0 (ground arith),
  (str_equal_iff a.interface b.interface).0 (ground arith),
)

module _ (k : Key) where
  pub lookup-replace :
      (xs : List ℕ) (lists : ProxyLists) → lookup_list k (replace_list k xs lists) ≡ some xs
  unfolding lookup_list replace_list
  lookup-replace xs [] = ground (arith, key_equal_refl k)
  lookup-replace xs ((key, old) ∷ lists) = ground (arith, key_equal_refl k, lookup-replace xs lists)

  pub replace-replace :
      (xs ys : List ℕ) (lists : ProxyLists)
      → replace_list k xs (replace_list k ys lists) ≡ replace_list k xs lists
  unfolding replace_list
  replace-replace xs ys [] = ground (arith, key_equal_refl k)
  replace-replace xs ys ((key, old) ∷ lists) =
      ground (arith, key_equal_refl k, replace-replace xs ys lists)

  pub replace-lookup :
      (xs : List ℕ) (lists : ProxyLists)
      → lookup_list k lists ≡ some xs
      → replace_list k xs lists ≡ lists
  unfolding lookup_list replace_list
  replace-lookup xs [] h = cc
  replace-lookup xs ((key, old) ∷ lists) h =
      ground (arith, key_equal-eq key k, replace-lookup xs lists)

  pub remove-replace :
      (xs : List ℕ) (lists : ProxyLists)
      → lookup_list k lists ≡ none
      → remove_list k (replace_list k xs lists) ≡ lists
  unfolding lookup_list replace_list remove_list
  remove-replace xs [] h = ground (arith, key_equal_refl k)
  remove-replace xs ((key, old) ∷ lists) h = ground (arith, remove-replace xs lists)

module _ (name : Bytes) where
  pub lookup-insert_rule :
      (n : ℕ) (rules : MatchRules) → lookup_rule name (insert_rule name n rules) ≡ some n
  unfolding lookup_rule insert_rule
  lookup-insert_rule n [] = ground (arith, str_equal_refl name)
  lookup-insert_rule n ((key, old) ∷ rules) =
      ground (arith, str_equal_refl name, lookup-insert_rule n rules)

  pub insert-insert_rule :
      (n m : ℕ) (rules : MatchRules)
      → insert_rule name n (insert_rule name m rules) ≡ insert_rule name n rules
  unfolding insert_rule
  insert-insert_rule n m [] = ground (arith, str_equal_refl name)
  insert-insert_rule n m ((key, old) ∷ rules) =
      ground (arith, str_equal_refl name, insert-insert_rule n m rules)

  pub insert-lookup_rule :
      (n : ℕ) (rules : MatchRules)
      → lookup_rule name rules ≡ some n
      → insert_rule name n rules ≡ rules
  unfolding lookup_rule insert_rule
  insert-lookup_rule n [] h = cc
  insert-lookup_rule n ((key, old) ∷ rules) h =
      ground (arith, str_equal_iff key name, insert-lookup_rule n rules)

  pub remove-insert_rule :
      (n : ℕ) (rules : MatchRules)
      → lookup_rule name rules ≡ none
      → remove_rule name (insert_rule name n rules) ≡ rules
  unfolding lookup_rule insert_rule remove_rule
  remove-insert_rule n [] h = ground (arith, str_equal_refl name)
  remove-insert_rule n ((key, old) ∷ rules) h = ground (arith, remove-insert_rule n rules)

pub remove-enter : (p : ℕ) (ps : List ℕ) → remove_proxy p (p ∷ ps) ≡ ps
unfolding remove_proxy
remove-enter p ps = ground arith
