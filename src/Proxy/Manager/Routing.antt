-- ===== src/Proxy/Manager/Routing.antt =====
-- Which proxies dbus/dbus-gproxy.c tells of a signal.
use dbus_glib.Prelude.{
  ℕ, ◌≡◌, refl, ap, ◌∙◌, arith, Bool, true, false, not, ◌&&◌, ◌||◌, Option, none, some, List, [],
  ◌∷◌, ◌++◌, ◌==◌, Bytes, ltb, Bool-cases, inl, inr, if◌then◌else◌, ==_iff,
}
use dbus_glib.Outcome.{Outcome, ok}
use dbus_glib.Proxy.Tristring.{string_or_empty}
use dbus_glib.Proxy.Owners.{Names, lookup_names}
use dbus_glib.Proxy.Manager.{Key, ProxyLists, DBusGProxyManager, lookup_list, has_proxy}
use dbus_glib.Proxy.Manager.Registration.{or_empty}
use dbus_glib.Proxy.Manager.Signals.{append_new, add_owned, targets}

-- no proxy stands in a list twice
abbrev pub is_distinct : List ℕ → Bool
is_distinct [] = true
is_distinct (p ∷ ps) = not (has_proxy p ps) && is_distinct ps

-- every name is watched
abbrev pub all_counted : Names → Bool
all_counted [] = true
all_counted (info ∷ names) = ltb 0 info.refcount && all_counted names

abbrev pub key_of : Bytes → Bytes → Bytes → Key
key_of name path interface = record { name = name; path = path; interface = interface }

-- `p` is registered for signals of this name, path and interface
abbrev pub is_registered : ℕ → Key → ProxyLists → Bool
is_registered p key lists = has_proxy p (or_empty (lookup_list key lists))

abbrev pub by_owned : ℕ → Bytes → Bytes → ProxyLists → Names → Bool
by_owned p path interface lists [] = false
by_owned p path interface lists (info ∷ names) =
    is_registered p (key_of info.name path interface) lists || by_owned p path interface lists names

abbrev pub owned_names : Option Bytes → DBusGProxyManager → Names
owned_names none manager = []
owned_names (some name) manager = lookup_names name (or_empty manager.owner_names)

-- `p` is registered for the sender itself or for a name that it owns
abbrev pub is_told : ℕ → Option Bytes → Bytes → Bytes → DBusGProxyManager → Bool
is_told p sender path interface manager =
    let lists = or_empty manager.proxy_lists in
    is_registered p (key_of (string_or_empty sender) path interface) lists
    || by_owned p path interface lists (owned_names sender manager)

module _ (p : ℕ) where
  has_proxy-append : (xs ys : List ℕ) → has_proxy p (xs ++ ys) ≡ (has_proxy p xs || has_proxy p ys)
  unfolding has_proxy
  has_proxy-append [] ys = refl
  has_proxy-append (x ∷ xs) ys = ground (arith, has_proxy-append xs ys)

  has_proxy-concat :
      (q : ℕ) (full : List ℕ) → has_proxy p (full ++ q ∷ []) ≡ (has_proxy p full || q == p)
  unfolding has_proxy
  has_proxy-concat q full = ground (arith, has_proxy-append full (q ∷ []))

  has_proxy-same : (q : ℕ) (full : List ℕ) → (q == p) ≡ true → has_proxy q full ≡ has_proxy p full
  has_proxy-same q full e = ap (λ (n : ℕ). has_proxy n full) ((==_iff q p).0 e)

  has_proxy-append_new :
      (full ps : List ℕ) → has_proxy p (append_new full ps) ≡ (has_proxy p full || has_proxy p ps)
  unfolding append_new has_proxy
  has_proxy-append_new full [] = ground arith
  has_proxy-append_new full (q ∷ ps) =
      has_proxy-append_new (if has_proxy q full then full else full ++ q ∷ []) ps
      ∙ ground (arith, has_proxy-concat q full, has_proxy-same q full)

is_distinct-concat :
    (q : ℕ) (full : List ℕ)
    → is_distinct full ≡ true
    → has_proxy q full ≡ false
    → is_distinct (full ++ q ∷ []) ≡ true
unfolding has_proxy
is_distinct-concat q [] d h = refl
is_distinct-concat q (x ∷ xs) d h =
    ground (arith, is_distinct-concat q xs, has_proxy-concat x q xs, ==_iff q x, ==_iff x q)

is_distinct-append_new :
    (full ps : List ℕ) → is_distinct full ≡ true → is_distinct (append_new full ps) ≡ true
unfolding append_new
is_distinct-append_new full [] d = d
is_distinct-append_new full (q ∷ ps) d = elim (Bool-cases (has_proxy q full)) [
  | inl there ↦ rw there (is_distinct-append_new full ps d)
  | inr new ↦ rw new (is_distinct-append_new (full ++ q ∷ []) ps (is_distinct-concat q full d new))
]

abbrev Adds : (ℕ → Bool) → List ℕ → Outcome (List ℕ) → Type 0
Adds more full result =
    (found : List ℕ) × (result ≡ ok found)
    × ((p : ℕ) → has_proxy p found ≡ (has_proxy p full || more p))
    × (is_distinct full ≡ true → is_distinct found ≡ true)

add_owned-Adds :
    (path interface : Bytes) (lists : ProxyLists) (names : Names) (full : List ℕ)
    → all_counted names ≡ true
    → Adds
        (λ p. by_owned p path interface lists names)
        full
        (add_owned path interface lists names full)
unfolding add_owned
add_owned-Adds path interface lists [] full h = (full, refl, (λ p. ground arith), (λ d. d))
add_owned-Adds path interface lists (info ∷ names) full h =
    let here = or_empty (lookup_list (key_of info.name path interface) lists) in
    let (found, e, members, distinct) =
      add_owned-Adds path interface lists names (append_new full here) (ground arith) in
    (
      found,
      ground (arith, e),
      (λ p. members p ∙ rw (has_proxy-append_new p full here) (ground arith)),
      (λ d. distinct (is_distinct-append_new full here d)),
    )

-- If every name that the sender owns is watched and no proxy is registered twice for the sender, the
-- search returns, and it returns exactly the proxies that are registered for the path and the interface
-- of the signal and for its sender or a name that the sender owns, each of them once.
pub targets_iff :
    (sender : Option Bytes) (path interface : Bytes) (manager : DBusGProxyManager)
    → all_counted (owned_names sender manager) ≡ true
    → is_distinct (
        or_empty (
          lookup_list
            (key_of (string_or_empty sender) path interface)
            (or_empty manager.proxy_lists)))
      ≡ true
    → (found : List ℕ) × (targets sender path interface manager ≡ ok found)
      × ((p : ℕ) → has_proxy p found ≡ is_told p sender path interface manager)
      × (is_distinct found ≡ true)
unfolding targets
targets_iff none path interface manager h d = (_, refl, (λ p. ground arith), d)
targets_iff (some name) path interface manager h d =
    let lists = or_empty manager.proxy_lists in
    let (found, e, members, distinct) =
      add_owned-Adds path interface lists (lookup_names name (or_empty manager.owner_names))
        (or_empty (lookup_list (key_of name path interface) lists)) h in
    (found, e, members, distinct d)
