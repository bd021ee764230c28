-- ===== src/Tests/Proxy.antt =====
-- Runs of dbus/dbus-gproxy.c, and its theorems at concrete inputs.
use dbus_glib.Prelude.{
  ℕ, ◌+◌, ◌*◌, ◌≡◌, refl, true, false, ◌&&◌, some, [], ◌∷◌, ◌++◌, Bytes, codes, has_char, str_equal,
}
use dbus_glib.Outcome.{ok, abort, ◌>>=◌}
use dbus_glib.Proxy.Tristring.{tristring_equal, tristring_hash, tristring_alloc_from_strings}
use dbus_glib.Proxy.Tristring.Laws.{tristring_equal-alloc}
use dbus_glib.Proxy.Tristring.Hash.{tristring_equal-tristring_hash}
use dbus_glib.Proxy.Owners.{OwnerNames, lookup_name_owner, monitor_name_owner, unmonitor_name_owner}
use dbus_glib.Proxy.Owners.Tables.{tracked}
use dbus_glib.Proxy.Owners.Watching.{
  named, watches, lookup_name_owner-monitor_name_owner, unmonitor_name_owner-monitor_name_owner,
}

abbrev key : Bytes
key = codes "b" ++ 0 ∷ codes "/p" ++ 0 ∷ codes "i" ++ 0 ∷ []

tristring_runs :
    (tristring_alloc_from_strings [] (some (codes "b")) (codes "/p") (codes "i") ≡ ok key)
    × (tristring_equal key (key ++ 7 ∷ []) ≡ ok true)
    × (tristring_equal key (codes "b") ≡ abort)
    × (tristring_hash (0 ∷ 0 ∷ 97 ∷ 98 ∷ 0 ∷ []) ≡ ok (97 * 31 + 98))
unfolding tristring_alloc_from_strings tristring_equal tristring_hash
tristring_runs = (refl, refl, refl, refl)

no_nul :
    (has_char 0 (codes "b") ≡ false)
    × (has_char 0 (codes "/p") ≡ false)
    × (has_char 0 (codes "i") ≡ false)
unfolding has_char
no_nul = (refl, refl, refl)

tristring_equal-alloc_example :
    (do
      a ← tristring_alloc_from_strings [] (some (codes "b")) (codes "/p") (codes "i")
      b ← tristring_alloc_from_strings [] (some (codes "b")) (codes "i") (codes "/p")
      tristring_equal a b)
    ≡ ok (
        str_equal (codes "b") (codes "b")
        && str_equal (codes "/p") (codes "i")
        && str_equal (codes "i") (codes "/p"))
tristring_equal-alloc_example =
    tristring_equal-alloc (some (codes "b")) (some (codes "b")) (codes "/p") (codes "i") (codes "i")
      (codes "/p") no_nul (no_nul.0, no_nul.2, no_nul.1)

tristring_hash_example :
    (h : ℕ) × (tristring_hash key ≡ ok h) × (tristring_hash (key ++ 7 ∷ []) ≡ ok h)
tristring_hash_example = tristring_equal-tristring_hash key (key ++ 7 ∷ []) (tristring_runs.1)

-- One owner with two names, and another with one.
abbrev owners : OwnerNames
owners =
    (codes ":1.2", named (codes "com.a") 3 ∷ named (codes "com.b") 1 ∷ [])
    ∷ (codes ":1.5", named (codes "com.c") 1 ∷ [])
    ∷ []

owners-tracked :
    (tracked (codes ":1.2") (codes "com.b") owners ≡ true)
    × (tracked (codes ":1.9") (codes "com.d") owners ≡ true)
unfolding str_equal unmonitor_name_owner
owners-tracked = (refl, refl)

unwatched : unmonitor_name_owner (codes "com.x") owners ≡ abort
unfolding str_equal unmonitor_name_owner
unwatched = refl

lookup_monitor_example :
    lookup_name_owner (codes "com.b") (monitor_name_owner (codes ":1.2") (codes "com.b") owners)
    ≡ ok (
      some (named (codes "com.b") (watches (codes ":1.2") (codes "com.b") owners + 1)),
      some (codes ":1.2"),
    )
lookup_monitor_example =
    lookup_name_owner-monitor_name_owner (codes ":1.2") (codes "com.b") owners owners-tracked.0

unmonitor_monitor_example :
    unmonitor_name_owner (codes "com.d") (monitor_name_owner (codes ":1.9") (codes "com.d") owners)
    ≡ ok owners
unmonitor_monitor_example =
    unmonitor_name_owner-monitor_name_owner (codes ":1.9") (codes "com.d") owners owners-tracked.1
