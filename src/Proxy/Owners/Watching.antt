-- ===== src/Proxy/Owners/Watching.antt =====
-- Watching the owner of a name, and giving the watch up again.
use dbus_glib.Prelude.{
  ℕ, ◌+◌, ◌-◌, ◌%◌, ◌^◌, ◌≡◌, refl, ap, ◌∙◌, arith, true, Option, none, some, [], ◌∷◌, ◌++◌, ◌==◌,
  Bytes, if◌then◌else◌,
}
use dbus_glib.Outcome.{ok}
use dbus_glib.Proxy.Owners.{
  NameOwnerInfo, Names, OwnerNames, lookup_names, insert_names, insert_nameinfo, find_name,
  write_info, lookup_name_owner, monitor_name_owner, unmonitor_name_owner, drop_name,
}
use dbus_glib.Proxy.Owners.Tables.{
  counts, tracked, find-append, write-append, find-write, lookup-insert, insert-insert,
  insert-lookup, remove-insert, some_not_nil, lookup_name_owner-insert,
}

tracked-counts :
    (owner name : Bytes) (t : OwnerNames)
    → tracked owner name t ≡ true
    → counts (find_name name (lookup_names owner t)) ≡ true
unfolding lookup_names
tracked-counts owner name [] h = unfold find_name in refl
tracked-counts owner name ((key, names) ∷ t) h =
    let rest = tracked-counts owner name t in ground arith

-- giving a watch up in a table whose list for the owner is `n`
unmonitor-insert :
    (owner name : Bytes) (n : Names) (t : OwnerNames) {i : NameOwnerInfo}
    → tracked owner name t ≡ true
    → find_name name n ≡ some i
    → (let lowered = record i { refcount = (i.refcount + 2 ^ 32 - 1) % 2 ^ 32 } in
        let written = insert_names owner (write_info lowered n) t in
        unmonitor_name_owner name (insert_names owner n t)
        ≡ (if lowered.refcount == 0 then ok (drop_name owner name written) else ok written))
unfolding unmonitor_name_owner
unmonitor-insert owner name n t {i} h f = rw (lookup_name_owner-insert owner name n t h f) (
    rw (lookup-insert owner n t) (
      rw
        (insert-insert owner
          (write_info (record i { refcount = (i.refcount + 2 ^ 32 - 1) % 2 ^ 32 }) n) n t)
        refl))

-- the list of an owner, and the one whose last link is the name that goes
drop-insert :
    (owner name : Bytes) (t : OwnerNames) (last : NameOwnerInfo)
    → tracked owner name t ≡ true
    → find_name name (lookup_names owner t) ≡ none
    → last.name ≡ name
    → drop_name owner name (insert_names owner (lookup_names owner t ++ last ∷ []) t) ≡ t
drop-insert owner name t last h f e =
    let names = lookup_names owner t in
    let (found, gone) = find-append name names last f e in
    let listed = lookup-insert owner (names ++ last ∷ []) t in
    let removed = remove-insert owner name (names ++ last ∷ []) t h in
    let back = insert-lookup owner t in
    let again = insert-insert owner names (names ++ last ∷ []) t in ground arith

-- how many watch `name` as one that `owner` has
abbrev pub count : Option NameOwnerInfo → ℕ
count none = 0
count (some info) = info.refcount

abbrev pub watches : Bytes → Bytes → OwnerNames → ℕ
watches owner name owner_names = count (find_name name (lookup_names owner owner_names))

abbrev pub named : Bytes → ℕ → NameOwnerInfo
named name refcount = record { name = name; refcount = refcount }

monitor_first :
    (owner name : Bytes) (t : OwnerNames)
    → find_name name (lookup_names owner t) ≡ none
    → monitor_name_owner owner name t
      ≡ insert_names owner (lookup_names owner t ++ named name 1 ∷ []) t
unfolding monitor_name_owner insert_nameinfo
monitor_first owner name t f = ground arith

monitor_more :
    (owner name : Bytes) (t : OwnerNames) {i : NameOwnerInfo}
    → find_name name (lookup_names owner t) ≡ some i
    → monitor_name_owner owner name t
      ≡ insert_names owner
          (write_info (record i { refcount = (i.refcount + 1) % 2 ^ 32 }) (lookup_names owner t))
          t
unfolding monitor_name_owner
monitor_more owner name t f = ground arith

unmonitor_first :
    (owner name : Bytes) (t : OwnerNames)
    → tracked owner name t ≡ true
    → find_name name (lookup_names owner t) ≡ none
    → unmonitor_name_owner name (monitor_name_owner owner name t) ≡ ok t
unmonitor_first owner name t h f =
    let names = lookup_names owner t in
    let (found, gone) = find-append name names (named name 1) f refl in
    ap (unmonitor_name_owner name) (monitor_first owner name t f)
    ∙ unmonitor-insert owner name (names ++ named name 1 ∷ []) t h found
    ∙ ap ok (
        ap (λ n. drop_name owner name (insert_names owner n t))
          (write-append name names (named name 1) (named name 0) f refl refl)
        ∙ drop-insert owner name t (named name 0) h f refl)

lowered_raised :
    (i : NameOwnerInfo)
    → counts (some i) ≡ true
    → record i { refcount = ((i.refcount + 1) % 2 ^ 32 + 2 ^ 32 - 1) % 2 ^ 32 } ≡ i
lowered_raised i h = ap (λ n. record i { refcount = n }) (ground arith)

-- what `unmonitor_name_owner` makes of a count that does not reach 0
kept :
    (owner name : Bytes) (t : OwnerNames) (names raised : Names) {i lowered : NameOwnerInfo}
    → lowered ≡ i
    → counts (some i) ≡ true
    → write_info i raised ≡ names
    → insert_names owner names t ≡ t
    → (let written = insert_names owner (write_info lowered raised) t in
        (if lowered.refcount == 0 then ok (drop_name owner name written) else ok written) ≡ ok t)
kept owner name t names raised e h w same = rw (e, w, same) (ground arith)

unmonitor_more :
    (owner name : Bytes) (t : OwnerNames) {i : NameOwnerInfo}
    → tracked owner name t ≡ true
    → find_name name (lookup_names owner t) ≡ some i
    → unmonitor_name_owner name (monitor_name_owner owner name t) ≡ ok t
unmonitor_more owner name t {i} h f =
    let names = lookup_names owner t in
    let raised : NameOwnerInfo = record i { refcount = (i.refcount + 1) % 2 ^ 32 } in
    let (found, back, is_name) = find-write name names i raised f refl in
    let run = unmonitor-insert owner name (write_info raised names) t h found in
    let fits = rw f at (tracked-counts owner name t h) in
    let lowered = lowered_raised i fits in
    let same = insert-lookup owner t (some_not_nil name names f) in
    ap (unmonitor_name_owner name) (monitor_more owner name t f)
    ∙ run
    ∙ kept owner name t names (write_info raised names) lowered fits back same

-- whether the name is watched already or not
unmonitor_either :
    (owner name : Bytes) (t : OwnerNames) (watched : Option NameOwnerInfo)
    → find_name name (lookup_names owner t) ≡ watched
    → tracked owner name t ≡ true
    → unmonitor_name_owner name (monitor_name_owner owner name t) ≡ ok t
unmonitor_either owner name t none f h = unmonitor_first owner name t h f
unmonitor_either owner name t (some info) f h = unmonitor_more owner name t h f

lookup_either :
    (owner name : Bytes) (t : OwnerNames) (watched : Option NameOwnerInfo)
    → find_name name (lookup_names owner t) ≡ watched
    → tracked owner name t ≡ true
    → lookup_name_owner name (monitor_name_owner owner name t)
      ≡ ok (some (named name (count watched + 1)), some owner)
lookup_either owner name t none f h =
    let (found, gone) = find-append name (lookup_names owner t) (named name 1) f refl in
    ap (lookup_name_owner name) (monitor_first owner name t f)
    ∙ lookup_name_owner-insert owner name (lookup_names owner t ++ named name 1 ∷ []) t h found
lookup_either owner name t (some i) f h =
    let names = lookup_names owner t in
    let raised : NameOwnerInfo = record i { refcount = (i.refcount + 1) % 2 ^ 32 } in
    let (found, back, is_name) = find-write name names i raised f refl in
    let fits = rw f at (tracked-counts owner name t h) in
    let small : (i.refcount + 1) % 2 ^ 32 ≡ i.refcount + 1 = ground arith in
    ap (lookup_name_owner name) (monitor_more owner name t f)
    ∙ lookup_name_owner-insert owner name (write_info raised names) t h found
    ∙ rw (is_name, small) refl

-- After the owner of a name is watched, a search for the name finds that owner, and the number of
-- watches is one more than it was, 0 if the owner did not have the name in the table. This holds under
-- the condition that the name is at most `owner`'s in the table, every owner there has a name, and
-- its count is neither 0 nor about to pass the largest `guint`.
pub lookup_name_owner-monitor_name_owner :
    (owner name : Bytes) (owner_names : OwnerNames)
    → tracked owner name owner_names ≡ true
    → lookup_name_owner name (monitor_name_owner owner name owner_names)
      ≡ ok (some (named name (watches owner name owner_names + 1)), some owner)
lookup_name_owner-monitor_name_owner owner name t h =
    lookup_either owner name t (find_name name (lookup_names owner t)) refl h

-- Watching the owner of a name and giving that watch up leaves `owner_names` as it was, with the same
-- counts, the same names for each owner and the same owners. This holds where every owner in the
-- table has a name, `owner` alone may have this one, and its count is neither 0 nor about to pass
-- the largest `guint`.
pub unmonitor_name_owner-monitor_name_owner :
    (owner name : Bytes) (owner_names : OwnerNames)
    → tracked owner name owner_names ≡ true
    → unmonitor_name_owner name (monitor_name_owner owner name owner_names) ≡ ok owner_names
unmonitor_name_owner-monitor_name_owner owner name t h =
    unmonitor_either owner name t (find_name name (lookup_names owner t)) refl h
