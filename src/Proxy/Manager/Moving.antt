-- ===== src/Proxy/Manager/Moving.antt =====
-- What dbus/dbus-gproxy.c makes of the watches of a name that passes from one owner to another.
use dbus_glib.Prelude.{
  ℕ, ◌≡◌, sym, ap, ◌∙◌, arith, Bool, true, false, not, ◌&&◌, none, some, [], ◌∷◌, ◌++◌, Bytes,
  str_equal, str_equal_iff, Bool-cases, Option-cases, inl, inr,
}
use dbus_glib.Outcome.{ok}
use dbus_glib.Heap.{is_some}
use dbus_glib.Proxy.Owners.{
  NameOwnerInfo, OwnerNames, lookup_names, find_name, delete_name, insert_nameinfo, drop_name,
}
use dbus_glib.Proxy.Owners.Tables.{find-append, lookup-insert}
use dbus_glib.Proxy.Owners.Watching.{watches, count}
use dbus_glib.Proxy.Owners.Lookups.{
  keys_distinct, lookup-drop_other, lookup-drop_self, lookup-insert_nameinfo_other,
  find-delete_other, find-append_other, find-named,
}
use dbus_glib.Proxy.Manager.{World}
use dbus_glib.Proxy.Manager.Signals.{take_name, replace_name_owner}

-- the name stands at most once with its old owner, and the new one does not have it
abbrev pub is_movable : Bytes → Bytes → Bytes → OwnerNames → Bool
is_movable name prev_owner new_owner t =
    keys_distinct t
    && not (str_equal prev_owner new_owner)
    && not (is_some (find_name name (delete_name name (lookup_names prev_owner t))))
    && not (is_some (find_name name (lookup_names new_owner t)))

-- the table of owners after a name has passed
abbrev moved : Bytes → Bytes → Bytes → OwnerNames → OwnerNames
moved name prev_owner new_owner t = elim (find_name name (lookup_names prev_owner t)) [
  | none ↦ t
  | some info ↦ insert_nameinfo new_owner info (drop_name prev_owner name t)
]

module _ (name prev_owner new_owner : Bytes) (t : OwnerNames)
    (h : is_movable name prev_owner new_owner t ≡ true) where
  lookup-moved_new :
      (info : NameOwnerInfo)
      → lookup_names new_owner (insert_nameinfo new_owner info (drop_name prev_owner name t))
        ≡ lookup_names new_owner t ++ info ∷ []
  unfolding insert_nameinfo
  lookup-moved_new info =
      let dropped = drop_name prev_owner name t in
      lookup-insert new_owner (lookup_names new_owner dropped ++ info ∷ []) dropped
      ∙ ap (λ ns. ns ++ info ∷ []) (lookup-drop_other prev_owner new_owner (ground arith) name t)

  lookup-moved_prev :
      (info : NameOwnerInfo)
      → lookup_names prev_owner (insert_nameinfo new_owner info (drop_name prev_owner name t))
        ≡ delete_name name (lookup_names prev_owner t)
  lookup-moved_prev info =
      lookup-insert_nameinfo_other new_owner prev_owner
        (ground (arith, str_equal_iff new_owner prev_owner, str_equal_iff prev_owner new_owner))
        info (drop_name prev_owner name t)
      ∙ lookup-drop_self prev_owner name t (ground arith)

  moved_watched :
      (info : NameOwnerInfo)
      → find_name name (lookup_names prev_owner t) ≡ some info
      → moved name prev_owner new_owner t
        ≡ insert_nameinfo new_owner info (drop_name prev_owner name t)
  moved_watched info watched = ground (arith, watched)

  moved_unwatched :
      find_name name (lookup_names prev_owner t) ≡ none → moved name prev_owner new_owner t ≡ t
  moved_unwatched unwatched = ground (arith, unwatched)

  watches-moved :
      (watches new_owner name (moved name prev_owner new_owner t) ≡ watches prev_owner name t)
      × (watches prev_owner name (moved name prev_owner new_owner t) ≡ 0)
  watches-moved = elim (Option-cases (find_name name (lookup_names prev_owner t))) [
    | inl unwatched ↦
        let same = moved_unwatched unwatched in
        (
          ap (watches new_owner name) same ∙ ground (arith, unwatched),
          ap (watches prev_owner name) same ∙ ground (arith, unwatched),
        )
    | inr (info, watched) ↦
        let is_name = find-named name (lookup_names prev_owner t) watched in
        let (found, gone) =
          find-append name (lookup_names new_owner t) info (ground arith) is_name in
        let is = moved_watched info watched in
        (
          ap (watches new_owner name) is
              ∙ ap (λ ns. count (find_name name ns)) (lookup-moved_new info)
              ∙ ap count (found ∙ sym watched),
          ap (watches prev_owner name) is
              ∙ ap (λ ns. count (find_name name ns)) (lookup-moved_prev info)
              ∙ ground arith,
        )
  ]

  -- a watch of another name
  find-moved_other :
      (owner n : Bytes) (info : NameOwnerInfo)
      → str_equal name n ≡ false
      → info.name ≡ name
      → find_name n
          (lookup_names owner (insert_nameinfo new_owner info (drop_name prev_owner name t)))
        ≡ find_name n (lookup_names owner t)
  find-moved_other owner n info apart is_name = elim (Bool-cases (str_equal new_owner owner)) [
    | inl is_new ↦ rw (sym ((str_equal_iff new_owner owner).0 is_new)) (
        ap (find_name n) (lookup-moved_new info)
        ∙ find-append_other name n apart (lookup_names new_owner t) info is_name)
    | inr not_new ↦ elim (Bool-cases (str_equal prev_owner owner)) [
      | inl is_prev ↦ rw (sym ((str_equal_iff prev_owner owner).0 is_prev)) (
          ap (find_name n) (lookup-moved_prev info)
          ∙ find-delete_other name n apart (lookup_names prev_owner t))
      | inr not_prev ↦ ap (find_name n) (
          lookup-insert_nameinfo_other new_owner owner not_new info (drop_name prev_owner name t)
          ∙ lookup-drop_other prev_owner owner not_prev name t)
    ]
  ]

  watches-moved_other :
      (owner n : Bytes)
      → str_equal name n ≡ false
      → watches owner n (moved name prev_owner new_owner t) ≡ watches owner n t
  watches-moved_other owner n apart =
      elim (Option-cases (find_name name (lookup_names prev_owner t))) [
        | inl unwatched ↦ ap (watches owner n) (moved_unwatched unwatched)
        | inr (info, watched) ↦
            ap (watches owner n) (moved_watched info watched)
            ∙ ap count (
                find-moved_other owner n info apart
                  (find-named name (lookup_names prev_owner t) watched))
      ]

-- If a name passes from one owner to another, neither of them empty, the manager moves what it knows of
-- the name: the new owner has as many watches of it as the old one had, the old one has none, and an
-- owner's watches of another name `n`, the proxies and the rest of the manager stay as they were. The
-- table has each owner once, the old owner has the name at most once, and the new one, which is another,
-- did not have it.
pub replace_name_owner-moves :
    (name : Bytes) (c d : ℕ) (prev_owner new_owner : Bytes) (w : World) (t : OwnerNames)
    (owner n : Bytes)
    → w.manager.owner_names ≡ some t
    → is_movable name (c ∷ prev_owner) (d ∷ new_owner) t ≡ true
    → str_equal name n ≡ false
    → (t' : OwnerNames) × (replace_name_owner name (c ∷ prev_owner) (d ∷ new_owner) w
        ≡ ok (record w { manager = record w.manager { owner_names = some t' } }))
      × (watches (d ∷ new_owner) name t' ≡ watches (c ∷ prev_owner) name t)
      × (watches (c ∷ prev_owner) name t' ≡ 0)
      × (watches owner n t' ≡ watches owner n t)
unfolding replace_name_owner take_name
replace_name_owner-moves name c d prev_owner new_owner w t owner n known h apart =
    let (at_new, at_prev) = watches-moved name (c ∷ prev_owner) (d ∷ new_owner) t h in
    let run : replace_name_owner name (c ∷ prev_owner) (d ∷ new_owner) w
        ≡ ok (record w {
          manager = record w.manager {
            owner_names = some (moved name (c ∷ prev_owner) (d ∷ new_owner) t);
          };
        }) =
      elim (Option-cases (find_name name (lookup_names (c ∷ prev_owner) t))) [
        | inl unwatched ↦ ground (arith, known, unwatched)
        | inr (info, watched) ↦ ground (arith, known, watched)
      ] in
    (
      moved name (c ∷ prev_owner) (d ∷ new_owner) t,
      run,
      at_new,
      at_prev,
      watches-moved_other name (c ∷ prev_owner) (d ∷ new_owner) t h owner n apart,
    )
