-- ===== src/Idl/Release.antt =====
-- The last reference to a method: giving it back frees the method and the arguments that it owns.
use dbus_glib.Prelude.{
  ℕ, ◌≡◌, refl, arith, Bool, true, false, ◌&&◌, ◌||◌, Option, none, some, List, [], ◌∷◌, ◌==◌,
  if◌then◌else◌,
}
use dbus_glib.Outcome.{ok}
use dbus_glib.Heap.{Table, release, write}
use dbus_glib.Idl.Data.{Store, ArgInfo, MethodInfo, base_unref}
use dbus_glib.Idl.Members.{
  unref_arg_of_list, free_arg_list, arg_info_unref, method_info_unref, is_arg,
}

abbrev pub elem : ℕ → List ℕ → Bool
elem q [] = false
elem q (p ∷ ps) = p == q || elem q ps

-- an argument that nothing else refers to
abbrev pub only_reference : Option ArgInfo → Bool
only_reference none = false
only_reference (some info) = info.base.refcount == 1 && is_arg info.base.type

-- Arguments that are different, each alive with one reference.
abbrev pub Owned : Table ArgInfo → List ℕ → Type 0
Owned t [] = Unit
Owned t (p ∷ ps) = (only_reference (t.cell p) ≡ true) × (elem p ps ≡ false) × Owned t ps

abbrev freed : Store → ℕ → Store
freed s p = record s { args = release s.args p }

Owned-release :
    (t : Table ArgInfo) (p : ℕ) (l : List ℕ) → elem p l ≡ false → Owned t l → Owned (release t p) l
Owned-release t p [] e h = tt
Owned-release t p (q ∷ qs) e (one, once, rest) =
    (ground arith, once, Owned-release t p qs (ground arith) rest)

unref-Owned :
    (s : Store) (p : ℕ)
    → only_reference (s.args.cell p) ≡ true
    → unref_arg_of_list p s ≡ ok (freed s p)
unfolding unref_arg_of_list arg_info_unref
unref-Owned s p h = ground arith

-- the store with all of them freed
abbrev all_freed : Store → List ℕ → Store
all_freed s [] = s
all_freed s (p ∷ ps) = all_freed (freed s p) ps

free-Owned : (l : List ℕ) (s : Store) → Owned s.args l → free_arg_list l s ≡ ok (all_freed s l)
unfolding free_arg_list
free-Owned [] s h = refl
free-Owned (p ∷ ps) s (one, once, rest) =
    rw (unref-Owned s p one) (free-Owned ps (freed s p) (Owned-release s.args p ps once rest))

abbrev arg_cells : Store → List ℕ → ℕ → Option ArgInfo
arg_cells s l q = if elem q l then none else s.args.cell q

all_freed_args : (l : List ℕ) (s : Store) (q : ℕ) → (all_freed s l).args.cell q ≡ arg_cells s l q
all_freed_args [] s q = refl
all_freed_args (p ∷ ps) s q = let step = all_freed_args ps (freed s p) q in ground arith

all_freed_methods : (l : List ℕ) (s : Store) → (all_freed s l).methods ≡ s.methods
all_freed_methods [] s = refl
all_freed_methods (p ∷ ps) s = all_freed_methods ps (freed s p)

-- What is left when the last reference to the method at `p` is given back: neither the method nor
-- its arguments, and every other method and argument as it was.
abbrev pub IsReleased : Store → ℕ → MethodInfo → Store → Type 0
IsReleased s p info t =
    ((q : ℕ) → t.methods.cell q ≡ (if q == p then none else s.methods.cell q))
    × ((q : ℕ) → t.args.cell q ≡ (if elem q info.args then none else s.args.cell q))

-- Giving back the only reference to a method whose arguments are different and referred to by
-- nothing else succeeds, frees the method and each of its arguments, and frees or changes no other
-- method or argument.
pub method_info_unref_last :
    (s : Store) (p : ℕ) (info : MethodInfo)
    → s.methods.cell p ≡ some info
    → info.base.refcount ≡ 1
    → Owned s.args info.args
    → (t : Store) × (method_info_unref p s ≡ ok t) × IsReleased s p info t
unfolding method_info_unref
method_info_unref_last s p info at one owned =
    let lowered = record s {
      methods = write s.methods p (record info { base = base_unref info.base });
    } in
    let free = free-Owned info.args lowered owned in
    let kept = all_freed_methods info.args lowered in
    let freed = all_freed lowered info.args in
    (
      record freed { methods = release freed.methods p },
      ground arith,
      ((λ q. ground arith), all_freed_args info.args lowered),
    )
