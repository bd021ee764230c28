-- ===== src/Idl/Order.antt =====
-- `method_info_add_arg` keeps the "in" arguments before the "out" ones, and each of the two groups in
-- the order in which its arguments were added.
use Prim.Native.Nat.{Ordering, compare}
use mathlib.Core.List.{Mem, not-mem-nil, mem-cons}
use mathlib.Core.Logic.Or
use dbus_glib.Prelude.{
  ℕ, ◌≤◌, ◌≡◌, ◌≢◌, refl, ap, fun_ext, ◌∙◌, arith, Bool, true, false, some, List, [], ◌∷◌, ◌++◌,
  ◌==◌, if◌then◌else◌, Bool-cases, inl, inr,
}
use dbus_glib.Outcome.{ok}
use dbus_glib.Heap.{Live, Live-some, write}
use dbus_glib.Idl.Data.{Store, ArgInfo, ArgDirection, arg_invalid, arg_in, arg_out, base_ref}
use dbus_glib.Idl.Members.{args_sort_by_direction, direction_at, method_info_add_arg, is_in}
use dbus_glib.Idl.Growth.{args_at}
use dbus_glib.Idl.Sorting.{SortLaws, with_key, ComparesBy, IsSortedBy}

-- 0 for "in", 1 for any other direction
abbrev pub direction_key : ArgDirection → ℕ
direction_key d = if is_in d then 0 else 1

abbrev pub key_at : Store → ℕ → ℕ
key_at s a = direction_key (direction_at s a)

abbrev pub is_valid : ArgDirection → Bool
is_valid arg_invalid = false
is_valid _ = true

-- Every address leads to an argument that is "in" or "out".
abbrev pub AllValid : Store → List ℕ → Type 0
AllValid s [] = Unit
AllValid s (a ∷ as') = (is_valid (direction_at s a) ≡ true) × AllValid s as'

compares :
    (d e : ArgDirection)
    → is_valid d ≡ true
    → is_valid e ≡ true
    → args_sort_by_direction d e ≡ compare (direction_key d) (direction_key e)
unfolding args_sort_by_direction
compares arg_in arg_in h k = refl
compares arg_in arg_out h k = refl
compares arg_out arg_in h k = refl
compares arg_out arg_out h k = refl
compares arg_invalid _ h k = cc
compares d arg_invalid h k = cc

Bool-set : IsSet Bool
Bool-set = hlevel

valid_of_mem :
    (s : Store) (l : List ℕ) (a : ℕ) → AllValid s l → Mem a l → is_valid (direction_at s a) ≡ true
valid_of_mem s [] a h m = absurd (not-mem-nil m)
valid_of_mem s (x ∷ xs) a (h, hs) m =
    Or.elim (Bool-set _ _) (mem-cons.0 m) (λ e. rw e h) (valid_of_mem s xs a hs)

-- the keys are 0 and 1 only
key_le : (s : Store) (a : ℕ) → key_at s a ≤ 1
key_le s a = ground arith

above :
    (key : ℕ → ℕ) (x : ℕ) (l : List ℕ)
    → IsSortedBy key (x ∷ l)
    → ((a : ℕ) → key a ≤ 1)
    → key x ≡ 1
    → (with_key key 0 l ≡ []) × (with_key key 1 l ≡ l)
above key x [] so b e = (refl, refl)
above key x (y ∷ r) so b e =
    let ey : key y ≡ 1 = omega (arith, b y) in
    let ih = above key y r so.1 b ey in (ground arith, ground arith)

-- A sorted list is its items of key 0, and then those of key 1.
split_by_key :
    (key : ℕ → ℕ) (l : List ℕ)
    → IsSortedBy key l
    → ((a : ℕ) → key a ≤ 1)
    → l ≡ with_key key 0 l ++ with_key key 1 l
split_by_key key [] so b = refl
split_by_key key (x ∷ []) so b = ground (arith, b x)
split_by_key key (x ∷ y ∷ r) so b = elim (Bool-cases (key x == 0)) [
  | inl z ↦ ground (arith, split_by_key key (y ∷ r) so.1 b)
  | inr o ↦
      let e : key x ≡ 1 = ground (arith, b x) in
      let (no_zero, all_one) = above key x (y ∷ r) so b e in ground (arith, no_zero, all_one)
]

-- The addresses of one direction, in order.
abbrev pub ins : Store → List ℕ → List ℕ
ins s l = with_key (key_at s) 0 l

abbrev pub outs : Store → List ℕ → List ℕ
outs s l = with_key (key_at s) 1 l

-- The sort by direction, over a store in which all directions are those of `s`.
sort_by_direction :
    (sort : (ℕ → ℕ → Ordering) → List ℕ → List ℕ) (s s1 : Store) (l : List ℕ)
    → SortLaws sort
    → AllValid s l
    → ((a : ℕ) → direction_at s1 a ≡ direction_at s a)
    → sort (λ a b. args_sort_by_direction (direction_at s1 a) (direction_at s1 b)) l
      ≡ ins s l ++ outs s l
sort_by_direction sort s s1 l laws valid same =
    let cmp : ℕ → ℕ → Ordering =
      λ a b. args_sort_by_direction (direction_at s1 a) (direction_at s1 b) in
    let by_key : ComparesBy cmp (key_at s) l = λ a b ma mb.
      rw (same a, same b)
        (compares (direction_at s a) (direction_at s b) (valid_of_mem s l a valid ma)
          (valid_of_mem s l b valid mb)) in
    split_by_key (key_at s) (sort cmp l) (laws.sorted cmp (key_at s) l by_key) (key_le s)
    ∙ ap (λ (f : ℕ → List ℕ). f 0 ++ f 1) (fun_ext (laws.stable cmp (key_at s) l by_key))

module _ (sort : (ℕ → ℕ → Ordering) → List ℕ → List ℕ) (p arg : ℕ) (s : Store) where
  -- the store once the reference to the argument was taken
  abbrev referenced : ArgInfo → Store
  referenced info = record s { args = write s.args arg (record info { base = base_ref info.base }) }

  args_at-add :
      {s' : Store} (info : ArgInfo)
      → s.args.cell arg ≡ some info
      → method_info_add_arg sort p arg s ≡ ok s'
      → args_at s' p
        ≡ sort
            (λ a b.
              args_sort_by_direction
                (direction_at (referenced info) a)
                (direction_at (referenced info) b))
            (args_at s p ++ arg ∷ [])
  unfolding method_info_add_arg
  args_at-add info e h = ground arith

  others-add :
      {s' : Store}
      → method_info_add_arg sort p arg s ≡ ok s'
      → (m : ℕ) → p ≢ m
      → args_at s' m ≡ args_at s m
  unfolding method_info_add_arg
  others-add h m ne = ground arith

  arg-Live : {s' : Store} → method_info_add_arg sort p arg s ≡ ok s' → Live s.args arg
  unfolding method_info_add_arg
  arg-Live h = ground arith

  -- After `method_info_add_arg` the arguments of the method are those it had and the new one: first the
  -- "in" ones, then the "out" ones, each of the two in the order in which they stood, the new one
  -- last. Those of other methods are as they were. This holds where each of the arguments is "in" or
  -- "out", and if `g_slist_sort` is a stable sort.
  pub method_info_add_arg_order :
      {s' : Store}
      → SortLaws sort
      → AllValid s (args_at s p ++ arg ∷ [])
      → method_info_add_arg sort p arg s ≡ ok s'
      → (m : ℕ)
      → args_at s' m ≡ (
          if m == p
          then ins s (args_at s p ++ arg ∷ []) ++ outs s (args_at s p ++ arg ∷ [])
          else args_at s m)
  method_info_add_arg_order laws valid h m =
      let (info, e) = Live-some s.args arg (arg-Live h) in
      let here =
        args_at-add info e h
        ∙ sort_by_direction sort s (referenced info) (args_at s p ++ arg ∷ []) laws valid
            (λ a. ground arith) in
      let elsewhere = others-add h m in ground arith
