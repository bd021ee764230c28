-- ===== src/Tests/Sort.antt =====
-- A concrete list sort that meets what is assumed of `g_slist_sort`: insertion, stable.
use Prim.Native.Nat.{Ordering, compare}
use mathlib.Core.List.{Perm, Mem, mem-cons_self, mem-cons_of_mem}
use mathlib.Core.List.Perm
use dbus_glib.Prelude.{
  ℕ, ◌≡◌, refl, ap, ◌∙◌, arith, Bool, true, false, List, [], ◌∷◌, if◌then◌else◌, Bool-cases, inl,
  inr,
}
use dbus_glib.Idl.Sorting.{SortLaws, with_key, IsSortedBy}

abbrev is_gt : Ordering → Bool
is_gt Ordering.gt = true
is_gt _ = false

abbrev insert : (ℕ → ℕ → Ordering) → ℕ → List ℕ → List ℕ
insert cmp x [] = x ∷ []
insert cmp x (y ∷ ys) = if is_gt (cmp x y) then y ∷ insert cmp x ys else x ∷ y ∷ ys

abbrev pub insertion_sort : (ℕ → ℕ → Ordering) → List ℕ → List ℕ
insertion_sort cmp [] = []
insertion_sort cmp (x ∷ xs) = insert cmp x (insertion_sort cmp xs)

insert-perm : (cmp : ℕ → ℕ → Ordering) (x : ℕ) (l : List ℕ) → Perm (insert cmp x l) (x ∷ l)
insert-perm cmp x [] = Perm.refl (x ∷ [])
insert-perm cmp x (y ∷ ys) = elim (Bool-cases (is_gt (cmp x y))) [
  | inl g ↦ rw g (Perm.trans (Perm.cons y (insert-perm cmp x ys)) (Perm.swap x y ys))
  | inr n ↦ rw n (Perm.refl (x ∷ y ∷ ys))
]

sort-perm : (cmp : ℕ → ℕ → Ordering) (l : List ℕ) → Perm (insertion_sort cmp l) l
sort-perm cmp [] = Perm.refl []
sort-perm cmp (x ∷ xs) =
    Perm.trans (insert-perm cmp x (insertion_sort cmp xs)) (Perm.cons x (sort-perm cmp xs))

-- Two comparisons that agree on the items insert alike.
insert_agree :
    (cmp cmp' : ℕ → ℕ → Ordering) (x : ℕ) (l : List ℕ)
    → ((b : ℕ) → Mem b l → cmp x b ≡ cmp' x b)
    → insert cmp x l ≡ insert cmp' x l
insert_agree cmp cmp' x [] h = refl
insert_agree cmp cmp' x (y ∷ ys) h =
    rw (h y mem-cons_self, insert_agree cmp cmp' x ys (λ b m. h b (mem-cons_of_mem y m)))

sort_agree :
    (cmp cmp' : ℕ → ℕ → Ordering) (l : List ℕ)
    → ((a b : ℕ) → Mem a l → Mem b l → cmp a b ≡ cmp' a b)
    → insertion_sort cmp l ≡ insertion_sort cmp' l
sort_agree cmp cmp' [] h = refl
sort_agree cmp cmp' (x ∷ xs) h =
    insert_agree cmp cmp' x (insertion_sort cmp xs)
      (λ b m. h x b mem-cons_self (mem-cons_of_mem x ((Perm.mem_iff (sort-perm cmp xs)).0 m)))
    ∙ ap (insert cmp' x)
        (sort_agree cmp cmp' xs (λ a b ma mb. h a b (mem-cons_of_mem x ma) (mem-cons_of_mem x mb)))

module _ (key : ℕ → ℕ) where
  abbrev by_key : ℕ → ℕ → Ordering
  by_key a b = compare (key a) (key b)

  insert_sorted : (x : ℕ) (l : List ℕ) → IsSortedBy key l → IsSortedBy key (insert by_key x l)
  insert_sorted x [] h = tt
  insert_sorted x (y ∷ []) h = ground arith
  insert_sorted x (y ∷ z ∷ r) h = ground (arith, insert_sorted x (z ∷ r) h.1)

  sort_sorted : (l : List ℕ) → IsSortedBy key (insertion_sort by_key l)
  sort_sorted [] = tt
  sort_sorted (x ∷ xs) = insert_sorted x (insertion_sort by_key xs) (sort_sorted xs)

  insert_stable :
      (k x : ℕ) (l : List ℕ) → with_key key k (insert by_key x l) ≡ with_key key k (x ∷ l)
  insert_stable k x [] = refl
  insert_stable k x (y ∷ ys) = ground (arith, insert_stable k x ys)

  sort_stable : (k : ℕ) (l : List ℕ) → with_key key k (insertion_sort by_key l) ≡ with_key key k l
  sort_stable k [] = refl
  sort_stable k (x ∷ xs) =
      insert_stable k x (insertion_sort by_key xs) ∙ ground (arith, sort_stable k xs)

pub insertion_sort_laws : SortLaws insertion_sort
insertion_sort_laws = record {
  perm = sort-perm;
  sorted =
      λ cmp key l h. rw (sort_agree cmp (λ a b. compare (key a) (key b)) l h) (sort_sorted key l);
  stable = λ cmp key l h k.
      rw (sort_agree cmp (λ a b. compare (key a) (key b)) l h) (sort_stable key k l);
}
