-- ===== src/Idl/Sorting.antt =====
-- What is known of `g_slist_sort`, which is GLib's: it gives back the items of the list; by a
-- comparison that is that of a number for each item, they come in the order of the numbers, and
-- items of one number in the order in which they stood ("stable").
use Prim.Native.Nat.{Ordering, compare}
use mathlib.Core.List.{Perm, Mem, not-mem-nil, mem-cons, mem-cons_self, mem-cons_of_mem}
use mathlib.Core.Logic.Or
use mathlib.Core.List.Perm
use dbus_glib.Prelude.{ℕ, ◌≤◌, ◌≡◌, List, [], ◌∷◌, ◌==◌, Bool, if◌then◌else◌}
use dbus_glib.Heap.{Table, Live, AllLive}

-- The items of a number, in order.
abbrev pub with_key : (ℕ → ℕ) → ℕ → List ℕ → List ℕ
with_key key k [] = []
with_key key k (x ∷ xs) = if key x == k then x ∷ with_key key k xs else with_key key k xs

abbrev pub ComparesBy : (ℕ → ℕ → Ordering) → (ℕ → ℕ) → List ℕ → Type 0
ComparesBy cmp key l = (a b : ℕ) → Mem a l → Mem b l → cmp a b ≡ compare (key a) (key b)

abbrev pub IsSortedBy : (ℕ → ℕ) → List ℕ → Type 0
IsSortedBy key [] = Unit
IsSortedBy key (x ∷ []) = Unit
IsSortedBy key (x ∷ y ∷ r) = (key x ≤ key y) × IsSortedBy key (y ∷ r)

pub record SortLaws (slist_sort : (ℕ → ℕ → Ordering) → List ℕ → List ℕ) : Type 0 where
  pub perm : (cmp : ℕ → ℕ → Ordering) (l : List ℕ) → Perm (slist_sort cmp l) l
  pub sorted :
      (cmp : ℕ → ℕ → Ordering) (key : ℕ → ℕ) (l : List ℕ)
      → ComparesBy cmp key l
      → IsSortedBy key (slist_sort cmp l)
  pub stable :
      (cmp : ℕ → ℕ → Ordering) (key : ℕ → ℕ) (l : List ℕ)
      → ComparesBy cmp key l
      → (k : ℕ) → with_key key k (slist_sort cmp l) ≡ with_key key k l

Bool-set : IsSet Bool
Bool-set = hlevel

Mem-Live : {A : Type 0} (t : Table A) (l : List ℕ) → AllLive t l → (p : ℕ) → Mem p l → Live t p
Mem-Live t [] h p m = absurd (not-mem-nil m)
Mem-Live t (x ∷ xs) (h, hs) p m =
    Or.elim (Bool-set _ _) (mem-cons.0 m) (λ e. rw e h) (Mem-Live t xs hs p)

AllLive-of_Mem :
    {A : Type 0} (t : Table A) (l : List ℕ) → ((p : ℕ) → Mem p l → Live t p) → AllLive t l
AllLive-of_Mem t [] h = tt
AllLive-of_Mem t (x ∷ xs) h =
    (h x mem-cons_self, AllLive-of_Mem t xs (λ p m. h p (mem-cons_of_mem x m)))

pub AllLive-perm :
    {A : Type 0} (t : Table A) (l l' : List ℕ) → Perm l' l → AllLive t l → AllLive t l'
AllLive-perm t l l' e h = AllLive-of_Mem t l' (λ p m. Mem-Live t l h p ((Perm.mem_iff e).0 m))
