-- ===== src/Heap.antt =====
-- A table of heap objects: addresses that are given out in order, and what lives at each.
use dbus_glib.Prelude.{
  ℕ, suc, ◌≤◌, ◌≡◌, Bool, true, false, Option, none, some, List, [], ◌∷◌, ◌++◌, ◌==◌, arith,
  if◌then◌else◌,
}
use dbus_glib.Outcome.{Outcome, ok, abort}

pub record Table (A : Type 0) : Type 0 where
  pub next : ℕ
  pub cell : ℕ → Option A

abbrev pub update : {A : Type 0} → (ℕ → Option A) → ℕ → Option A → ℕ → Option A
update f p v q = if p == q then v else f q

abbrev pub empty_table : {A : Type 0} → Table A
empty_table = record { next = 0; cell = λ p. none }

-- `g_new0`, with the fields that follow it: the new object lives at the old `next`
abbrev pub alloc : {A : Type 0} → Table A → A → Table A
alloc t v = record { next = suc t.next; cell = update t.cell t.next (some v) }

abbrev pub load : {A : Type 0} → Table A → ℕ → Outcome A
load t p = elim (t.cell p) [ none ↦ abort | some v ↦ ok v ]

-- A write through a pointer to a live object.
abbrev pub write : {A : Type 0} → Table A → ℕ → A → Table A
write t p v = record t { cell = update t.cell p (some v) }

-- `g_free`
abbrev pub release : {A : Type 0} → Table A → ℕ → Table A
release t p = record t { cell = update t.cell p none }

pub load-eq-some : {A : Type 0} (t : Table A) (p : ℕ) {v : A} → t.cell p ≡ some v → load t p ≡ ok v
load-eq-some t p h = ground arith

module _ {A : Type 0} (t : Table A) (v : A) where
  pub load-alloc_self : load (alloc t v) t.next ≡ ok v
  load-alloc_self = ground arith

  pub write-alloc : (w : A) (q : ℕ) → (write (alloc t v) t.next w).cell q ≡ (alloc t w).cell q
  write-alloc w q = ground arith

-- An object lives at `p`.
abbrev pub is_some : {A : Type 0} → Option A → Bool
is_some none = false
is_some (some v) = true

abbrev pub Live : {A : Type 0} → Table A → ℕ → Type 0
Live t p = is_some (t.cell p) ≡ true

pub Live-some : {A : Type 0} (t : Table A) (p : ℕ) → Live t p → (v : A) × (t.cell p ≡ some v)
Live-some t p h = ground arith

-- No object lives at an address that was not given out yet.
abbrev pub IsFresh : {A : Type 0} → Table A → Type 0
IsFresh t = (p : ℕ) → t.next ≤ p → t.cell p ≡ none

abbrev pub AllLive : {A : Type 0} → Table A → List ℕ → Type 0
AllLive t [] = Unit
AllLive t (p ∷ ps) = Live t p × AllLive t ps

-- Every object of `t` still lives in `u`.
abbrev pub Keeps : {A : Type 0} → Table A → Table A → Type 0
Keeps t u = (p : ℕ) → Live t p → Live u p

module _ {A : Type 0} (t : Table A) where
  pub Keeps-refl : Keeps t t
  Keeps-refl p h = h

  pub Keeps-alloc : (v : A) → Keeps t (alloc t v)
  Keeps-alloc v p h = ground arith

  pub Keeps-write : (q : ℕ) (v : A) → Keeps t (write t q v)
  Keeps-write q v p h = ground arith

  pub Live-alloc : (v : A) → Live (alloc t v) t.next
  Live-alloc v = ground arith

pub AllLive-Keeps :
    {A : Type 0} (t u : Table A) (ps : List ℕ) → Keeps t u → AllLive t ps → AllLive u ps
AllLive-Keeps t u [] k h = tt
AllLive-Keeps t u (p ∷ ps) k (h, hs) = (k p h, AllLive-Keeps t u ps k hs)

pub AllLive-append :
    {A : Type 0} (t : Table A) (ps qs : List ℕ) → AllLive t ps → AllLive t qs → AllLive t (ps ++ qs)
AllLive-append t [] qs h k = k
AllLive-append t (p ∷ ps) qs (h, hs) k = (h, AllLive-append t ps qs hs k)

-- A pointer that is NULL or leads to an object.
abbrev pub LiveIf : {A : Type 0} → Table A → Option ℕ → Type 0
LiveIf t none = Unit
LiveIf t (some p) = Live t p

pub LiveIf-Keeps : {A : Type 0} (t u : Table A) (o : Option ℕ) → Keeps t u → LiveIf t o → LiveIf u o
LiveIf-Keeps t u none k h = tt
LiveIf-Keeps t u (some p) k h = k p h
