-- ===== src/Idl/Growth.antt =====
-- When a store has kept all that another held: every object alive, and what the lists of objects name.
use dbus_glib.Prelude.{
  ◌⊎◌, inl, inr, ℕ, ◌≡◌, refl, Bool, true, false, none, some, List, [], ◌∷◌, ◌++◌, if◌then◌else◌,
}
use dbus_glib.Heap.{Table, Live, AllLive, Keeps, AllLive-Keeps, AllLive-append}
use dbus_glib.Idl.Data.{Store}

abbrev pub args_at : Store → ℕ → List ℕ
args_at s m = elim (s.methods.cell m) [ none ↦ [] | some info ↦ info.args ]

-- The arguments of every method are alive.
abbrev pub ArgsLive : Store → Type 0
ArgsLive s = (m : ℕ) → AllLive s.args (args_at s m)

-- the lists of the other objects
abbrev pub signal_args_at : Store → ℕ → List ℕ
signal_args_at s p = elim (s.signals.cell p) [ none ↦ [] | some info ↦ info.args ]

abbrev pub methods_at : Store → ℕ → List ℕ
methods_at s p = elim (s.interfaces.cell p) [ none ↦ [] | some info ↦ info.methods ]

abbrev pub signals_at : Store → ℕ → List ℕ
signals_at s p = elim (s.interfaces.cell p) [ none ↦ [] | some info ↦ info.signals ]

abbrev pub properties_at : Store → ℕ → List ℕ
properties_at s p = elim (s.interfaces.cell p) [ none ↦ [] | some info ↦ info.properties ]

abbrev pub interfaces_at : Store → ℕ → List ℕ
interfaces_at s p = elim (s.nodes.cell p) [ none ↦ [] | some info ↦ info.interfaces ]

abbrev pub nodes_at : Store → ℕ → List ℕ
nodes_at s p = elim (s.nodes.cell p) [ none ↦ [] | some info ↦ info.nodes ]

abbrev pub AllListed : {A : Type 0} → Table A → (ℕ → List ℕ) → Type 0
AllListed t lists = (p : ℕ) → AllLive t (lists p)

-- What a signal, an interface or a node lists is alive.
pub record Linked (s : Store) : Type 0 where
  pub signal_args : AllListed s.args (signal_args_at s)
  pub methods : AllListed s.methods (methods_at s)
  pub signals : AllListed s.signals (signals_at s)
  pub properties : AllListed s.properties (properties_at s)
  pub interfaces : AllListed s.interfaces (interfaces_at s)
  pub nodes : AllListed s.nodes (nodes_at s)

-- what was alive is alive
pub record Kept (s s' : Store) : Type 0 where
  pub nodes : Keeps s.nodes s'.nodes
  pub interfaces : Keeps s.interfaces s'.interfaces
  pub methods : Keeps s.methods s'.methods
  pub signals : Keeps s.signals s'.signals
  pub properties : Keeps s.properties s'.properties
  pub args : Keeps s.args s'.args

pub record Grows (s s' : Store) : Type 0 where
  pub nodes : Keeps s.nodes s'.nodes
  pub interfaces : Keeps s.interfaces s'.interfaces
  pub methods : Keeps s.methods s'.methods
  pub signals : Keeps s.signals s'.signals
  pub properties : Keeps s.properties s'.properties
  pub args : Keeps s.args s'.args
  pub args_live : ArgsLive s → ArgsLive s'
  pub linked : Linked s → Linked s'

pub Grows-Kept :
    (s s' : Store) → Kept s s' → (ArgsLive s → ArgsLive s') → (Linked s → Linked s') → Grows s s'
Grows-Kept s s' k all linked = record {
  nodes = k.nodes;
  interfaces = k.interfaces;
  methods = k.methods;
  signals = k.signals;
  properties = k.properties;
  args = k.args;
  args_live = all;
  linked = linked;
}

pub Grows-refl : (s : Store) → Grows s s
Grows-refl s = record {
  nodes = λ p h. h;
  interfaces = λ p h. h;
  methods = λ p h. h;
  signals = λ p h. h;
  properties = λ p h. h;
  args = λ p h. h;
  args_live = λ h. h;
  linked = λ h. h;
}

pub Grows-trans : (s t u : Store) → Grows s t → Grows t u → Grows s u
Grows-trans s t u g h = record {
  nodes = λ p l. h.nodes p (g.nodes p l);
  interfaces = λ p l. h.interfaces p (g.interfaces p l);
  methods = λ p l. h.methods p (g.methods p l);
  signals = λ p l. h.signals p (g.signals p l);
  properties = λ p l. h.properties p (g.properties p l);
  args = λ p l. h.args p (g.args p l);
  args_live = λ all. h.args_live (g.args_live all);
  linked = λ all. h.linked (g.linked all);
}

-- Lists that stay the same have only to stay alive.
pub same_listed :
    {A : Type 0} (t t' : Table A) (lists lists' : ℕ → List ℕ)
    → Keeps t t'
    → ((p : ℕ) → lists' p ≡ lists p)
    → AllListed t lists
    → AllListed t' lists'
same_listed t t' lists lists' k same h p = rw (same p) (AllLive-Keeps t t' (lists p) k (h p))

-- where a list may come to be empty, and a new object may be put at the end of one
abbrev pub changed : Bool → Bool → ℕ → List ℕ → List ℕ
changed emptied longer new list =
    let left = if emptied then [] else list in if longer then left ++ new ∷ [] else left

changed-AllLive :
    {A : Type 0} (t : Table A) (emptied longer : Bool) (new : ℕ) (list : List ℕ)
    → (longer ≡ true → Live t new)
    → AllLive t list
    → AllLive t (changed emptied longer new list)
changed-AllLive t true true new list l h = (l refl, tt)
changed-AllLive t true false new list l h = tt
changed-AllLive t false true new list l h = AllLive-append t list (new ∷ []) h (l refl, tt)
changed-AllLive t false false new list l h = h

pub changed_listed :
    {A : Type 0} (t t' : Table A) (lists lists' : ℕ → List ℕ) (emptied longer : ℕ → Bool) (new : ℕ)
    → Keeps t t'
    → ((p : ℕ) → longer p ≡ true → Live t' new)
    → ((p : ℕ) → lists' p ≡ changed (emptied p) (longer p) new (lists p))
    → AllListed t lists
    → AllListed t' lists'
changed_listed t t' lists lists' emptied longer new k l same h p = rw (same p) (
    changed-AllLive t' (emptied p) (longer p) new (lists p) (l p)
      (AllLive-Keeps t t' (lists p) k (h p)))

-- Where no list of arguments changes, only the arguments have to stay alive.
pub same_args :
    (s s' : Store)
    → Keeps s.args s'.args
    → ((m : ℕ) → args_at s' m ≡ args_at s m)
    → ArgsLive s
    → ArgsLive s'
same_args s s' k same h m = rw (same m) (AllLive-Keeps s.args s'.args (args_at s m) k (h m))

-- The same where a method may also come to have none.
pub fewer_args :
    (s s' : Store)
    → Keeps s.args s'.args
    → ((m : ℕ) → (args_at s' m ≡ []) ⊎ (args_at s' m ≡ args_at s m))
    → ArgsLive s
    → ArgsLive s'
fewer_args s s' k fewer h m = go (args_at s' m) (fewer m)
  where
    go : (l : List ℕ) → (l ≡ []) ⊎ (l ≡ args_at s m) → AllLive s'.args l
    go l (inl n) = rw n tt
    go l (inr same) = rw same (AllLive-Keeps s.args s'.args (args_at s m) k (h m))
