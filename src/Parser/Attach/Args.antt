-- ===== src/Parser/Attach/Args.antt =====
-- Attaching an argument, and an annotation: every object stays alive, and nothing stops.
use Prim.Native.Nat.{Ordering}
use dbus_glib.Prelude.{
  ℕ, ◌≡◌, ◌≢◌, refl, arith, true, false, ◌||◌, Option, none, some, List, [], ◌∷◌, ◌++◌, Bytes, ◌==◌,
  if◌then◌else◌, inl, inr, Bool-cases,
}
use dbus_glib.Outcome.{GError, ok, err, abort, Returns, Returns-of}
use dbus_glib.Heap.{
  is_some, Live, AllLive, Keeps, Live-some, Keeps-alloc, Keeps-write, Live-alloc, AllLive-Keeps,
  AllLive-append, LiveIf, alloc, write,
}
use dbus_glib.Idl.Data.{Store, ArgInfo, ArgDirection, arg_out, base_ref, new_base, info_type_arg}
use dbus_glib.Idl.Members.{directions_of, method_info_add_arg, direction_at, args_sort_by_direction}
use dbus_glib.Idl.Growth.{
  Grows, Kept, Grows-Kept, same_args, ArgsLive, args_at, same_listed, changed_listed,
  signal_args_at, methods_at, signals_at, properties_at, interfaces_at, nodes_at,
}
use dbus_glib.Idl.Sorting.{SortLaws, AllLive-perm}
use dbus_glib.Parser.Attach.{attach_arg, add_annotation}

directions_of-ne-abort : (l : List ℕ) (s : Store) → AllLive s.args l → directions_of l s ≢ abort
unfolding directions_of
directions_of-ne-abort [] s h = λ z. cc
directions_of-ne-abort (p ∷ ps) s (h, hs) = ground (arith, directions_of-ne-abort ps s hs)

directions_of-ne-err : (l : List ℕ) (s : Store) (e : GError) → directions_of l s ≢ err e
unfolding directions_of
directions_of-ne-err [] s e = λ z. cc
directions_of-ne-err (p ∷ ps) s e = ground (arith, directions_of-ne-err ps s e)

-- the store once the reference to the argument was taken
with_ref : Store → ℕ → ArgInfo → Store
with_ref s arg info = record s {
  args = write s.args arg (record info { base = base_ref info.base });
}

module _ (sort : (ℕ → ℕ → Ordering) → List ℕ → List ℕ) (p arg : ℕ) (s : Store) where
  add_arg-ne-abort :
      Live s.args arg
      → Live s.methods p
      → AllLive s.args (args_at s p)
      → method_info_add_arg sort p arg s ≢ abort
  unfolding method_info_add_arg with_ref
  add_arg-ne-abort l m all =
      let (info, e) = Live-some s.args arg l in
      let s1 = with_ref s arg info in
      let k : Keeps s.args s1.args = Keeps-write s.args arg _ in
      ground (
        arith,
        directions_of-ne-abort (args_at s p ++ arg ∷ []) s1 (
            AllLive-append s1.args (args_at s p) (arg ∷ [])
              (AllLive-Keeps s.args s1.args (args_at s p) k all) (k arg l, tt)),
      )

  -- the order in which the arguments are put back
  by_direction : ArgInfo → ℕ → ℕ → Ordering
  by_direction info a b =
      args_sort_by_direction (direction_at (with_ref s arg info) a)
        (direction_at (with_ref s arg info) b)

  add_arg-args_at :
      {s' : Store}
      → method_info_add_arg sort p arg s ≡ ok s'
      → (info : ArgInfo) × (s.args.cell arg ≡ some info)
        × ((m : ℕ)
            → args_at s' m ≡ (
                if p == m then sort (by_direction info) (args_at s p ++ arg ∷ []) else args_at s m))
  unfolding method_info_add_arg with_ref by_direction
  add_arg-args_at h =
      let live : Live s.args arg = ground arith in
      let (info, e) = Live-some s.args arg live in (info, e, λ m. ground arith)

module _ (sort : (ℕ → ℕ → Ordering) → List ℕ → List ℕ) (laws : SortLaws sort) (name type : Bytes)
    (dir : ArgDirection) (s : Store) where
  -- the argument as it is made, and the store with it
  abbrev fresh_arg : ArgInfo
  fresh_arg = record {
    base = new_base info_type_arg (some name);
    type = type;
    direction = dir;
    annotations = [];
  }

  abbrev with_arg : Store
  with_arg = record s { args = alloc s.args fresh_arg }

  method_arg-ne-abort :
      (p : ℕ) (signal : Option ℕ)
      → Live s.methods p
      → ArgsLive s
      → attach_arg sort (some p) signal name dir type s ≢ abort
  unfolding attach_arg
  method_arg-ne-abort p signal l all =
      let k : Keeps s.args with_arg.args = Keeps-alloc s.args fresh_arg in
      ground (
        arith,
        add_arg-ne-abort sort p s.args.next with_arg (Live-alloc s.args fresh_arg) l
            (AllLive-Keeps s.args with_arg.args (args_at s p) k (all p)),
      )

  signal_arg-ne-abort :
      (p : ℕ)
      → Live s.signals p
      → dir ≡ arg_out
      → attach_arg sort none (some p) name dir type s ≢ abort
  unfolding attach_arg
  signal_arg-ne-abort p l e = ground arith

  signal_arg-Grows :
      (p : ℕ) {i : ℕ} {s' : Store}
      → attach_arg sort none (some p) name dir type s ≡ ok (i, s')
      → Grows s s' × Live s'.args i
  unfolding attach_arg
  signal_arg-Grows p {i} {s'} h = (
    (let kept : Kept s s' = record {
      nodes = λ p l. ground arith;
      interfaces = λ p l. ground arith;
      methods = λ p l. ground arith;
      signals = λ p l. ground arith;
      properties = λ p l. ground arith;
      args = λ p l. ground arith;
    } in
        Grows-Kept s s' kept (same_args s s' (λ p l. ground arith) (λ m. ground arith)) λ l.
          record {
            signal_args =
                changed_listed s.args s'.args (signal_args_at s) (signal_args_at s') (λ k. false)
                  (λ k. p == k) s.args.next kept.args (λ k m. ground arith) (λ k. ground arith)
                  l.signal_args;
            methods =
                same_listed s.methods s'.methods (methods_at s) (methods_at s') kept.methods
                  (λ k. ground arith) l.methods;
            signals =
                same_listed s.signals s'.signals (signals_at s) (signals_at s') kept.signals
                  (λ k. ground arith) l.signals;
            properties =
                same_listed s.properties s'.properties (properties_at s) (properties_at s')
                  kept.properties (λ k. ground arith) l.properties;
            interfaces =
                same_listed s.interfaces s'.interfaces (interfaces_at s) (interfaces_at s')
                  kept.interfaces (λ k. ground arith) l.interfaces;
            nodes =
                same_listed s.nodes s'.nodes (nodes_at s) (nodes_at s') kept.nodes
                  (λ k. ground arith) l.nodes;
          }),
    ground arith,
  )

  method_arg-args_at :
      (p : ℕ) (signal : Option ℕ) {i : ℕ} {s' : Store}
      → attach_arg sort (some p) signal name dir type s ≡ ok (i, s')
      → (m : ℕ)
      → args_at s' m ≡ (
          if p == m
          then sort
              (by_direction sort p s.args.next with_arg fresh_arg)
              (args_at s p ++ s.args.next ∷ [])
          else args_at s m)
  unfolding attach_arg by_direction with_ref
  method_arg-args_at p signal h m = ground arith

  method_arg_all :
      (p : ℕ) (signal : Option ℕ) {i : ℕ} (s' : Store)
      → attach_arg sort (some p) signal name dir type s ≡ ok (i, s')
      → Keeps s.args s'.args
      → Live s'.args s.args.next
      → ArgsLive s
      → ArgsLive s'
  method_arg_all p signal s' h k l all m =
      rw (method_arg-args_at p signal h m) (elim (Bool-cases (p == m)) [
        | inl same ↦ rw same (
            AllLive-perm s'.args (args_at s p ++ s.args.next ∷ []) _ (laws.perm _ _) (
              AllLive-append s'.args (args_at s p) (s.args.next ∷ [])
                (AllLive-Keeps s.args s'.args (args_at s p) k (all p)) (l, tt)))
        | inr other ↦ rw other (AllLive-Keeps s.args s'.args (args_at s m) k (all m))
      ])

  method_arg-Grows :
      (p : ℕ) (signal : Option ℕ) {i : ℕ} {s' : Store}
      → attach_arg sort (some p) signal name dir type s ≡ ok (i, s')
      → Grows s s' × Live s'.args i
  unfolding attach_arg
  method_arg-Grows p signal {i} {s'} h = (
    (let kept : Kept s s' = record {
      nodes = λ p l. ground arith;
      interfaces = λ p l. ground arith;
      methods = λ p l. ground arith;
      signals = λ p l. ground arith;
      properties = λ p l. ground arith;
      args = λ p l. ground arith;
    } in
        Grows-Kept s s' kept (method_arg_all p signal s' h (λ p l. ground arith) (ground arith))
          λ l. record {
            signal_args =
                same_listed s.args s'.args (signal_args_at s) (signal_args_at s') kept.args
                  (λ k. ground arith) l.signal_args;
            methods =
                same_listed s.methods s'.methods (methods_at s) (methods_at s') kept.methods
                  (λ k. ground arith) l.methods;
            signals =
                same_listed s.signals s'.signals (signals_at s) (signals_at s') kept.signals
                  (λ k. ground arith) l.signals;
            properties =
                same_listed s.properties s'.properties (properties_at s) (properties_at s')
                  kept.properties (λ k. ground arith) l.properties;
            interfaces =
                same_listed s.interfaces s'.interfaces (interfaces_at s) (interfaces_at s')
                  kept.interfaces (λ k. ground arith) l.interfaces;
            nodes =
                same_listed s.nodes s'.nodes (nodes_at s) (nodes_at s') kept.nodes
                  (λ k. ground arith) l.nodes;
          }),
    ground arith,
  )

  -- An argument goes to the open method, else to the open signal.
  pub attach_arg_lem :
      (method signal : Option ℕ)
      → LiveIf s.methods method
      → LiveIf s.signals signal
      → (is_some method || is_some signal) ≡ true
      → (is_some signal ≡ true → dir ≡ arg_out)
      → ArgsLive s
      → Returns
          (λ made. Grows s made.1 × Live made.1.args made.0)
          (attach_arg sort method signal name dir type s)
  attach_arg_lem (some p) signal l _ o out all =
      Returns-of (attach_arg sort (some p) signal name dir type s)
        (method_arg-ne-abort p signal l all) (λ made h. method_arg-Grows p signal h)
  attach_arg_lem none (some p) _ l o out all =
      Returns-of (attach_arg sort none (some p) name dir type s)
        (signal_arg-ne-abort p l (out refl)) (λ made h. signal_arg-Grows p h)
  attach_arg_lem none none _ _ o out all = cc

-- An annotation changes no list of arguments.
module _ (arg method iface : Option ℕ) (name value : Bytes) (s : Store) where
  pub annotation-Grows :
      {s' : Store} → add_annotation arg method iface name value s ≡ ok s' → Grows s s'
  unfolding add_annotation
  annotation-Grows {s'} h =
      (let kept : Kept s s' = record {
        nodes = λ p l. ground arith;
        interfaces = λ p l. ground arith;
        methods = λ p l. ground arith;
        signals = λ p l. ground arith;
        properties = λ p l. ground arith;
        args = λ p l. ground arith;
      } in
        Grows-Kept s s' kept (same_args s s' (λ p l. ground arith) (λ m. ground arith)) λ l.
          record {
            signal_args =
                same_listed s.args s'.args (signal_args_at s) (signal_args_at s') kept.args
                  (λ k. ground arith) l.signal_args;
            methods =
                same_listed s.methods s'.methods (methods_at s) (methods_at s') kept.methods
                  (λ k. ground arith) l.methods;
            signals =
                same_listed s.signals s'.signals (signals_at s) (signals_at s') kept.signals
                  (λ k. ground arith) l.signals;
            properties =
                same_listed s.properties s'.properties (properties_at s) (properties_at s')
                  kept.properties (λ k. ground arith) l.properties;
            interfaces =
                same_listed s.interfaces s'.interfaces (interfaces_at s) (interfaces_at s')
                  kept.interfaces (λ k. ground arith) l.interfaces;
            nodes =
                same_listed s.nodes s'.nodes (nodes_at s) (nodes_at s') kept.nodes
                  (λ k. ground arith) l.nodes;
          })

  pub annotation-ne-abort :
      LiveIf s.args arg
      → LiveIf s.methods method
      → LiveIf s.interfaces iface
      → (is_some arg || is_some method || is_some iface) ≡ true
      → add_annotation arg method iface name value s ≢ abort
  unfolding add_annotation
  annotation-ne-abort a m i some_open = ground arith

  pub add_annotation_lem :
      LiveIf s.args arg
      → LiveIf s.methods method
      → LiveIf s.interfaces iface
      → (is_some arg || is_some method || is_some iface) ≡ true
      → Returns (λ s'. Grows s s') (add_annotation arg method iface name value s)
  add_annotation_lem a m i some_open =
      Returns-of (add_annotation arg method iface name value s)
        (annotation-ne-abort a m i some_open) (λ s' h. annotation-Grows h)
