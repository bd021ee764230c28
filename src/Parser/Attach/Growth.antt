-- ===== src/Parser/Attach/Growth.antt =====
-- Each attachment keeps every object alive, and the arguments of every method, and stops nothing.
use dbus_glib.Prelude.{ℕ, ◌≡◌, ◌≢◌, arith, Bool, true, false, ◌==◌, Option, List, [], ◌∷◌, Bytes}
use dbus_glib.Outcome.{ok, abort, Returns, Returns-of}
use dbus_glib.Heap.{Live}
use dbus_glib.Idl.Data.{Store, PropertyAccessFlags}
use dbus_glib.Idl.Growth.{
  Grows, Kept, Grows-Kept, same_args, fewer_args, same_listed, changed_listed, signal_args_at,
  methods_at, signals_at, properties_at, interfaces_at, nodes_at,
}
use dbus_glib.Parser.Attach.{
  attach_node, attach_interface, attach_method, attach_signal, attach_property,
}

abbrev is_top : ℕ → List ℕ → Bool
is_top k [] = false
is_top k (p ∷ ps) = p == k

abbrev pub TopLive : Store → List ℕ → Type 0
TopLive s [] = Unit
TopLive s (p ∷ ps) = Live s.nodes p

module _ (is_name : Bytes → Bool) (name : Bytes) (node : ℕ) (s : Store) where
  pub attach_interface-ne-abort :
      is_name name ≡ true → Live s.nodes node → attach_interface is_name name node s ≢ abort
  unfolding attach_interface
  attach_interface-ne-abort n l = ground arith

  pub attach_interface-Grows :
      {i : ℕ} {s' : Store} → attach_interface is_name name node s ≡ ok (i, s') → Grows s s'
  unfolding attach_interface
  attach_interface-Grows {i} {s'} h =
      (let kept : Kept s s' = record {
        nodes = λ p l. ground arith;
        interfaces = λ p l. ground arith;
        methods = λ p l. ground arith;
        signals = λ p l. ground arith;
        properties = λ p l. ground arith;
        args = λ p l. ground arith;
      } in
        Grows-Kept s s' kept (same_args s s' (λ p l. ground arith) (λ m. ground arith)) λ l.
          record {
            signal_args =
                same_listed s.args s'.args (signal_args_at s) (signal_args_at s') kept.args
                  (λ k. ground arith) l.signal_args;
            methods =
                changed_listed s.methods s'.methods (methods_at s) (methods_at s')
                  (λ k. s.interfaces.next == k) (λ k. false) s.methods.next kept.methods
                  (λ k m. ground arith) (λ k. ground arith) l.methods;
            signals =
                changed_listed s.signals s'.signals (signals_at s) (signals_at s')
                  (λ k. s.interfaces.next == k) (λ k. false) s.signals.next kept.signals
                  (λ k m. ground arith) (λ k. ground arith) l.signals;
            properties =
                changed_listed s.properties s'.properties (properties_at s) (properties_at s')
                  (λ k. s.interfaces.next == k) (λ k. false) s.properties.next kept.properties
                  (λ k m. ground arith) (λ k. ground arith) l.properties;
            interfaces =
                changed_listed s.interfaces s'.interfaces (interfaces_at s) (interfaces_at s')
                  (λ k. false) (λ k. node == k) s.interfaces.next kept.interfaces
                  (λ k m. ground arith) (λ k. ground arith) l.interfaces;
            nodes =
                same_listed s.nodes s'.nodes (nodes_at s) (nodes_at s') kept.nodes
                  (λ k. ground arith) l.nodes;
          })

  pub attach_interface-Live :
      {i : ℕ} {s' : Store}
      → attach_interface is_name name node s ≡ ok (i, s')
      → Live s'.interfaces i
  unfolding attach_interface
  attach_interface-Live h = ground arith

  pub attach_interface_lem :
      is_name name ≡ true
      → Live s.nodes node
      → Returns
          (λ made. Grows s made.1 × Live made.1.interfaces made.0)
          (attach_interface is_name name node s)
  attach_interface_lem n l =
      Returns-of (attach_interface is_name name node s) (attach_interface-ne-abort n l)
        (λ made h. (attach_interface-Grows h, attach_interface-Live h))

module _ (is_name : Bytes → Bool) (name : Bytes) (iface : ℕ) (s : Store) where
  pub attach_method-ne-abort :
      is_name name ≡ true → Live s.interfaces iface → attach_method is_name name iface s ≢ abort
  unfolding attach_method
  attach_method-ne-abort n l = ground arith

  pub attach_method-Grows :
      {i : ℕ} {s' : Store} → attach_method is_name name iface s ≡ ok (i, s') → Grows s s'
  unfolding attach_method
  attach_method-Grows {i} {s'} h =
      (let kept : Kept s s' = record {
        nodes = λ p l. ground arith;
        interfaces = λ p l. ground arith;
        methods = λ p l. ground arith;
        signals = λ p l. ground arith;
        properties = λ p l. ground arith;
        args = λ p l. ground arith;
      } in
        Grows-Kept s s' kept (fewer_args s s' (λ p l. ground arith) (λ m. ground arith)) λ l.
          record {
            signal_args =
                same_listed s.args s'.args (signal_args_at s) (signal_args_at s') kept.args
                  (λ k. ground arith) l.signal_args;
            methods =
                changed_listed s.methods s'.methods (methods_at s) (methods_at s') (λ k. false)
                  (λ k. iface == k) s.methods.next kept.methods (λ k m. ground arith)
                  (λ k. ground arith) l.methods;
            signals =
                same_listed s.signals s'.signals (signals_at s) (signals_at s') kept.signals
                  (λ k. ground arith) l.signals;
            properties =
                same_listed s.properties s'.properties (properties_at s) (properties_at s')
                  kept.properties (λ k. ground arith) l.properties;
            interfaces =
                same_listed s.interfaces s'.interfaces (interfaces_at s) (interfaces_at s')
                  kept.interfaces (λ k. ground arith) l.interfaces;
            nodes =
                same_listed s.nodes s'.nodes (nodes_at s) (nodes_at s') kept.nodes
                  (λ k. ground arith) l.nodes;
          })

  pub attach_method-Live :
      {i : ℕ} {s' : Store} → attach_method is_name name iface s ≡ ok (i, s') → Live s'.methods i
  unfolding attach_method
  attach_method-Live h = ground arith

  pub attach_method_lem :
      is_name name ≡ true
      → Live s.interfaces iface
      → Returns
          (λ made. Grows s made.1 × Live made.1.methods made.0)
          (attach_method is_name name iface s)
  attach_method_lem n l =
      Returns-of (attach_method is_name name iface s) (attach_method-ne-abort n l)
        (λ made h. (attach_method-Grows h, attach_method-Live h))

module _ (is_name : Bytes → Bool) (name : Bytes) (iface : ℕ) (s : Store) where
  pub attach_signal-ne-abort :
      is_name name ≡ true → Live s.interfaces iface → attach_signal is_name name iface s ≢ abort
  unfolding attach_signal
  attach_signal-ne-abort n l = ground arith

  pub attach_signal-Grows :
      {i : ℕ} {s' : Store} → attach_signal is_name name iface s ≡ ok (i, s') → Grows s s'
  unfolding attach_signal
  attach_signal-Grows {i} {s'} h =
      (let kept : Kept s s' = record {
        nodes = λ p l. ground arith;
        interfaces = λ p l. ground arith;
        methods = λ p l. ground arith;
        signals = λ p l. ground arith;
        properties = λ p l. ground arith;
        args = λ p l. ground arith;
      } in
        Grows-Kept s s' kept (same_args s s' (λ p l. ground arith) (λ m. ground arith)) λ l.
          record {
            signal_args =
                changed_listed s.args s'.args (signal_args_at s) (signal_args_at s')
                  (λ k. s.signals.next == k) (λ k. false) s.args.next kept.args
                  (λ k m. ground arith) (λ k. ground arith) l.signal_args;
            methods =
                same_listed s.methods s'.methods (methods_at s) (methods_at s') kept.methods
                  (λ k. ground arith) l.methods;
            signals =
                changed_listed s.signals s'.signals (signals_at s) (signals_at s') (λ k. false)
                  (λ k. iface == k) s.signals.next kept.signals (λ k m. ground arith)
                  (λ k. ground arith) l.signals;
            properties =
                same_listed s.properties s'.properties (properties_at s) (properties_at s')
                  kept.properties (λ k. ground arith) l.properties;
            interfaces =
                same_listed s.interfaces s'.interfaces (interfaces_at s) (interfaces_at s')
                  kept.interfaces (λ k. ground arith) l.interfaces;
            nodes =
                same_listed s.nodes s'.nodes (nodes_at s) (nodes_at s') kept.nodes
                  (λ k. ground arith) l.nodes;
          })

  pub attach_signal-Live :
      {i : ℕ} {s' : Store} → attach_signal is_name name iface s ≡ ok (i, s') → Live s'.signals i
  unfolding attach_signal
  attach_signal-Live h = ground arith

  pub attach_signal_lem :
      is_name name ≡ true
      → Live s.interfaces iface
      → Returns
          (λ made. Grows s made.1 × Live made.1.signals made.0)
          (attach_signal is_name name iface s)
  attach_signal_lem n l =
      Returns-of (attach_signal is_name name iface s) (attach_signal-ne-abort n l)
        (λ made h. (attach_signal-Grows h, attach_signal-Live h))

module _ (utf8 is_sig : Bytes → Bool) (name type : Bytes) (access : PropertyAccessFlags) (iface : ℕ)
    (s : Store) where
  pub attach_property-ne-abort :
      utf8 name ≡ true
      → is_sig type ≡ true
      → Live s.interfaces iface
      → attach_property utf8 is_sig name type access iface s ≢ abort
  unfolding attach_property
  attach_property-ne-abort n m l = ground arith

  pub attach_property-Grows :
      {i : ℕ} {s' : Store}
      → attach_property utf8 is_sig name type access iface s ≡ ok (i, s')
      → Grows s s'
  unfolding attach_property
  attach_property-Grows {i} {s'} h =
      (let kept : Kept s s' = record {
        nodes = λ p l. ground arith;
        interfaces = λ p l. ground arith;
        methods = λ p l. ground arith;
        signals = λ p l. ground arith;
        properties = λ p l. ground arith;
        args = λ p l. ground arith;
      } in
        Grows-Kept s s' kept (same_args s s' (λ p l. ground arith) (λ m. ground arith)) λ l.
          record {
            signal_args =
                same_listed s.args s'.args (signal_args_at s) (signal_args_at s') kept.args
                  (λ k. ground arith) l.signal_args;
            methods =
                same_listed s.methods s'.methods (methods_at s) (methods_at s') kept.methods
                  (λ k. ground arith) l.methods;
            signals =
                same_listed s.signals s'.signals (signals_at s) (signals_at s') kept.signals
                  (λ k. ground arith) l.signals;
            properties =
                changed_listed s.properties s'.properties (properties_at s) (properties_at s')
                  (λ k. false) (λ k. iface == k) s.properties.next kept.properties
                  (λ k m. ground arith) (λ k. ground arith) l.properties;
            interfaces =
                same_listed s.interfaces s'.interfaces (interfaces_at s) (interfaces_at s')
                  kept.interfaces (λ k. ground arith) l.interfaces;
            nodes =
                same_listed s.nodes s'.nodes (nodes_at s) (nodes_at s') kept.nodes
                  (λ k. ground arith) l.nodes;
          })

  pub attach_property-Live :
      {i : ℕ} {s' : Store}
      → attach_property utf8 is_sig name type access iface s ≡ ok (i, s')
      → Live s'.properties i
  unfolding attach_property
  attach_property-Live h = ground arith

  pub attach_property_lem :
      utf8 name ≡ true
      → is_sig type ≡ true
      → Live s.interfaces iface
      → Returns
          (λ made. Grows s made.1 × Live made.1.properties made.0)
          (attach_property utf8 is_sig name type access iface s)
  attach_property_lem n m l =
      Returns-of (attach_property utf8 is_sig name type access iface s)
        (attach_property-ne-abort n m l)
        (λ made h. (attach_property-Grows h, attach_property-Live h))

module _ (stack : List ℕ) (name : Option Bytes) (s : Store) where
  pub attach_node-ne-abort : TopLive s stack → attach_node stack name s ≢ abort
  unfolding attach_node
  attach_node-ne-abort l = ground arith

  pub attach_node-Grows : {i : ℕ} {s' : Store} → attach_node stack name s ≡ ok (i, s') → Grows s s'
  unfolding attach_node
  attach_node-Grows {i} {s'} h =
      (let kept : Kept s s' = record {
        nodes = λ p l. ground arith;
        interfaces = λ p l. ground arith;
        methods = λ p l. ground arith;
        signals = λ p l. ground arith;
        properties = λ p l. ground arith;
        args = λ p l. ground arith;
      } in
        Grows-Kept s s' kept (same_args s s' (λ p l. ground arith) (λ m. ground arith)) λ l.
          record {
            signal_args =
                same_listed s.args s'.args (signal_args_at s) (signal_args_at s') kept.args
                  (λ k. ground arith) l.signal_args;
            methods =
                same_listed s.methods s'.methods (methods_at s) (methods_at s') kept.methods
                  (λ k. ground arith) l.methods;
            signals =
                same_listed s.signals s'.signals (signals_at s) (signals_at s') kept.signals
                  (λ k. ground arith) l.signals;
            properties =
                same_listed s.properties s'.properties (properties_at s) (properties_at s')
                  kept.properties (λ k. ground arith) l.properties;
            interfaces =
                changed_listed s.interfaces s'.interfaces (interfaces_at s) (interfaces_at s')
                  (λ k. s.nodes.next == k) (λ k. false) s.interfaces.next kept.interfaces
                  (λ k m. ground arith) (λ k. ground arith) l.interfaces;
            nodes =
                changed_listed s.nodes s'.nodes (nodes_at s) (nodes_at s') (λ k. s.nodes.next == k)
                  (λ k. is_top k stack) s.nodes.next kept.nodes (λ k m. ground arith)
                  (λ k. ground arith) l.nodes;
          })

  pub attach_node-Live :
      {i : ℕ} {s' : Store} → attach_node stack name s ≡ ok (i, s') → Live s'.nodes i
  unfolding attach_node
  attach_node-Live h = ground arith

  pub attach_node_lem :
      TopLive s stack
      → Returns (λ made. Grows s made.1 × Live made.1.nodes made.0) (attach_node stack name s)
  attach_node_lem l =
      Returns-of (attach_node stack name s) (attach_node-ne-abort l)
        (λ made h. (attach_node-Grows h, attach_node-Live h))
