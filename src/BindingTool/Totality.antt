-- ===== src/BindingTool/Totality.antt =====
-- The assertions of dbus/dbus-binding-tool-glib.c that every type has a marshaller's name hold.
use dbus_glib.Prelude.{
  ℕ, ◌≡◌, ◌≢◌, refl, arith, Bool-cases, Option-cases, inl, inr, Bool, true, false, not, List, [],
  ◌∷◌, ◌++◌, Bytes, if◌then◌else◌,
}
use dbus_glib.Outcome.{
  ok, abort, guard, or_abort, ◌>>=◌, Returns, Returns-ok, Returns-bind, Returns-guard,
  Returns-ne-abort,
}
use dbus_glib.Idl.Data.{ArgInfo, MethodInfo, Store, hash_lookup}
use dbus_glib.Types.{GType, is_invalid, specialized, g_type_none, g_type_pointer}
use dbus_glib.Signature.{SignatureIter, array_of, map_of}
use dbus_glib.Signature.Refinement.{gtype_from_signature-print}
use dbus_glib.Signature.Trees.{
  boolean, SigType, SigTypes, basic, variant, array, dict_entry, struct, then_type, print_all,
  IterLaws, gtype_of,
}
use dbus_glib.Idl.Members.{is_in, is_out}
use dbus_glib.Heap.{is_some}
use dbus_glib.BindingTool.Marshallers.{
  get_marshal_name, Gsignature, load_args, type_or_error, find_retval, input_types, output_types,
  compute_gsignature, join_names, param_names, compute_marshaller, compute_marshaller_name,
  is_annotated, async, returnval,
}

abbrev IsNamed : GType → Type 0
IsNamed t = is_some (get_marshal_name t) ≡ true

named-array_of : (t : GType) → is_invalid (array_of t) ≡ false → IsNamed (array_of t)
unfolding array_of get_marshal_name
named-array_of (specialized container types) h = ground arith
named-array_of _ h = ground arith

named-map_of : (k v : GType) → is_invalid (map_of k v) ≡ false → IsNamed (map_of k v)
unfolding map_of get_marshal_name
named-map_of k v h = ground arith

named-gtype_of : (t : SigType) → is_invalid (gtype_of t) ≡ false → IsNamed (gtype_of t)
unfolding gtype_of get_marshal_name
named-gtype_of (basic boolean) h = refl
named-gtype_of (basic _) h = ground arith
named-gtype_of variant h = refl
named-gtype_of (dict_entry k v) h = cc
named-gtype_of (struct t ts) h = refl
named-gtype_of (array (dict_entry k v)) h = named-map_of (gtype_of k) (gtype_of v) h
named-gtype_of (array t) h = named-array_of (gtype_of t) h

abbrev AllNamed : List GType → Type 0
AllNamed [] = Unit
AllNamed (t ∷ ts) = IsNamed t × AllNamed ts

AllNamed-append : (ts us : List GType) → AllNamed ts → AllNamed us → AllNamed (ts ++ us)
AllNamed-append [] us h k = k
AllNamed-append (t ∷ ts) us (h, hs) k = (h, AllNamed-append ts us hs k)

module _ {I : Type 0} (dbus : SignatureIter I) where
  -- The type of the argument is one or more complete types that libdbus accepts.
  abbrev pub HasSignature : ArgInfo → Type 0
  HasSignature arg =
      (t : SigType) × (ts : SigTypes) × (arg.type ≡ print_all (then_type t ts))
      × (dbus.validate (print_all (then_type t ts)) ≡ true)

  abbrev pub AllHaveSignatures : List ArgInfo → Type 0
  AllHaveSignatures [] = Unit
  AllHaveSignatures (arg ∷ args) = HasSignature arg × AllHaveSignatures args

module _ {I : Type 0} (dbus : SignatureIter I) (laws : IterLaws dbus) where
  Returns-type_or_error :
      (arg : ArgInfo) → HasSignature dbus arg → Returns IsNamed (type_or_error dbus arg.type)
  unfolding type_or_error
  Returns-type_or_error arg (t, ts, e, valid) =
      rw (e, gtype_from_signature-print dbus laws t ts valid)
        (Returns-bind (guard (not (is_invalid (gtype_of t))) _) _ (Returns-guard _ _)
          (λ u h. Returns-ok (named-gtype_of t (ground arith))))

  Returns-input_types :
      (args : List ArgInfo) → AllHaveSignatures dbus args → Returns AllNamed (input_types dbus args)
  unfolding input_types
  Returns-input_types [] h = Returns-ok tt
  Returns-input_types (arg ∷ args) (h, hs) =
      elim (is_in arg.direction)
        as (λ (b : Bool). Returns AllNamed (elim b [
          | false ↦ input_types dbus args
          | true ↦ (do
            gtype ← type_or_error dbus arg.type
            types ← input_types dbus args
            ok (gtype ∷ types))
        ])) [
          | false ↦ Returns-input_types args hs
          | true ↦
              Returns-bind (type_or_error dbus arg.type) _ (Returns-type_or_error arg h) (λ gtype n.
                Returns-bind (input_types dbus args) _ (Returns-input_types args hs)
                  (λ types ns. Returns-ok (n, ns)))
        ]

  Returns-output_types :
      (args : List ArgInfo)
      → AllHaveSignatures dbus args
      → Returns AllNamed (output_types dbus args)
  unfolding output_types get_marshal_name
  Returns-output_types [] h = Returns-ok tt
  Returns-output_types (arg ∷ args) (h, hs) =
      let rest = Returns-output_types args hs in
      elim (Bool-cases (is_annotated returnval arg.annotations)) [
        | inl a ↦ rw (output_types, a) rest
        | inr a ↦ elim (Bool-cases (is_out arg.direction)) [
          | inr d ↦ rw (output_types, a, d) rest
          | inl d ↦
              rw (output_types, a, d)
                (Returns-bind (type_or_error dbus arg.type) _ (Returns-type_or_error arg h)
                  (λ gtype n.
                    Returns-bind (output_types dbus args) _ rest
                      (λ types ns. Returns-ok (refl, ns))))
        ]
      ]

  Returns-find_retval :
      (args : List ArgInfo)
      → AllHaveSignatures dbus args
      → Returns (λ r. IsNamed r.0) (find_retval dbus args)
  unfolding find_retval get_marshal_name
  Returns-find_retval [] h = Returns-ok refl
  Returns-find_retval (arg ∷ args) (h, hs) =
      elim (Option-cases (hash_lookup returnval arg.annotations)) [
        | inl a ↦ rw (find_retval, a) (Returns-find_retval args hs)
        | inr (annotation, a) ↦
            rw (find_retval, a)
              (Returns-bind (type_or_error dbus arg.type) _ (Returns-type_or_error arg h)
                (λ gtype n. Returns-ok n))
      ]

  abbrev NamedSignature : Gsignature → Type 0
  NamedSignature g = IsNamed g.rettype × AllNamed g.params

  Returns-compute_gsignature :
      (method : MethodInfo) (s : Store) (args : List ArgInfo)
      → load_args method.args s ≡ ok args
      → AllHaveSignatures dbus args
      → Returns NamedSignature (compute_gsignature dbus method s)
  unfolding compute_gsignature get_marshal_name
  Returns-compute_gsignature method s args loaded h =
      let inputs = Returns-input_types args h in
      elim (Bool-cases (is_annotated async method.annotations)) [
        | inl a ↦
            rw (compute_gsignature, loaded, a)
              (Returns-bind (input_types dbus args) _ inputs (λ types n.
                Returns-ok (refl, AllNamed-append types (g_type_pointer ∷ []) n (refl, tt))))
        | inr a ↦
            rw (compute_gsignature, loaded, a)
              (Returns-bind (find_retval dbus args) _ (Returns-find_retval args h) (λ retval r.
                Returns-bind (input_types dbus args) _ inputs (λ ins i.
                  Returns-bind (output_types dbus args) _ (Returns-output_types args h) (λ outs o.
                    Returns-ok (
                      r,
                      AllNamed-append (ins ++ outs) _ (AllNamed-append ins outs i o)
                          (error_param retval.1),
                    )))))
      ]
    where
      error_param : (b : Bool) → AllNamed (if b then g_type_pointer ∷ [] else [])
      error_param true = (refl, tt)
      error_param false = tt

abbrev Any : Bytes → Type 0
Any name = Unit

Returns-name : (t : GType) → IsNamed t → Returns Any (or_abort (get_marshal_name t))
Returns-name t n = elim (Option-cases (get_marshal_name t)) [
  | inl none_there ↦ absurd (ground arith)
  | inr (name, e) ↦ rw e (Returns-ok tt)
]

Returns-join_names :
    (separator : ℕ) (t : GType) (ts : List GType)
    → AllNamed (t ∷ ts)
    → Returns Any (join_names separator (t ∷ ts))
unfolding join_names
Returns-join_names separator t [] (n, ns) = Returns-name t n
Returns-join_names separator t (u ∷ us) (n, ns) =
    Returns-bind (or_abort (get_marshal_name t)) _ (Returns-name t n) (λ name a.
      Returns-bind (join_names separator (u ∷ us)) _ (Returns-join_names separator u us ns)
        (λ names b. Returns-ok tt))

Returns-param_names :
    (separator : ℕ) (ts : List GType) → AllNamed ts → Returns Any (param_names separator ts)
unfolding param_names
Returns-param_names separator [] h = Returns-name g_type_none (unfold get_marshal_name in refl)
Returns-param_names separator (t ∷ ts) h = Returns-join_names separator t ts h

-- If a method's arguments are in the store and the type of each is a signature that libdbus accepts,
-- neither the text nor the name of its marshaller stops the process: no type is without a name.
pub compute_marshaller-ne-abort :
    {I : Type 0} (dbus : SignatureIter I) (laws : IterLaws dbus) (method : MethodInfo) (s : Store)
    (args : List ArgInfo) (prefix : Bytes)
    → load_args method.args s ≡ ok args
    → AllHaveSignatures dbus args
    → (compute_marshaller dbus method s ≢ abort)
      × (compute_marshaller_name dbus method prefix s ≢ abort)
unfolding compute_marshaller compute_marshaller_name
compute_marshaller-ne-abort dbus laws method s args prefix loaded h =
    let signature = Returns-compute_gsignature dbus laws method s args loaded h in
    (
      Returns-ne-abort (compute_marshaller dbus method s) (
          Returns-bind (compute_gsignature dbus method s) _ signature (λ g (r, ps).
            Returns-bind (or_abort (get_marshal_name g.rettype)) _ (Returns-name g.rettype r)
              (λ ret a.
                Returns-bind (param_names b',' g.params) _ (Returns-param_names b',' g.params ps)
                  (λ names b. Returns-ok {P = Any} tt)))),
      Returns-ne-abort (compute_marshaller_name dbus method prefix s) (
          Returns-bind (compute_gsignature dbus method s) _ signature (λ g (r, ps).
            Returns-bind (or_abort (get_marshal_name g.rettype)) _ (Returns-name g.rettype r)
              (λ ret a.
                Returns-bind (param_names b'_' g.params) _ (Returns-param_names b'_' g.params ps)
                  (λ names b. Returns-ok {P = Any} tt)))),
    )
