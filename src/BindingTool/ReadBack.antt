-- ===== src/BindingTool/ReadBack.antt =====
-- What dbus/dbus-binding-tool-glib.c writes for a method, dbus/dbus-gobject.c reads back.
use dbus_glib.Prelude.{
  ℕ, zero, suc, ◌+◌, ◌≤◌, ◌<◌, ◌≡◌, ◌≢◌, refl, sym, ap, ◌∙◌, arith, Bool, true, false, List, [],
  ◌∷◌, ◌++◌, ◌==◌, Bytes, length, has_char, append_assoc, append-nil, length-append, if◌then◌else◌,
}
use dbus_glib.Outcome.{Outcome, ok, ◌>>=◌, >>=-eq-ok}
use dbus_glib.Memory.{
  advance, string_at, char_at, ended, strlen-ended, string_at-ended, advance-ended, advance-append,
}
use dbus_glib.Idl.Data.{ArgInfo, MethodInfo, Store}
use dbus_glib.Signature.{SignatureIter}
use dbus_glib.Object.Metadata.{
  get_method_data, method_dir_signature_from_object_info, DBusGMethodInfo,
  method_interface_from_object_info, method_name_from_object_info,
  method_input_signature_from_object_info, method_output_signature_from_object_info,
  DBusGObjectInfo, string_table_next, arg_iterate, ArgEntry, RetvalType, retval_none, same,
  constval_of, retval_of, dir_signature_loop,
}
use dbus_glib.Idl.Members.{is_in}
use dbus_glib.BindingTool.Marshallers.{is_annotated, async, load_args}
use dbus_glib.BindingTool.Encoding.{
  ArgText, an_input, an_output, ArgsText, no_args, next_arg, c_string-append, append_args-text,
}
use dbus_glib.BindingTool.Glue.{text, c_string, Place, append_args, append_method}

-- C strings, with an argument's name not empty
abbrev pub IsClean : ArgInfo → Type 0
IsClean arg =
    (has_char 0 (text arg.base.name) ≡ false)
    × (text arg.base.name ≢ [])
    × (has_char 0 arg.type ≡ false)

abbrev pub AllClean : List ArgInfo → Type 0
AllClean [] = Unit
AllClean (arg ∷ args) = IsClean arg × AllClean args

pub string_table_next-ended :
    (s rest : Bytes) → has_char 0 s ≡ false → string_table_next (ended s rest) ≡ ok rest
unfolding string_table_next
string_table_next-ended s rest clean = rw (strlen-ended s rest clean) (ap ok (advance-ended s rest))

-- one letter and its NUL
next-letter : (c : ℕ) (rest : Bytes) → (c == 0) ≡ false → string_table_next (c ∷ 0 ∷ rest) ≡ ok rest
unfolding has_char
next-letter c rest h = string_table_next-ended (c ∷ []) rest (ground arith)

module _ (name type rest : Bytes) (name_clean : has_char 0 name ≡ false)
    (type_clean : has_char 0 type ≡ false) where
  pub arg_iterate-in :
      (constval : Bool) (retval : RetvalType)
      → arg_iterate (ended name (b'I' ∷ 0 ∷ ended type rest)) constval retval
        ≡ ok (record {
          name = ended name (b'I' ∷ 0 ∷ ended type rest);
          is_in = true;
          constval = false;
          retval = retval_none;
          type = ended type rest;
          next = rest;
        })
  unfolding arg_iterate
  arg_iterate-in constval retval =
      rw
        (
          string_table_next-ended name (b'I' ∷ 0 ∷ ended type rest) name_clean,
          string_table_next-ended type rest type_clean,
        )
        refl

  pub arg_iterate-out :
      (c r : ℕ) (constval : Bool) (retval : RetvalType)
      → (c == 0) ≡ false
      → (r == 0) ≡ false
      → arg_iterate (ended name (b'O' ∷ 0 ∷ c ∷ 0 ∷ r ∷ 0 ∷ ended type rest)) constval retval
        ≡ ok (record {
          name = ended name (b'O' ∷ 0 ∷ c ∷ 0 ∷ r ∷ 0 ∷ ended type rest);
          is_in = false;
          constval = constval_of c constval;
          retval = retval_of r retval;
          type = ended type rest;
          next = rest;
        })
  unfolding arg_iterate
  arg_iterate-out c r constval retval hc hr =
      let after_const = next-letter c (r ∷ 0 ∷ ended type rest) hc in
      let after_retval = next-letter r (ended type rest) hr in
      rw
        (
          string_table_next-ended name (b'O' ∷ 0 ∷ c ∷ 0 ∷ r ∷ 0 ∷ ended type rest) name_clean,
          after_const,
          after_retval,
          string_table_next-ended type rest type_clean,
        )
        refl

pub name_nonzero :
    (name p : Bytes)
    → has_char 0 name ≡ false
    → name ≢ []
    → (c : ℕ) × (char_at (ended name p) ≡ ok c) × ((c == 0) ≡ false)
unfolding has_char
name_nonzero [] p clean nonempty = absurd (nonempty refl)
name_nonzero (c ∷ name) p clean nonempty = (c, refl, ground arith)

abbrev pub types_of : Bool → List ArgInfo → Bytes
types_of inputs [] = []
types_of inputs (arg ∷ args) =
    if same (is_in arg.direction) inputs
    then arg.type ++ types_of inputs args
    else types_of inputs args

loop-step :
    (p : Bytes) {type : Bytes} {c : ℕ} {e : ArgEntry} (inputs : Bool) (fuel : ℕ) (ret : Bytes)
    → char_at p ≡ ok c
    → (c == 0) ≡ false
    → arg_iterate p false retval_none ≡ ok e
    → string_at e.type ≡ ok type
    → dir_signature_loop (suc fuel) inputs p ret
      ≡ dir_signature_loop fuel inputs e.next (if same e.is_in inputs then ret ++ type else ret)
unfolding dir_signature_loop
loop-step p inputs fuel ret at nonzero entry typed = ground (arith, at, nonzero, entry, typed)

-- one turn of the loop
pub loop-arg :
    (arg : ArgInfo) {p rest : Bytes} (inputs : Bool) (fuel : ℕ) (ret : Bytes)
    → IsClean arg
    → ArgText arg p rest
    → dir_signature_loop (suc fuel) inputs p ret
      ≡ dir_signature_loop fuel inputs rest
          (if same (is_in arg.direction) inputs then ret ++ arg.type else ret)
loop-arg arg inputs fuel ret (name_clean, nonempty, type_clean) (an_input d rest) =
    let name = text arg.base.name in
    let (c, at, nonzero) = name_nonzero name (b'I' ∷ 0 ∷ ended arg.type rest) name_clean nonempty in
    rw d (
      loop-step _ inputs fuel ret at nonzero
        (arg_iterate-in name arg.type rest name_clean type_clean false retval_none)
        (string_at-ended arg.type rest type_clean))
loop-arg arg inputs fuel ret (name_clean, nonempty, type_clean) (an_output d c r nc nr rest) =
    let name = text arg.base.name in
    let (x, at, nonzero) =
      name_nonzero name (b'O' ∷ 0 ∷ c ∷ 0 ∷ r ∷ 0 ∷ ended arg.type rest) name_clean nonempty in
    rw d (
      loop-step _ inputs fuel ret at nonzero
        (arg_iterate-out name arg.type rest name_clean type_clean c r false retval_none nc nr)
        (string_at-ended arg.type rest type_clean))

pub regroup :
    (b : Bool) (ret type types : Bytes)
    → (if b then ret ++ type else ret) ++ types ≡ ret ++ (if b then type ++ types else types)
regroup true ret type types = append_assoc ret type types
regroup false ret type types = refl

loop-args :
    (args : List ArgInfo) {p rest : Bytes} (inputs : Bool) (fuel : ℕ) (ret : Bytes)
    → AllClean args
    → ArgsText args p (0 ∷ rest)
    → length args < fuel
    → dir_signature_loop fuel inputs p ret ≡ ok (ret ++ types_of inputs args)
unfolding dir_signature_loop
loop-args args inputs zero ret clean t h = absurd (omega arith)
loop-args [] inputs (suc fuel) ret clean (no_args _) h = ap ok (sym (append-nil ret))
loop-args (arg ∷ args) inputs (suc fuel) ret (clean, more) (next_arg one t) h =
    loop-arg arg inputs fuel ret clean one
    ∙ loop-args args inputs fuel
        (if same (is_in arg.direction) inputs then ret ++ arg.type else ret) more t (omega arith)
    ∙ ap ok (regroup (same (is_in arg.direction) inputs) ret arg.type (types_of inputs args))

length-ArgText : {arg : ArgInfo} {p rest : Bytes} → ArgText arg p rest → length rest < length p
length-ArgText {arg} (an_input d rest) = omega (
  arith,
  length-append (text arg.base.name) (0 ∷ b'I' ∷ 0 ∷ ended arg.type rest),
  length-append arg.type (0 ∷ rest),
)
length-ArgText {arg} (an_output d c r nc nr rest) = omega (
  arith,
  length-append (text arg.base.name) (0 ∷ b'O' ∷ 0 ∷ c ∷ 0 ∷ r ∷ 0 ∷ ended arg.type rest),
  length-append arg.type (0 ∷ rest),
)

pub length-ArgsText :
    (args : List ArgInfo) {p rest : Bytes}
    → ArgsText args p rest
    → length args + length rest ≤ length p
length-ArgsText [] (no_args rest) = omega arith
length-ArgsText (arg ∷ args) (next_arg one more) =
    omega (arith, length-ArgText one, length-ArgsText args more)

end-text :
    (blob rest : Bytes) {blob' : Bytes}
    → Path (Outcome Bytes) (ok (blob ++ 0 ∷ [])) (ok blob')
    → blob' ++ rest ≡ blob ++ 0 ∷ rest
end-text blob rest h = ground (arith, append_assoc blob (0 ∷ []) rest)

head-text :
    (place : Place) (kind : ℕ) (blob p : Bytes)
    → blob ++ (c_string place.interface ++ (c_string place.method ++ c_string (kind ∷ []))) ++ p
      ≡ blob ++ ended place.interface (ended place.method (kind ∷ 0 ∷ p))
head-text place kind blob p =
    let tail = c_string place.method ++ c_string (kind ∷ []) in
    rw
      (
        append_assoc blob (c_string place.interface ++ tail) p,
        append_assoc (c_string place.interface) tail p,
        append_assoc (c_string place.method) (c_string (kind ∷ [])) p,
        c_string-append place.method (kind ∷ 0 ∷ p),
        c_string-append place.interface (ended place.method (kind ∷ 0 ∷ p)),
      )
      refl

pub dir_signature-at :
    (object : DBusGObjectInfo) (entry : DBusGMethodInfo) (place : Place) (kind : ℕ) (p : Bytes)
    (inputs : Bool)
    → (kind == 0) ≡ false
    → has_char 0 place.interface ≡ false
    → has_char 0 place.method ≡ false
    → advance entry.data_offset object.blob
      ≡ ended place.interface (ended place.method (kind ∷ 0 ∷ p))
    → method_dir_signature_from_object_info object entry inputs
      ≡ dir_signature_loop (suc (length p)) inputs p []
unfolding method_dir_signature_from_object_info get_method_data
dir_signature-at object entry place kind p inputs nonzero ci cm e =
    rw
      (
        e,
        string_table_next-ended place.interface (ended place.method (kind ∷ 0 ∷ p)) ci,
        string_table_next-ended place.method (kind ∷ 0 ∷ p) cm,
        next-letter kind p nonzero,
      )
      refl

-- the four functions on an entry that starts with two names and the letter of its kind
read_entry :
    (object : DBusGObjectInfo) (entry : DBusGMethodInfo) (place : Place) (kind : ℕ) (p : Bytes)
    {args : List ArgInfo} {rest : Bytes}
    → (kind == 0) ≡ false
    → has_char 0 place.interface ≡ false
    → has_char 0 place.method ≡ false
    → AllClean args
    → ArgsText args p (0 ∷ rest)
    → advance entry.data_offset object.blob
      ≡ ended place.interface (ended place.method (kind ∷ 0 ∷ p))
    → ((do p ← method_interface_from_object_info object entry; string_at p) ≡ ok place.interface)
      × ((do p ← method_name_from_object_info object entry; string_at p) ≡ ok place.method)
      × (method_input_signature_from_object_info object entry ≡ ok (types_of true args))
      × (method_output_signature_from_object_info object entry ≡ ok (types_of false args))
unfolding method_interface_from_object_info method_name_from_object_info
    method_input_signature_from_object_info method_output_signature_from_object_info get_method_data
read_entry object entry place kind p {args} nonzero ci cm clean t e =
    let first = string_table_next-ended place.interface (ended place.method (kind ∷ 0 ∷ p)) ci in
    let fits = length-ArgsText args t in
    (
      rw e (string_at-ended place.interface _ ci),
      rw (e, first) (string_at-ended place.method _ cm),
      dir_signature-at object entry place kind p true nonzero ci cm e
          ∙ loop-args args true (suc (length p)) [] clean t (omega arith),
      dir_signature-at object entry place kind p false nonzero ci cm e
          ∙ loop-args args false (suc (length p)) [] clean t (omega arith),
    )

module _ {I : Type 0} (dbus : SignatureIter I) where
  -- the strings of an entry, in turn
  pub method-text :
      (place : Place) (method : MethodInfo) (args : List ArgInfo) (s : Store) (blob rest : Bytes)
      {blob' : Bytes}
      → load_args method.args s ≡ ok args
      → append_method dbus place method s blob ≡ ok blob'
      → (kind : ℕ) × (p : Bytes) × ((kind == 0) ≡ false)
        × (blob' ++ rest ≡ blob ++ ended place.interface (ended place.method (kind ∷ 0 ∷ p)))
        × ArgsText args p (0 ∷ rest)
  unfolding append_method
  method-text place method args s blob rest {blob'} loaded h =
      let kind = if is_annotated async method.annotations then b'A' else b'S' in
      let (entry, e, h') =
        >>=-eq-ok (append_args dbus place args _) _ (rw (append_method, loaded) at h) in
      let (p, f, t) = append_args-text dbus place args _ e (0 ∷ rest) in
      (kind, p, ground arith, end-text entry.blob rest h' ∙ f ∙ head-text place kind blob p, t)

  -- If the entry of a method is written, whose names and types are C strings and whose arguments' names
  -- are not empty, then from its offset, whatever is written later, the interface and the name are read
  -- back, and as input and output signature the types of the arguments of that direction, in their order.
  pub signatures-append_method :
      (place : Place) (method : MethodInfo) (args : List ArgInfo) (s : Store) (blob rest : Bytes)
      (object : DBusGObjectInfo) (entry : DBusGMethodInfo) {blob' : Bytes}
      → load_args method.args s ≡ ok args
      → append_method dbus place method s blob ≡ ok blob'
      → has_char 0 place.interface ≡ false
      → has_char 0 place.method ≡ false
      → AllClean args
      → object.blob ≡ blob' ++ rest
      → entry.data_offset ≡ length blob
      → ((do p ← method_interface_from_object_info object entry; string_at p) ≡ ok place.interface)
        × ((do p ← method_name_from_object_info object entry; string_at p) ≡ ok place.method)
        × (method_input_signature_from_object_info object entry ≡ ok (types_of true args))
        × (method_output_signature_from_object_info object entry ≡ ok (types_of false args))
  signatures-append_method place method args s blob rest object entry loaded written ci cm clean
        here at =
      let (kind, p, nonzero, shape, t) = method-text place method args s blob rest loaded written in
      read_entry object entry place kind p nonzero ci cm clean t
        (rw (here, at, shape) (advance-append blob _))
