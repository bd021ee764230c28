-- ===== src/BindingTool/EmptyNames.antt =====
-- An argument with an empty name looks, to dbus/dbus-gobject.c, like the end of the arguments.
use dbus_glib.Prelude.{
  ℕ, suc, zero, ◌≡◌, ◌<◌, refl, sym, ap, ◌∙◌, arith, Bool, true, false, List, [], ◌∷◌, ◌++◌, Bytes,
  length, has_char, append-nil, if◌then◌else◌,
}
use dbus_glib.Outcome.{ok}
use dbus_glib.Memory.{ended, advance, advance-append}
use dbus_glib.Idl.Data.{ArgInfo, MethodInfo, Store}
use dbus_glib.Signature.{SignatureIter}
use dbus_glib.Object.Metadata.{
  DBusGMethodInfo, DBusGObjectInfo, dir_signature_loop, method_input_signature_from_object_info,
  method_output_signature_from_object_info, same,
}
use dbus_glib.Idl.Members.{is_in}
use dbus_glib.BindingTool.Marshallers.{load_args}
use dbus_glib.BindingTool.Glue.{text, Place, append_method}
use dbus_glib.BindingTool.Encoding.{ArgText, an_input, an_output, ArgsText, next_arg}
use dbus_glib.BindingTool.ReadBack.{
  AllClean, types_of, loop-arg, regroup, method-text, length-ArgsText, dir_signature-at,
}

loop-empty_name :
    (arg : ArgInfo) {p rest : Bytes} (inputs : Bool) (fuel : ℕ) (ret : Bytes)
    → text arg.base.name ≡ []
    → ArgText arg p rest
    → dir_signature_loop (suc fuel) inputs p ret ≡ ok ret
unfolding dir_signature_loop
loop-empty_name arg inputs fuel ret empty (an_input d rest) = rw empty refl
loop-empty_name arg inputs fuel ret empty (an_output d c r nc nr rest) = rw empty refl

loop-before :
    (before : List ArgInfo) (arg : ArgInfo) (after : List ArgInfo) {p rest : Bytes} (inputs : Bool)
    (fuel : ℕ) (ret : Bytes)
    → AllClean before
    → text arg.base.name ≡ []
    → ArgsText (before ++ arg ∷ after) p rest
    → length before < fuel
    → dir_signature_loop fuel inputs p ret ≡ ok (ret ++ types_of inputs before)
loop-before before arg after inputs zero ret clean empty t h = absurd (omega arith)
loop-before [] arg after inputs (suc fuel) ret clean empty (next_arg one t) h =
    loop-empty_name arg inputs fuel ret empty one ∙ ap ok (sym (append-nil ret))
loop-before (b ∷ before) arg after inputs (suc fuel) ret (clean, more) empty (next_arg one t) h =
    loop-arg b inputs fuel ret clean one
    ∙ loop-before before arg after inputs fuel
        (if same (is_in b.direction) inputs then ret ++ b.type else ret) more empty t (omega arith)
    ∙ ap ok (regroup (same (is_in b.direction) inputs) ret b.type (types_of inputs before))

length-before :
    (before : List ArgInfo) (arg : ArgInfo) (after : List ArgInfo)
    → length before < length (before ++ arg ∷ after)
length-before [] arg after = omega arith
length-before (b ∷ before) arg after = omega (arith, length-before before arg after)

-- If the entry of a method is written that has an argument with an empty name, whose interface and
-- name are C strings and the names before are not empty, then both signatures that are read back end
-- before that argument.
pub signatures-empty_name :
    {I : Type 0} (dbus : SignatureIter I) (place : Place) (method : MethodInfo)
    (before : List ArgInfo) (arg : ArgInfo) (after : List ArgInfo) (s : Store) (blob rest : Bytes)
    (object : DBusGObjectInfo) (entry : DBusGMethodInfo) {blob' : Bytes}
    → load_args method.args s ≡ ok (before ++ arg ∷ after)
    → append_method dbus place method s blob ≡ ok blob'
    → has_char 0 place.interface ≡ false
    → has_char 0 place.method ≡ false
    → AllClean before
    → text arg.base.name ≡ []
    → object.blob ≡ blob' ++ rest
    → entry.data_offset ≡ length blob
    → (method_input_signature_from_object_info object entry ≡ ok (types_of true before))
      × (method_output_signature_from_object_info object entry ≡ ok (types_of false before))
unfolding method_input_signature_from_object_info method_output_signature_from_object_info
signatures-empty_name dbus place method before arg after s blob rest object entry loaded written ci
      cm clean empty here at =
    let (kind, p, nonzero, shape, t) =
      method-text dbus place method (before ++ arg ∷ after) s blob rest loaded written in
    let from : advance entry.data_offset object.blob
        ≡ ended place.interface (ended place.method (kind ∷ 0 ∷ p)) =
      rw (here, at, shape) (advance-append blob _) in
    let fits = length-before before arg after in
    let long = length-ArgsText (before ++ arg ∷ after) t in
    (
      dir_signature-at object entry place kind p true nonzero ci cm from
          ∙ loop-before before arg after true (suc (length p)) [] clean empty t (omega arith),
      dir_signature-at object entry place kind p false nonzero ci cm from
          ∙ loop-before before arg after false (suc (length p)) [] clean empty t (omega arith),
    )
