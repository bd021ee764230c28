-- ===== src/BindingTool/Encoding.antt =====
-- The form of what dbus/dbus-binding-tool-glib.c writes for the arguments of a method.
use dbus_glib.Prelude.{
  ℕ, ◌≡◌, refl, ◌∙◌, arith, Bool, false, not, ◌⊎◌, List, [], ◌∷◌, ◌++◌, ◌==◌, Bytes, append_assoc,
  Bool-cases, Option-cases, inl, inr,
}
use dbus_glib.Outcome.{ok, repeated_return, input_return, late_return, guard, >>=-eq-ok}
use dbus_glib.Memory.{ended}
use dbus_glib.Idl.Data.{ArgInfo, ArgDirection, arg_invalid, arg_in, arg_out, hash_lookup}
use dbus_glib.Signature.{SignatureIter}
use dbus_glib.Idl.Members.{is_in}
use dbus_glib.BindingTool.Marshallers.{is_annotated, const, returnval}
use dbus_glib.BindingTool.Glue.{
  text, c_string, fault, Place, Entry, direction_letter, const_flag, retval_letter, retval_flag,
  append_arg, append_args,
}

abbrev pub in_text : ArgInfo → Bytes → Bytes
in_text arg rest = ended (text arg.base.name) (b'I' ∷ 0 ∷ ended arg.type rest)

abbrev pub out_text : ArgInfo → ℕ → ℕ → Bytes → Bytes
out_text arg c r rest = ended (text arg.base.name) (b'O' ∷ 0 ∷ c ∷ 0 ∷ r ∷ 0 ∷ ended arg.type rest)

-- `p` is the text of an argument and then `rest`.
pub data ArgText (arg : ArgInfo) : Bytes → Bytes → Type 0 where
  an_input : arg.direction ≡ arg_in → (rest : Bytes) → ArgText arg (in_text arg rest) rest
  an_output :
      arg.direction ≡ arg_out
      → (c r : ℕ) → (c == 0) ≡ false
      → (r == 0) ≡ false
      → (rest : Bytes) → ArgText arg (out_text arg c r rest) rest

pub data ArgsText : List ArgInfo → Bytes → Bytes → Type 0 where
  no_args : (rest : Bytes) → ArgsText [] rest rest
  next_arg :
      {arg : ArgInfo} {args : List ArgInfo} {p q rest : Bytes}
      → ArgText arg p q
      → ArgsText args q rest
      → ArgsText (arg ∷ args) p rest

direction_letter-cases :
    (d : ArgDirection) {letter : ℕ}
    → direction_letter d ≡ ok letter
    → ((d ≡ arg_in) × (letter ≡ b'I')) ⊎ ((d ≡ arg_out) × (letter ≡ b'O'))
direction_letter-cases arg_in h = inl (refl, ground arith)
direction_letter-cases arg_out h = inr (refl, ground arith)
direction_letter-cases arg_invalid h = cc

const_flag-in :
    (place : Place) (arg : ArgInfo) {flag : Bytes}
    → arg.direction ≡ arg_in
    → const_flag place arg ≡ ok flag
    → flag ≡ []
unfolding const_flag
const_flag-in place arg d h = ground arith

const_flag-out :
    (place : Place) (arg : ArgInfo) {flag : Bytes}
    → arg.direction ≡ arg_out
    → const_flag place arg ≡ ok flag
    → (c : ℕ) × ((c == 0) ≡ false) × (flag ≡ c ∷ 0 ∷ [])
unfolding const_flag
const_flag-out place arg d h = elim (Bool-cases (is_annotated const arg.annotations)) [
  | inl a ↦ (b'C', refl, ground arith)
  | inr a ↦ (b'F', refl, ground arith)
]

pub c_string-append : (s rest : Bytes) → c_string s ++ rest ≡ ended s rest
c_string-append s rest = append_assoc s (0 ∷ []) rest

in_blob :
    (blob name type rest : Bytes)
    → blob ++ (c_string name ++ (c_string (b'I' ∷ []) ++ c_string type)) ++ rest
      ≡ blob ++ ended name (b'I' ∷ 0 ∷ ended type rest)
in_blob blob name type rest =
    rw
      (
        append_assoc blob (c_string name ++ (c_string (b'I' ∷ []) ++ c_string type)) rest,
        append_assoc (c_string name) (c_string (b'I' ∷ []) ++ c_string type) rest,
        c_string-append type rest,
        c_string-append name (b'I' ∷ 0 ∷ ended type rest),
      )
      refl

out_blob :
    (blob name type rest : Bytes) (c r : ℕ)
    → blob ++ (c_string name ++ (c_string (b'O' ∷ []) ++ (c ∷ 0 ∷ r ∷ 0 ∷ c_string type))) ++ rest
      ≡ blob ++ ended name (b'O' ∷ 0 ∷ c ∷ 0 ∷ r ∷ 0 ∷ ended type rest)
out_blob blob name type rest c r =
    let flags = c_string (b'O' ∷ []) ++ (c ∷ 0 ∷ r ∷ 0 ∷ c_string type) in
    rw
      (
        append_assoc blob (c_string name ++ flags) rest,
        append_assoc (c_string name) flags rest,
        c_string-append type rest,
        c_string-append name (b'O' ∷ 0 ∷ c ∷ 0 ∷ r ∷ 0 ∷ ended type rest),
      )
      refl

module _ {I : Type 0} (dbus : SignatureIter I) where
  retval_letter-nonzero :
      (place : Place) (arg : ArgInfo) (annotation : Bytes) {letter : ℕ}
      → retval_letter dbus place arg annotation ≡ ok letter
      → (letter == 0) ≡ false
  unfolding retval_letter
  retval_letter-nonzero place arg annotation h = ground arith

  retval_flag-in :
      (place : Place) (arg : ArgInfo) (found : Bool) (n : ℕ) {flag : Bytes × Bool}
      → arg.direction ≡ arg_in
      → retval_flag dbus place arg found n ≡ ok flag
      → flag ≡ ([], found)
  unfolding retval_flag
  retval_flag-in place arg found n d h = ground arith

  retval_flag-out :
      (place : Place) (arg : ArgInfo) (found : Bool) (n : ℕ) {flag : Bytes × Bool}
      → arg.direction ≡ arg_out
      → retval_flag dbus place arg found n ≡ ok flag
      → (r : ℕ) × ((r == 0) ≡ false) × (flag.0 ≡ r ∷ 0 ∷ [])
  unfolding retval_flag
  retval_flag-out place arg found n {flag} d h =
      elim (Option-cases (hash_lookup returnval arg.annotations)) [
        | inl a ↦ (b'N', refl, ground arith)
        | inr (annotation, a) ↦
            let (once, e1, h1) =
              >>=-eq-ok (guard (not found) (fault repeated_return place arg)) _
                (rw (retval_flag, a) at h) in
            let (out, e2, h2) =
              >>=-eq-ok (guard (not (is_in arg.direction)) (fault input_return place arg)) _ h1 in
            let (first, e3, h3) = >>=-eq-ok (guard (n == 1) (fault late_return place arg)) _ h2 in
            let (letter, e4, h4) = >>=-eq-ok (retval_letter dbus place arg annotation) _ h3 in
            (letter, retval_letter-nonzero place arg annotation e4, ground arith)
      ]

  arg_text :
      (place : Place) (arg : ArgInfo) (blob : Bytes) (found : Bool) (n : ℕ) {letter : ℕ}
      {flag : Bytes} {ret : Bytes × Bool} {blob' : Bytes}
      → direction_letter arg.direction ≡ ok letter
      → const_flag place arg ≡ ok flag
      → retval_flag dbus place arg found n ≡ ok ret
      → blob'
        ≡ blob
          ++ (c_string (text arg.base.name)
              ++ (c_string (letter ∷ []) ++ (flag ++ (ret.0 ++ c_string arg.type))))
      → (rest : Bytes) → (p : Bytes) × (blob' ++ rest ≡ blob ++ p) × ArgText arg p rest
  arg_text place arg blob found n {letter} {flag} {ret} {blob'} e1 e2 e3 b rest =
      elim (direction_letter-cases arg.direction e1) [
        | inl (d, i) ↦
            let f = const_flag-in place arg d e2 in
            let g = retval_flag-in place arg found n d e3 in
            (
              in_text arg rest,
              rw (b, i, f, g) (in_blob blob (text arg.base.name) arg.type rest),
              an_input d rest,
            )
        | inr (d, o) ↦
            let (c, nz, f) = const_flag-out place arg d e2 in
            let (r, nz', g) = retval_flag-out place arg found n d e3 in
            (
              out_text arg c r rest,
              rw (b, o, f, g) (out_blob blob (text arg.base.name) arg.type rest c r),
              an_output d c r nz nz' rest,
            )
      ]

  append_arg-parts :
      (place : Place) (arg : ArgInfo) (entry : Entry) {entry' : Entry}
      → append_arg dbus place arg entry ≡ ok entry'
      → (letter : ℕ) × (flag : Bytes) × (n : ℕ) × (ret : Bytes × Bool) × (direction_letter
            arg.direction
          ≡ ok letter)
        × (const_flag place arg ≡ ok flag)
        × (retval_flag dbus place arg entry.found_retval n ≡ ok ret)
        × (entry'.blob
            ≡ entry.blob
              ++ (c_string (text arg.base.name)
                  ++ (c_string (letter ∷ []) ++ (flag ++ (ret.0 ++ c_string arg.type)))))
  unfolding append_arg
  append_arg-parts place arg entry {entry'} h =
      let (letter, e1, h1) = >>=-eq-ok (direction_letter arg.direction) _ h in
      let (flag, e2, h2) = >>=-eq-ok (const_flag place arg) _ h1 in
      let (ret, e3, h3) = >>=-eq-ok (retval_flag dbus place arg entry.found_retval _) _ h2 in
      (letter, flag, _, ret, e1, e2, e3, ground arith)

  append_arg-text :
      (place : Place) (arg : ArgInfo) (entry : Entry) {entry' : Entry}
      → append_arg dbus place arg entry ≡ ok entry'
      → (rest : Bytes) → (p : Bytes) × (entry'.blob ++ rest ≡ entry.blob ++ p) × ArgText arg p rest
  append_arg-text place arg entry {entry'} h rest =
      let (letter, flag, n, ret, e1, e2, e3, b) = append_arg-parts place arg entry h in
      arg_text place arg entry.blob entry.found_retval n e1 e2 e3 b rest

  pub append_args-text :
      (place : Place) (args : List ArgInfo) (entry : Entry) {entry' : Entry}
      → append_args dbus place args entry ≡ ok entry'
      → (rest : Bytes)
      → (p : Bytes) × (entry'.blob ++ rest ≡ entry.blob ++ p) × ArgsText args p rest
  unfolding append_args
  append_args-text place [] entry h rest = (rest, ground arith, no_args rest)
  append_args-text place (arg ∷ args) entry h rest =
      let (middle, e, h') = >>=-eq-ok (append_arg dbus place arg entry) _ h in
      let (q, f, more) = append_args-text place args middle h' rest in
      let (p, g, one) = append_arg-text place arg entry e q in (p, f ∙ g, next_arg one more)
