-- ===== src/Tests/Signature.antt =====
-- An iterator over the text of a signature, as libdbus has it, with the laws that the proofs about
-- dbus/dbus-gsignature.c take of it, and those theorems at concrete signatures.
use dbus_glib.Prelude.{
  ℕ, suc, ◌-◌, ◌≡◌, refl, arith, true, false, not, ◌||◌, [], ◌∷◌, ◌++◌, ◌==◌, Bytes, codes,
  append_assoc, append-nil, if◌then◌else◌, sym,
}
use dbus_glib.Outcome.{ok, ◌>>=◌}
use dbus_glib.Types.{is_invalid, gtype_can_signal_error}
use dbus_glib.Signature.{
  SignatureIter, is_container, gtype_from_signature, gtypes_from_arg_signature,
}
use dbus_glib.Signature.Refinement.{gtype_from_signature-print, gtypes_from_arg_signature-print}
use dbus_glib.Signature.Errors.{
  has_type, is_error_type, gtype_from_signature-has_type, can_signal_error-gtype_from_signature,
}
use dbus_glib.Signature.Trees.{
  BasicType, boolean, int32, string, unix_fd, SigType, SigTypes, basic, variant, array, dict_entry,
  struct, none_left, then_type, code_of, typecode, print, print_all, IterLaws, gtype_of, list_of,
}

-- the typecode of what a signature goes on with
abbrev current : Bytes → ℕ
current [] = 0
current (c ∷ cs) =
    if c == b'(' then b'r' else if c == b'{' then b'e' else if c == b')' || c == b'}' then 0 else c

abbrev behind : Bytes → Bytes
behind [] = []
behind (c ∷ cs) = cs

-- what follows one complete type: the number of brackets that are open, none inside an array yet
unfoldable pub skip : ℕ → Bytes → Bytes
skip open_brackets [] = []
skip open_brackets (c ∷ cs) =
    let one = if open_brackets == 0 then cs else skip open_brackets cs in
    let fewer = if open_brackets == 1 then cs else skip (open_brackets - 1) cs in
    let more = skip (suc open_brackets) cs in
    let same = skip open_brackets cs in
    if c == b'a'
    then same
    else if c == b'(' || c == b'{'
    then more
    else if c == b')' || c == b'}'
    then fewer
    else one

abbrev over : ℕ → Bytes → Bytes
over open_brackets r = if open_brackets == 0 then r else skip open_brackets r

close_bracket : (n : ℕ) (r : Bytes) → (if suc n == 1 then r else skip (suc n - 1) r) ≡ over n r
close_bracket n r = ground arith

opened : (n : ℕ) (r : Bytes) → over (suc n) r ≡ skip (suc n) r
opened n r = ground arith

mutual
  unfolding skip print

  skip-print : (t : SigType) (n : ℕ) (r : Bytes) → skip n (print t ++ r) ≡ over n r
  skip-print (basic boolean) n r = refl
  skip-print (basic _) n r = refl
  skip-print variant n r = refl
  skip-print (array t) n r = skip-print t n r
  skip-print (dict_entry k v) n r =
      let end = b'}' ∷ r in
      rw
        (
          append_assoc (print k ++ print v) (b'}' ∷ []) r,
          append_assoc (print k) (print v) end,
          skip-print k (suc n) (print v ++ end),
          opened n (print v ++ end),
          skip-print v (suc n) end,
          opened n end,
        )
        (close_bracket n r)
  skip-print (struct t ts) n r =
      let end = b')' ∷ r in
      rw
        (
          append_assoc (print t ++ print_all ts) (b')' ∷ []) r,
          append_assoc (print t) (print_all ts) end,
          skip-print t (suc n) (print_all ts ++ end),
          opened n (print_all ts ++ end),
          skip_all-print ts n end,
        )
        (close_bracket n r)

  skip_all-print :
      (ts : SigTypes) (n : ℕ) (r : Bytes) → skip (suc n) (print_all ts ++ r) ≡ skip (suc n) r
  skip_all-print none_left n r = refl
  skip_all-print (then_type t ts) n r =
      rw
        (
          append_assoc (print t) (print_all ts) r,
          skip-print t (suc n) (print_all ts ++ r),
          opened n (print_all ts ++ r),
        )
        (skip_all-print ts n r)

abbrev pub iterator : SignatureIter Bytes
iterator = record {
  init = λ s. s;
  get_current_type = current;
  recurse = behind;
  next = λ p. (not (current (skip 0 p) == 0), skip 0 p);
  type_is_basic = λ c. not (is_container c);
  type_is_container = is_container;
  validate = λ s. true;
}

-- `ts` are to come, up to a place where no type starts
abbrev AtText : Bytes → SigTypes → Type 0
AtText p ts = (end : Bytes) × (current end ≡ 0) × (p ≡ print_all ts ++ end)

current-print : (t : SigType) (r : Bytes) → current (print t ++ r) ≡ typecode t
unfolding print
current-print (basic boolean) r = refl
current-print (basic _) r = refl
current-print _ r = refl

at_next :
    (t : SigType) (ts : SigTypes) (p : Bytes) → AtText p (then_type t ts) → AtText (skip 0 p) ts
unfolding print
at_next t ts p (end, stop, e) = (
  end,
  stop,
  rw (e, append_assoc (print t) (print_all ts) end, skip-print t 0 (print_all ts ++ end)) refl,
)

at_type :
    (t : SigType) (ts : SigTypes) (p : Bytes) → AtText p (then_type t ts) → current p ≡ typecode t
unfolding print
at_type t ts p (end, stop, e) =
    rw (e, append_assoc (print t) (print_all ts) end) (current-print t (print_all ts ++ end))

at_end : (p : Bytes) → AtText p none_left → current p ≡ 0
unfolding print
at_end p (end, stop, e) = rw e stop

at_array :
    (t : SigType) (ts : SigTypes) (p : Bytes)
    → AtText p (then_type (array t) ts)
    → AtText (behind p) (then_type t ts)
unfolding print
at_array t ts p (end, stop, e) = (end, stop, rw e refl)

at_entry :
    (k v : SigType) (ts : SigTypes) (p : Bytes)
    → AtText p (then_type (dict_entry k v) ts)
    → AtText (behind p) (then_type k (then_type v none_left))
unfolding print
at_entry k v ts p (end, stop, e) = (
  b'}' ∷ print_all ts ++ end,
  refl,
  rw e (
      rw
        (
          append-nil (print v),
          append_assoc (print k ++ print v ++ b'}' ∷ []) (print_all ts) end,
          append_assoc (print k ++ print v) (b'}' ∷ []) (print_all ts ++ end),
        )
        refl),
)

at_struct :
    (t : SigType) (us ts : SigTypes) (p : Bytes)
    → AtText p (then_type (struct t us) ts)
    → AtText (behind p) (then_type t us)
unfolding print
at_struct t us ts p (end, stop, e) = (
  b')' ∷ print_all ts ++ end,
  refl,
  rw e (
      rw
        (
          append_assoc (print t ++ print_all us ++ b')' ∷ []) (print_all ts) end,
          append_assoc (print t ++ print_all us) (b')' ∷ []) (print_all ts ++ end),
        )
        refl),
)

typecode-nonzero : (t : SigType) → (typecode t == 0) ≡ false
typecode-nonzero (basic boolean) = refl
typecode-nonzero (basic _) = refl
typecode-nonzero _ = refl

next_more :
    (t u : SigType) (ts : SigTypes) (p : Bytes)
    → AtText p (then_type t (then_type u ts))
    → not (current (skip 0 p) == 0) ≡ true
next_more t u ts p at =
    rw (at_type u ts (skip 0 p) (at_next t (then_type u ts) p at), typecode-nonzero u) refl

next_last :
    (t : SigType) (p : Bytes)
    → AtText p (then_type t none_left)
    → not (current (skip 0 p) == 0) ≡ false
next_last t p at = rw (at_end (skip 0 p) (at_next t none_left p at)) refl

basic_types : (b : BasicType) → not (is_container (code_of b)) ≡ true
basic_types boolean = refl
basic_types _ = refl

pub iterator_laws : IterLaws iterator
iterator_laws = record {
  At = AtText;
  AtTop = AtText;
  top_init = λ ts valid. ([], refl, sym (append-nil (print_all ts)));
  top_next = λ {i} {t} {ts} at. at_next t ts i at;
  top_end = λ {i} at. at_end i at;
  at_top = λ at. at;
  at_type = λ {i} {t} {ts} at. at_type t ts i at;
  at_array = λ {i} {t} {ts} at. (ts, at_array t ts i at);
  at_entry = λ {i} {k} {v} {ts} at. at_entry k v ts i at;
  at_struct = λ {i} {t} {us} {ts} at. at_struct t us ts i at;
  at_next = λ {i} {t} {ts} at. at_next t ts i at;
  next_more = λ {i} {t} {u} {ts} at. next_more t u ts i at;
  next_last = λ {i} {t} at. next_last t i at;
  basic_types = basic_types;
  container_types = λ c h. h;
}

-- "a{sas}(ih)"
abbrev a_map : SigType
a_map = array (dict_entry (basic string) (array (basic string)))

abbrev a_struct : SigTypes
a_struct = then_type (struct (basic int32) (then_type (basic unix_fd) none_left)) none_left

signature_prints : print_all (then_type a_map a_struct) ≡ codes "a{sas}(ih)"
unfolding print
signature_prints = refl

gtype_from_signature-print_example :
    gtype_from_signature iterator (print_all (then_type a_map a_struct)) ≡ ok (gtype_of a_map)
gtype_from_signature-print_example =
    gtype_from_signature-print iterator iterator_laws a_map a_struct refl

gtypes_from_arg_signature-print_example :
    gtypes_from_arg_signature iterator (print_all (then_type a_map a_struct))
    ≡ ok (list_of (then_type a_map a_struct))
gtypes_from_arg_signature-print_example =
    gtypes_from_arg_signature-print iterator iterator_laws (then_type a_map a_struct) refl

gtype_from_signature-has_type_example :
    (do type ← gtype_from_signature iterator (print_all a_struct); ok (is_invalid type))
    ≡ ok (not (has_type (struct (basic int32) (then_type (basic unix_fd) none_left))))
gtype_from_signature-has_type_example =
    gtype_from_signature-has_type iterator iterator_laws
      (struct (basic int32) (then_type (basic unix_fd) none_left)) none_left refl

can_signal_error-gtype_from_signature_example :
    (do
      type ← gtype_from_signature iterator (print_all (then_type a_map a_struct))
      ok (gtype_can_signal_error type))
    ≡ ok (is_error_type a_map)
can_signal_error-gtype_from_signature_example =
    can_signal_error-gtype_from_signature iterator iterator_laws a_map a_struct refl
