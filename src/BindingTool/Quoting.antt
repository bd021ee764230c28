-- ===== src/BindingTool/Quoting.antt =====
-- The string literals that dbus/dbus-binding-tool-glib.c writes, as a C compiler reads them.
use dbus_glib.Prelude.{
  ℕ, ◌+◌, ◌-◌, ◌*◌, ◌%◌, ◌≡◌, refl, arith, Bool, true, false, not, ◌&&◌, Option, none, some, [],
  ◌∷◌, ◌++◌, ◌==◌, leb, ltb, Bytes, codes, Bool-cases, inl, inr, ◌∙◌, if◌then◌else◌,
}
use dbus_glib.BindingTool.Server.{quoted_bytes}

-- Where a compiler is in a literal: at a plain byte, behind a backslash, or in an octal escape that may
-- have so many more digits and has this value.
pub data Mode : Type 0 where
  plain escape : Mode
  octal : ℕ → ℕ → Mode

abbrev pub is_octal : ℕ → Bool
is_octal c = leb b'0' c && leb c b'7'

abbrev cons_byte : ℕ → Option Bytes → Option Bytes
cons_byte c none = none
cons_byte c (some s) = some (c ∷ s)

-- a byte that no escape takes; the quote ends the literal
abbrev plain_byte : ℕ → (Mode → Option Bytes) → Option Bytes
plain_byte c next =
    if c == b'"'
    then some []
    else if c == b'\\'
    then next escape
    else if c == 10
    then none
    else cons_byte c (next plain)

-- a literal behind its opening quote, with octal escapes only
unfoldable pub read_literal : Mode → Bytes → Option Bytes
read_literal mode [] = none
read_literal plain (c ∷ cs) = plain_byte c (λ mode. read_literal mode cs)
read_literal escape (c ∷ cs) =
    let digits = read_literal (octal 2 (c - 48)) cs in if is_octal c then digits else none
read_literal (octal left value) (c ∷ cs) =
    let digits = read_literal (octal (left - 1) (value * 8 + (c - 48))) cs in
    let done = cons_byte (value % 256) (plain_byte c (λ mode. read_literal mode cs)) in
    if ltb 0 left && is_octal c then digits else done

-- no quote, backslash or line end, and no digit of an octal number behind a NUL
abbrev pub is_printable : ℕ → Bool
is_printable c = not (c == b'"') && not (c == b'\\') && not (c == 10)

abbrev starts_octal : Bytes → Bool
starts_octal [] = false
starts_octal (c ∷ cs) = is_octal c

abbrev pub is_quotable : Bytes → Bool
is_quotable [] = true
is_quotable (c ∷ cs) = is_printable c && not (c == 0 && starts_octal cs) && is_quotable cs

-- an escape for NUL, before a byte that is no octal digit
read-nul :
    (c : ℕ) (cs : Bytes)
    → is_octal c ≡ false
    → read_literal plain (b'\\' ∷ b'0' ∷ c ∷ cs) ≡ cons_byte 0 (read_literal plain (c ∷ cs))
unfolding read_literal
read-nul c cs h = ground (arith, h)

read-plain :
    (c : ℕ) (cs : Bytes)
    → is_printable c ≡ true
    → read_literal plain (c ∷ cs) ≡ cons_byte c (read_literal plain cs)
unfolding read_literal
read-plain c cs h = ground (arith, h)

-- what follows a byte of the quoted string starts with no octal digit, if the string does not
not_octal-quoted :
    (s : Bytes)
    → starts_octal s ≡ false
    → (c : ℕ) × (cs : Bytes) × (quoted_bytes s ++ codes "\\0\"" ≡ c ∷ cs) × (is_octal c ≡ false)
unfolding quoted_bytes
not_octal-quoted [] h = (b'\\', codes "0\"", refl, refl)
not_octal-quoted (x ∷ s) h = elim (Bool-cases (x == 0)) [
  | inl z ↦ (b'\\', b'0' ∷ quoted_bytes s ++ codes "\\0\"", ground (arith, z), refl)
  | inr z ↦ (x, quoted_bytes s ++ codes "\\0\"", ground (arith, z), h)
]

-- A blob that has no quote, backslash or line end and no octal digit behind a NUL is the value of the
-- literal that is written for it, with one more NUL at its end.
pub read_literal-quoted_bytes :
    (s : Bytes)
    → is_quotable s ≡ true
    → read_literal plain (quoted_bytes s ++ codes "\\0\"") ≡ some (s ++ 0 ∷ [])
unfolding quoted_bytes
read_literal-quoted_bytes [] h = unfold read_literal in refl
read_literal-quoted_bytes (c ∷ s) h =
    let rest = read_literal-quoted_bytes s (ground arith) in
    elim (Bool-cases (c == 0)) [
      | inl z ↦
          let (d, ds, e, plain_next) = not_octal-quoted s (ground arith) in
          let tail : read_literal plain (d ∷ ds) ≡ some (s ++ 0 ∷ []) = rw (← e) rest in
          rw (quoted_bytes, z, e) (read-nul d ds plain_next ∙ rw tail (ground arith))
      | inr nz ↦
          rw (quoted_bytes, nz)
            (read-plain c (quoted_bytes s ++ codes "\\0\"") (ground arith) ∙ rw rest refl)
    ]
