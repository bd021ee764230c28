-- ===== src/Memory.antt =====
-- Strings of C in memory. A pointer into a buffer is the part of the buffer that it leads to; a string
-- ends at the first NUL, and reading behind the buffer is a fault.
use dbus_glib.Prelude.{
  ℕ, zero, suc, ◌≤◌, ◌≡◌, refl, arith, false, [], ◌∷◌, ◌++◌, ◌==◌, length, Bytes, has_char,
  Bool-cases, inl, inr, if◌then◌else◌,
}
use dbus_glib.Outcome.{Outcome, ok, abort, ◌>>=◌, >>=-eq-ok}

unfoldable pub strlen : Bytes → Outcome ℕ
strlen [] = abort
strlen (c ∷ cs) = let rest = strlen cs in if c == 0 then ok 0 else (do n ← rest; ok (suc n))

-- `p += len`
unfoldable pub advance : ℕ → Bytes → Bytes
advance zero p = p
advance (suc len) [] = []
advance (suc len) (c ∷ p) = advance len p

-- the string that a pointer leads to
unfoldable pub string_at : Bytes → Outcome Bytes
string_at [] = abort
string_at (c ∷ cs) = let rest = string_at cs in if c == 0 then ok [] else (do s ← rest; ok (c ∷ s))

-- `*p`
abbrev pub char_at : Bytes → Outcome ℕ
char_at [] = abort
char_at (c ∷ p) = ok c

-- a string with no NUL, its NUL, and what follows
abbrev pub ended : Bytes → Bytes → Bytes
ended s rest = s ++ 0 ∷ rest

pub strlen-ended : (s rest : Bytes) → has_char 0 s ≡ false → strlen (ended s rest) ≡ ok (length s)
unfolding strlen has_char
strlen-ended [] rest h = refl
strlen-ended (c ∷ s) rest h = ground (arith, strlen-ended s rest)

pub string_at-ended : (s rest : Bytes) → has_char 0 s ≡ false → string_at (ended s rest) ≡ ok s
unfolding string_at has_char
string_at-ended [] rest h = refl
string_at-ended (c ∷ s) rest h = ground (arith, string_at-ended s rest)

pub advance-ended : (s rest : Bytes) → advance (suc (length s)) (ended s rest) ≡ rest
unfolding advance
advance-ended [] rest = refl
advance-ended (c ∷ s) rest = advance-ended s rest

pub advance-append : (s rest : Bytes) → advance (length s) (s ++ rest) ≡ rest
unfolding advance
advance-append [] rest = refl
advance-append (c ∷ s) rest = advance-append s rest

pub length-advance-le : (n : ℕ) (p : Bytes) → length (advance n p) ≤ length p
unfolding advance
length-advance-le zero p = omega arith
length-advance-le (suc n) [] = omega arith
length-advance-le (suc n) (c ∷ p) = omega (arith, length-advance-le n p)

pub ended_split :
    (a : Bytes) {n : ℕ}
    → strlen a ≡ ok n
    → (s : Bytes) × (rest : Bytes) × (a ≡ ended s rest) × (has_char 0 s ≡ false) × (length s ≡ n)
unfolding strlen has_char
ended_split [] h = cc
ended_split (c ∷ cs) {n} h = elim (Bool-cases (c == 0)) [
  | inl z ↦ ([], cs, ground arith, refl, ground arith)
  | inr nz ↦
      let (m, below, k) = >>=-eq-ok (strlen cs) _ (rw nz at h) in
      let (s, rest, e, clean, len) = ended_split cs below in
      (c ∷ s, rest, ground arith, ground arith, ground arith)
]
