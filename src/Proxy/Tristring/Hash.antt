-- ===== src/Proxy/Tristring/Hash.antt =====
-- Equal keys of `proxy_lists` have equal hashes.
use dbus_glib.Prelude.{
  ℕ, suc, ◌≡◌, refl, sym, ap, ◌∙◌, arith, Bool, true, false, Option, none, some, [], ◌∷◌, length,
  Bytes, has_char, str_equal_iff,
}
use dbus_glib.Outcome.{Outcome, ok, >>=-eq-ok}
use dbus_glib.Memory.{strlen, advance, ended, advance-ended, ended_split}
use dbus_glib.Proxy.Tristring.{
  strequal_len, string_equal, tristring_equal, hash_string, mix, guint_of_char, hash_first,
  tristring_hash,
}
use dbus_glib.Proxy.Tristring.Laws.{strequal_len-ended}

hash_of : ℕ → Bytes → ℕ
hash_of h [] = h
hash_of h (c ∷ s) = hash_of (mix h c) s

hash_string-ended :
    (h : ℕ) (s rest : Bytes)
    → has_char 0 s ≡ false
    → hash_string h (ended s rest) ≡ ok (hash_of h s, rest)
unfolding hash_string hash_of has_char
hash_string-ended h [] rest e = refl
hash_string-ended h (c ∷ s) rest e = ground (arith, hash_string-ended (mix h c) s rest)

-- Two pointers to equal strings, with what follows them.
strequal_len-strlen :
    (a b : Bytes) {n : ℕ}
    → strequal_len a b ≡ ok (some n)
    → ((k : ℕ) × (strlen a ≡ ok k)) × ((l : ℕ) × (strlen b ≡ ok l))
unfolding strequal_len
strequal_len-strlen a b h =
    let (k, ka, h1) = >>=-eq-ok (strlen a) _ h in
    let (l, lb, h2) = >>=-eq-ok (strlen b) _ h1 in ((k, ka), (l, lb))

equal_ended :
    (s t r q : Bytes) {n : ℕ}
    → has_char 0 s ≡ false
    → has_char 0 t ≡ false
    → strequal_len (ended s r) (ended t q) ≡ ok (some n)
    → (t ≡ s) × (length s ≡ n)
equal_ended s t r q hs ht h =
    let run = strequal_len-ended s t r q hs ht in
    let same = str_equal_iff s t in (ground arith, ground arith)

split_equal :
    (a b : Bytes) {n : ℕ}
    → strequal_len a b ≡ ok (some n)
    → (s : Bytes) × (r : Bytes) × (q : Bytes) × (a ≡ ended s r)
      × (b ≡ ended s q)
      × (has_char 0 s ≡ false)
      × (length s ≡ n)
split_equal a b h =
    let ((k, ka), (l, lb)) = strequal_len-strlen a b h in
    let (s, r, ea, cs, ls) = ended_split a ka in
    let (t, q, eb, ct, lt') = ended_split b lb in
    let (same, len) =
      equal_ended s t r q cs ct
        (sym (ap (λ u. strequal_len u b) ea ∙ ap (strequal_len (ended s r)) eb) ∙ h) in
    (s, r, q, ea, eb ∙ ap (λ u. ended u q) same, cs, len)

hash_first_of : Bytes → ℕ
unfolding hash_of
hash_first_of [] = 0
hash_first_of (c ∷ s) = hash_of (guint_of_char c) s

hash_first-ended :
    (s rest : Bytes) → has_char 0 s ≡ false → hash_first (ended s rest) ≡ ok (hash_first_of s, rest)
unfolding hash_first_of has_char
hash_first-ended [] rest e = refl
hash_first-ended (c ∷ s) rest e = ground (arith, hash_string-ended (guint_of_char c) s rest)

-- the three strings of two equal keys, and what follows them
data SameStrings (a b : Bytes) : Type 0 where
  same :
      (n p i r q : Bytes)
      → a ≡ ended n (ended p (ended i r))
      → b ≡ ended n (ended p (ended i q))
      → has_char 0 n ≡ false
      → has_char 0 p ≡ false
      → has_char 0 i ≡ false
      → SameStrings a b

equal_third :
    (a b : Bytes) → string_equal a b ≡ ok true → (n : ℕ) × (strequal_len a b ≡ ok (some n))
unfolding string_equal
equal_third a b h = ground arith

was_some :
    (o : Option ℕ) (k : ℕ → Outcome Bool)
    → (elim o [ none ↦ ok false | some n ↦ k n ]) ≡ ok true
    → (n : ℕ) × (o ≡ some n) × (k n ≡ ok true)
was_some none k h = cc
was_some (some n) k h = (n, refl, h)

equal_parts :
    (a b : Bytes)
    → tristring_equal a b ≡ ok true
    → (n : ℕ) × (m : ℕ) × (strequal_len a b ≡ ok (some n))
      × (strequal_len (advance (suc n) a) (advance (suc n) b) ≡ ok (some m))
      × (string_equal (advance (suc m) (advance (suc n) a)) (advance (suc m) (advance (suc n) b))
          ≡ ok true)
unfolding tristring_equal
equal_parts a b h =
    let (first, f, h1) = >>=-eq-ok (strequal_len a b) _ h in
    let (n, at_n, h2) = was_some first _ h1 in
    let (second, g, h3) = >>=-eq-ok (strequal_len (advance (suc n) a) (advance (suc n) b)) _ h2 in
    let (m, at_m, h4) = was_some second _ h3 in (n, m, f ∙ ap ok at_n, g ∙ ap ok at_m, h4)

advance_to : (a s r : Bytes) {n : ℕ} → a ≡ ended s r → length s ≡ n → advance (suc n) a ≡ r
advance_to a s r e l = rw (e, sym l) (advance-ended s r)

moved :
    {B : Type 0} (f : Bytes → Bytes → Outcome B) {a b a' b' : Bytes} {o : Outcome B}
    → a ≡ a'
    → b ≡ b'
    → f a b ≡ o
    → f a' b' ≡ o
moved f {b = b} {a'} ea eb h = sym (ap (λ u. f u b) ea ∙ ap (f a') eb) ∙ h

same_strings :
    (a b : Bytes) {n m : ℕ}
    → strequal_len a b ≡ ok (some n)
    → strequal_len (advance (suc n) a) (advance (suc n) b) ≡ ok (some m)
    → string_equal (advance (suc m) (advance (suc n) a)) (advance (suc m) (advance (suc n) b))
      ≡ ok true
    → SameStrings a b
same_strings a b {n} {m} h1 h2 h3 =
    let (s, r, q, ea, eb, cs, ls) = split_equal a b h1 in
    let to_r = advance_to a s r ea ls in
    let to_q = advance_to b s q eb ls in
    let (t, r2, q2, er, eq', ct, lt') = split_equal r q (moved strequal_len to_r to_q h2) in
    let to_r2 = ap (advance (suc m)) to_r ∙ advance_to r t r2 er lt' in
    let to_q2 = ap (advance (suc m)) to_q ∙ advance_to q t q2 eq' lt' in
    let (k, third) = equal_third r2 q2 (moved string_equal to_r2 to_q2 h3) in
    let (u, r3, q3, er2, eq2, cu, lu) = split_equal r2 q2 third in
    same s t u r3 q3 (ea ∙ ap (ended s) (er ∙ ap (ended t) er2))
      (eb ∙ ap (ended s) (eq' ∙ ap (ended t) eq2)) cs ct cu

same_hash :
    (a b : Bytes)
    → SameStrings a b
    → (h : ℕ) × (tristring_hash a ≡ ok h) × (tristring_hash b ≡ ok h)
unfolding tristring_hash
same_hash a b (same n p i r q ea eb hn hp hi) =
    let first = hash_first-ended n (ended p (ended i r)) hn in
    let first' = hash_first-ended n (ended p (ended i q)) hn in
    let second = hash_string-ended (hash_first_of n) p (ended i r) hp in
    let second' = hash_string-ended (hash_first_of n) p (ended i q) hp in
    let third = hash_string-ended (hash_of (hash_first_of n) p) i r hi in
    let third' = hash_string-ended (hash_of (hash_first_of n) p) i q hi in
    (
      hash_of (hash_of (hash_first_of n) p) i,
      rw (ea, first, second, third) refl,
      rw (eb, first', second', third') refl,
    )

-- The hash function of `proxy_lists` fits its test for equality: of any two buffers that
-- `tristring_equal` finds equal, whatever stands behind their third strings, `tristring_hash` makes
-- the same number.
pub tristring_equal-tristring_hash :
    (a b : Bytes)
    → tristring_equal a b ≡ ok true
    → (h : ℕ) × (tristring_hash a ≡ ok h) × (tristring_hash b ≡ ok h)
tristring_equal-tristring_hash a b h =
    let (n, m, h1, h2, h3) = equal_parts a b h in same_hash a b (same_strings a b h1 h2 h3)
