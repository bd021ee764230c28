-- ===== src/Utils/Names.antt =====
-- `_dbus_gutils_wincaps_to_uscore` and `uscore_to_wincaps` on names whose words start with one capital.
use dbus_glib.Prelude.{
  ℕ, ◌-◌, ◌≡◌, refl, ap, ◌∙◌, inl, inr, Bool, true, false, not, ◌&&◌, ◌||◌, [], ◌∷◌, ◌++◌, ◌==◌,
  length, get_or, Bytes, arith, Bool-cases, if◌then◌else◌, append_assoc, append-nil, length-append,
}
use dbus_glib.Utils.{
  is_upper, to_lower, to_upper, wants_uscore, wincaps_byte, wincaps_loop, wincaps_to_uscore,
  uscore_loop, uscore_to_wincaps,
}

-- A name of words that each start with a capital and go on, past it, with one or more bytes that
-- are no capital, '_' or '-'.
abbrev is_plain : ℕ → Bool
is_plain c = not (is_upper c) && not (c == b'_') && not (c == b'-')

-- what may follow: the flag says that a capital has just been read
abbrev pub is_wincaps : Bool → Bytes → Bool
is_wincaps capital [] = not capital
is_wincaps capital (c ∷ cs) =
    if is_upper c then not capital && is_wincaps true cs else is_plain c && is_wincaps false cs

abbrev pub starts_upper : Bytes → Bool
starts_upper [] = false
starts_upper (c ∷ cs) = is_upper c

abbrev pub no_capital : Bytes → Bool
no_capital [] = true
no_capital (c ∷ cs) = not (is_upper c) && no_capital cs

no_capital-append :
    (xs ys : Bytes) → no_capital xs ≡ true → no_capital ys ≡ true → no_capital (xs ++ ys) ≡ true
no_capital-append [] ys h k = k
no_capital-append (x ∷ xs) ys h k = ground (arith, no_capital-append xs ys)

no_capital-wincaps_byte :
    (str : Bytes) (c : ℕ) → no_capital str ≡ true → no_capital (wincaps_byte str c) ≡ true
unfolding wincaps_byte
no_capital-wincaps_byte str c h = ground (
  arith,
  no_capital-append str (b'_' ∷ to_lower c ∷ []) h,
  no_capital-append str (to_lower c ∷ []) h,
  no_capital-append str (c ∷ []) h,
)

no_capital-wincaps_loop :
    (caps str : Bytes) → no_capital str ≡ true → no_capital (wincaps_loop str caps) ≡ true
unfolding wincaps_loop
no_capital-wincaps_loop [] str h = h
no_capital-wincaps_loop (c ∷ caps) str h =
    no_capital-wincaps_loop caps (wincaps_byte str c) (no_capital-wincaps_byte str c h)

-- the last byte is not '_'
abbrev last_ok : Bytes → Bool
last_ok [] = true
last_ok (x ∷ []) = not (x == b'_')
last_ok (x ∷ y ∷ r) = last_ok (y ∷ r)

last_ok-append : (xs : Bytes) (c : ℕ) → last_ok (xs ++ c ∷ []) ≡ not (c == b'_')
last_ok-append [] c = refl
last_ok-append (x ∷ []) c = refl
last_ok-append (x ∷ y ∷ r) c = last_ok-append (y ∷ r) c

get_or-last :
    (x : ℕ) (xs : Bytes) (c : ℕ)
    → last_ok (x ∷ xs) ≡ true
    → (get_or (x ∷ xs ++ c ∷ []) (length xs) 0 == b'_') ≡ false
get_or-last x [] c h = ground arith
get_or-last x (y ∷ r) c h = get_or-last y r c h

-- Behind a byte other than '_' there is room for a new word.
wants_uscore-concat :
    (str : Bytes) (c : ℕ) → last_ok str ≡ true → wants_uscore (str ++ c ∷ []) ≡ true
unfolding wants_uscore
wants_uscore-concat [] c h = ground arith
wants_uscore-concat (x ∷ xs) c h =
    let two : length (x ∷ xs ++ c ∷ []) - 2 ≡ length xs =
      omega (arith, length-append xs (c ∷ [])) in
    rw two (ground (arith, get_or-last x xs c h))

-- `uscore_loop` with its two variables as a pair.
abbrev uscore_step : Bool × Bytes → ℕ → Bool × Bytes
uscore_step (last, str) c =
    let skip = c == b'-' || c == b'_' in
    (skip, if skip then str else str ++ (if last then to_upper c else c) ∷ [])

uscore_run : Bool × Bytes → Bytes → Bool × Bytes
uscore_run s [] = s
uscore_run s (c ∷ cs) = uscore_run (uscore_step s c) cs

uscore_loop-run :
    (cs str : Bytes) (last : Bool) → uscore_loop last true str cs ≡ (uscore_run (last, str) cs).1
unfolding uscore_loop uscore_run
uscore_loop-run [] str last = refl
uscore_loop-run (c ∷ cs) str last =
    let (skip, str') = uscore_step (last, str) c in uscore_loop-run cs str' skip

uscore_run-append :
    (s : Bool × Bytes) (xs ys : Bytes) → uscore_run s (xs ++ ys) ≡ uscore_run (uscore_run s xs) ys
unfolding uscore_run
uscore_run-append s [] ys = refl
uscore_run-append s (x ∷ xs) ys = uscore_run-append (uscore_step s x) xs ys

run_capital :
    (c : ℕ) (str out : Bytes)
    → is_upper c ≡ true
    → uscore_run (true, []) str ≡ (false, out)
    → uscore_run (true, []) (str ++ b'_' ∷ to_lower c ∷ []) ≡ (false, out ++ c ∷ [])
unfolding uscore_run
run_capital c str out up r =
    uscore_run-append (true, []) str (b'_' ∷ to_lower c ∷ []) ∙ rw r (ground arith)

run_plain :
    (c : ℕ) (str out : Bytes)
    → is_plain c ≡ true
    → uscore_run (true, []) str ≡ (false, out)
    → uscore_run (true, []) (str ++ c ∷ []) ≡ (false, out ++ c ∷ [])
unfolding uscore_run
run_plain c str out h r = uscore_run-append (true, []) str (c ∷ []) ∙ rw r (ground arith)

last_ok-append2 : (str : Bytes) (a c : ℕ) → last_ok (str ++ a ∷ c ∷ []) ≡ not (c == b'_')
last_ok-append2 str a c =
    rw (← append_assoc str (a ∷ []) (c ∷ [])) (last_ok-append (str ++ a ∷ []) c)

wincaps_loop-run :
    (caps : Bytes) (capital : Bool) (str out : Bytes)
    → is_wincaps capital caps ≡ true
    → uscore_run (true, []) str ≡ (false, out)
    → last_ok str ≡ true
    → (capital || wants_uscore str) ≡ true
    → uscore_run (true, []) (wincaps_loop str caps) ≡ (false, out ++ caps)
unfolding wincaps_loop
wincaps_loop-run [] capital str out w r l k = rw append-nil r
wincaps_loop-run (c ∷ caps) capital str out w r l k = elim (Bool-cases (is_upper c)) [
  | inl up ↦
      let str' : Bytes = str ++ b'_' ∷ to_lower c ∷ [] in
      let pushed : wincaps_byte str c ≡ str' = unfold wincaps_byte in ground arith in
      rw (pushed, ← append_assoc out (c ∷ []) caps)
        (wincaps_loop-run caps true str' (out ++ c ∷ []) (ground arith) (run_capital c str out up r)
          (last_ok-append2 str b'_' (to_lower c) ∙ ground arith) refl)
  | inr low ↦
      let str' : Bytes = str ++ c ∷ [] in
      let pushed : wincaps_byte str c ≡ str' = unfold wincaps_byte in ground arith in
      rw (pushed, ← append_assoc out (c ∷ []) caps)
        (wincaps_loop-run caps false str' (out ++ c ∷ []) (ground arith)
          (run_plain c str out (ground arith) r) (last_ok-append str c ∙ ground arith)
          (wants_uscore-concat str c l))
]

wincaps_to_uscore-run :
    (c : ℕ) (caps : Bytes)
    → is_upper c ≡ true
    → is_wincaps true caps ≡ true
    → uscore_run (true, []) (wincaps_to_uscore (c ∷ caps)) ≡ (false, c ∷ caps)
unfolding wincaps_to_uscore
wincaps_to_uscore-run c caps up w =
    let pushed : wincaps_byte [] c ≡ to_lower c ∷ [] =
      unfold wincaps_byte wants_uscore in ground arith in
    rw pushed (
      wincaps_loop-run caps true (to_lower c ∷ []) (c ∷ []) w (unfold uscore_run in ground arith)
        (ground arith) refl)

-- `_dbus_gutils_wincaps_to_uscore` leaves no capital letter in any name.
pub no_capital-wincaps_to_uscore : (caps : Bytes) → no_capital (wincaps_to_uscore caps) ≡ true
unfolding wincaps_to_uscore
no_capital-wincaps_to_uscore caps = no_capital-wincaps_loop caps [] refl

-- A name of one or more words, each a capital letter and then one or more bytes that are neither
-- capitals nor '_' nor '-', comes back from `_dbus_gutils_wincaps_to_uscore` and
-- `uscore_to_wincaps` as it was.
pub uscore_to_wincaps-wincaps_to_uscore :
    (caps : Bytes)
    → is_wincaps false caps ≡ true
    → starts_upper caps ≡ true
    → uscore_to_wincaps (wincaps_to_uscore caps) ≡ caps
uscore_to_wincaps-wincaps_to_uscore [] w s = cc
uscore_to_wincaps-wincaps_to_uscore (c ∷ caps) w s =
    unfold uscore_to_wincaps in
    uscore_loop-run (wincaps_to_uscore (c ∷ caps)) [] true
    ∙ ap (λ (p : Bool × Bytes). p.1) (wincaps_to_uscore-run c caps s (ground arith))
