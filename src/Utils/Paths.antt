-- ===== src/Utils/Paths.antt =====
-- `_dbus_gutils_split_path` inverts the joining of path components.
use dbus_glib.Prelude.{
  ℕ, zero, suc, ◌+◌, ◌≡◌, ◌≢◌, ◌↔◌, refl, sym, ap, ◌∙◌, ◌⊎◌, inl, inr, Bool, true, false, not, List,
  [], ◌∷◌, ◌++◌, ◌==◌, length, Bytes, arith, has_char, Bool-cases, if◌then◌else◌,
}
use dbus_glib.Outcome.{ok, abort, g_assert, >>=-eq-ok}
use dbus_glib.Utils.{count_slashes, component, skip_slash, is_nil, split_loop, split_path}

-- A component of an object path: not empty, with no '/'.
pub record IsComponent (name : Bytes) : Type 0 where
  pub ne_nil : is_nil name ≡ false
  pub no_slash : has_char b'/' name ≡ false

pub data AllComponents : List Bytes → Type 0 where
  nil : AllComponents []
  cons :
      {name : Bytes} {names : List Bytes}
      → IsComponent name
      → AllComponents names
      → AllComponents (name ∷ names)

abbrev pub join_path : List Bytes → Bytes
join_path [] = []
join_path (name ∷ names) = b'/' ∷ (name ++ join_path names)

count_slashes-append :
    (xs ys : Bytes) → count_slashes (xs ++ ys) ≡ count_slashes xs + count_slashes ys
unfolding count_slashes
count_slashes-append [] ys = omega arith
count_slashes-append (x ∷ xs) ys = ground (arith, count_slashes-append xs ys)

count_slashes-name : (name : Bytes) → has_char b'/' name ≡ false → count_slashes name ≡ 0
unfolding count_slashes has_char
count_slashes-name [] h = refl
count_slashes-name (c ∷ cs) h = ground (arith, count_slashes-name cs)

count_slashes-join_path :
    {names : List Bytes} → AllComponents names → count_slashes (join_path names) ≡ length names
unfolding count_slashes
count_slashes-join_path nil = refl
count_slashes-join_path (cons {name} {names} h t) = omega (
  arith,
  count_slashes-append name (join_path names),
  count_slashes-name name h.no_slash,
  count_slashes-join_path t,
)

join_path-AtSlash : (names : List Bytes) → component (join_path names) ≡ ([], join_path names)
unfolding component
join_path-AtSlash [] = refl
join_path-AtSlash (name ∷ names) = refl

component-append :
    (name rest : Bytes)
    → has_char b'/' name ≡ false
    → component rest ≡ ([], rest)
    → component (name ++ rest) ≡ (name, rest)
unfolding component has_char
component-append [] rest h at = at
component-append (c ∷ cs) rest h at = ground (arith, component-append cs rest)

split_loop-join_path :
    {names : List Bytes}
    → AllComponents names
    → split_loop (length names) (join_path names) ≡ ok names
unfolding split_loop skip_slash
split_loop-join_path nil = refl
split_loop-join_path (cons {name} {names} h t) =
    rw (component-append name (join_path names) h.no_slash (join_path-AtSlash names))
      (rw h.ne_nil (rw (split_loop-join_path t)))

-- what `component` found, put back
component-eq :
    (path : Bytes)
    → ((component path).0 ++ (component path).1 ≡ path)
      × (has_char b'/' (component path).0 ≡ false)
      × (component (component path).1 ≡ ([], (component path).1))
unfolding component has_char
component-eq [] = (refl, refl, refl)
component-eq (c ∷ cs) = ground (arith, component-eq cs)

skip_slash-eq :
    (rest : Bytes)
    → component rest ≡ ([], rest)
    → is_nil (component (skip_slash rest)).0 ≡ false
    → rest ≡ b'/' ∷ skip_slash rest
unfolding component skip_slash
skip_slash-eq [] at h = cc
skip_slash-eq (c ∷ cs) at h = elim (Bool-cases (c == b'/')) [
  | inl e ↦ rw e (ground arith)
  | inr e ↦ ground arith
]

g_assert-eq-ok : (b : Bool) {u : Unit {0}} → g_assert b ≡ ok u → b ≡ true
g_assert-eq-ok true h = refl
g_assert-eq-ok false h = cc

not-eq-true : (b : Bool) → not b ≡ true → b ≡ false
not-eq-true b h = ground arith

-- One round of the loop that went through, taken apart.
split_loop-suc :
    (n : ℕ) (rest : Bytes) {names : List Bytes}
    → split_loop (suc n) rest ≡ ok names
    → (more : List Bytes) × (is_nil (component (skip_slash rest)).0 ≡ false)
      × (split_loop n (component (skip_slash rest)).1 ≡ ok more)
      × (names ≡ (component (skip_slash rest)).0 ∷ more)
unfolding split_loop
split_loop-suc n rest h =
    let (u, a, k) = >>=-eq-ok (g_assert (not (is_nil (component (skip_slash rest)).0))) _ h in
    let (more, e, l) = >>=-eq-ok (split_loop n (component (skip_slash rest)).1) _ k in
    (more, not-eq-true _ (g_assert-eq-ok _ a), e, cc)

split_loop-zero :
    (rest : Bytes) {names : List Bytes}
    → split_loop zero rest ≡ ok names
    → (rest ≡ []) × (names ≡ [])
unfolding split_loop
split_loop-zero [] h = ground arith
split_loop-zero (c ∷ cs) h = cc

-- A run of the loop from a '/' or from the end has read exactly the joined components.
split_loop_sound :
    (n : ℕ) (rest : Bytes) {names : List Bytes}
    → component rest ≡ ([], rest)
    → split_loop n rest ≡ ok names
    → AllComponents names × (rest ≡ join_path names) × (length names ≡ n)
split_loop_sound zero rest at h =
    let (no_rest, no_names) = split_loop-zero rest h in rw (no_rest, no_names) (nil, refl, refl)
split_loop_sound (suc n) rest at h =
    let (more, full, later, e) = split_loop-suc n rest h in
    let (back, clean, at') = component-eq (skip_slash rest) in
    let (all, joined, count) = split_loop_sound n (component (skip_slash rest)).1 at' later in
    rw e (
      cons (record { ne_nil = full; no_slash = clean }) all,
      skip_slash-eq rest at full
          ∙ ap (◌∷◌ b'/') (sym back ∙ ap (λ r. (component (skip_slash rest)).0 ++ r) joined),
      ap suc count,
    )

-- Without a '/' in front there is one component more than the loop counted, and `i == len` fails.
split_loop_unrooted :
    (n : ℕ) (path : Bytes) {names : List Bytes}
    → count_slashes path ≡ suc n
    → skip_slash path ≡ path
    → split_loop (suc n) path ≡ ok names
    → ⊥
split_loop_unrooted n path counted bare h =
    let (more, full, later, e) = split_loop-suc n path h in
    let (back, clean, at) = component-eq (skip_slash path) in
    let (all, joined, count) = split_loop_sound n (component (skip_slash path)).1 at later in
    let same = back ∙ bare in
    let slashes = ap count_slashes same in
    let rest_slashes = ap count_slashes joined in
    omega (
      arith,
      sym slashes,
      rest_slashes,
      count_slashes-append (component (skip_slash path)).0 (component (skip_slash path)).1,
      count_slashes-name (component (skip_slash path)).0 clean,
      count_slashes-join_path all,
    )

-- How the two branches of `split_path` on `path[1] != '\0'` run.
abbrev IsOneByte : Bytes → Type 0
IsOneByte path = length path ≡ 1

split_path-long :
    (c d : ℕ) (cs : Bytes)
    → has_char 0 (d ∷ cs) ≡ false
    → split_path (c ∷ d ∷ cs) ≡ (
        if count_slashes (c ∷ d ∷ cs) == 0
        then abort
        else split_loop (count_slashes (c ∷ d ∷ cs)) (c ∷ d ∷ cs))
unfolding split_path has_char
split_path-long c d cs h = ground arith

starts : (c : ℕ) (cs : Bytes) → (c ≡ b'/') ⊎ (skip_slash (c ∷ cs) ≡ c ∷ cs)
unfolding skip_slash
starts c cs = ground arith

slash_at : (cs : Bytes) → component (b'/' ∷ cs) ≡ ([], b'/' ∷ cs)
unfolding component
slash_at cs = refl

pos_cases : (n : ℕ) → (n ≡ 0) ⊎ ((m : ℕ) × (n ≡ suc m))
pos_cases zero = inl refl
pos_cases (suc m) = inr (m, refl)

split_long_sound :
    (c d : ℕ) (cs : Bytes) {names : List Bytes}
    → split_loop (count_slashes (c ∷ d ∷ cs)) (c ∷ d ∷ cs) ≡ ok names
    → (count_slashes (c ∷ d ∷ cs) == 0) ≡ false
    → AllComponents names × (c ∷ d ∷ cs ≡ join_path names)
split_long_sound c d cs h some_slash = elim (starts c (d ∷ cs)) [
  | inl e ↦
      let (all, joined, count) =
        split_loop_sound (count_slashes (c ∷ d ∷ cs)) (c ∷ d ∷ cs) (rw e (slash_at (d ∷ cs))) h in
      (all, joined)
  | inr bare ↦ elim (pos_cases (count_slashes (c ∷ d ∷ cs))) [
    | inl z ↦ absurd (ground arith)
    | inr (m, e) ↦ absurd (split_loop_unrooted m (c ∷ d ∷ cs) e bare (rw e at h))
  ]
]

abbrev pub PathSplits : Bytes → List Bytes → Type 0
PathSplits path names =
    (IsOneByte path × (names ≡ []))
    ⊎ ((names ≢ []) × AllComponents names × (path ≡ join_path names))

tail_clean : (c d : ℕ) (cs : Bytes) → has_char 0 (c ∷ d ∷ cs) ≡ false → has_char 0 (d ∷ cs) ≡ false
unfolding has_char
tail_clean c d cs h = ground arith

ne_nil_of_join :
    (path : Bytes) {names : List Bytes} → path ≢ [] → path ≡ join_path names → names ≢ []
ne_nil_of_join path ne e n = ne (e ∙ ap join_path n)

split_path_sound :
    (path : Bytes) {names : List Bytes}
    → has_char 0 path ≡ false
    → split_path path ≡ ok names
    → PathSplits path names
split_path_sound [] nul h = absurd (unfold split_path in cc)
split_path_sound (c ∷ []) nul h = inl (refl, unfold split_path in cc)
split_path_sound (c ∷ d ∷ cs) {names} nul h = elim (Bool-cases (count_slashes (c ∷ d ∷ cs) == 0)) [
  | inl z ↦ absurd (ground (arith, split_path-long c d cs (tail_clean c d cs nul)))
  | inr nz ↦
      let run = sym (split_path-long c d cs (tail_clean c d cs nul)) ∙ h in
      let (all, joined) = split_long_sound c d cs (rw nz at run) nz in
      inr (ne_nil_of_join (c ∷ d ∷ cs) (λ n. cc) joined, all, joined)
]

split_path-join_path :
    {names : List Bytes}
    → AllComponents names
    → names ≢ []
    → has_char 0 (join_path names) ≡ false
    → split_path (join_path names) ≡ ok names
split_path-join_path nil ne nul = absurd (ne refl)
split_path-join_path (cons {name = []} h t) ne nul = cc (h.ne_nil)
split_path-join_path (cons {name = c ∷ cs} {names} h t) ne nul =
    rw
      (split_path-long b'/' c (cs ++ join_path names)
        (tail_clean b'/' c (cs ++ join_path names) nul))
      (rw (count_slashes-join_path (cons h t)) (ground (arith, split_loop-join_path (cons h t))))

split_path_complete :
    (path : Bytes) {names : List Bytes}
    → has_char 0 path ≡ false
    → PathSplits path names
    → split_path path ≡ ok names
split_path_complete [] nul (inl (one, e)) = absurd (omega arith)
split_path_complete (c ∷ []) nul (inl (one, e)) = rw e (unfold split_path in refl)
split_path_complete (c ∷ d ∷ cs) nul (inl (one, e)) = absurd (omega arith)
split_path_complete path {names} nul (inr (ne, all, e)) =
    rw e (split_path-join_path all ne (rw e at nul))

-- `_dbus_gutils_split_path` on a C string: it returns `names` exactly when the path is one byte
-- long and there are none, or when the path is '/' before each of one or more components, each not
-- empty and with no '/'.
pub split_path_iff :
    (path : Bytes) (names : List Bytes)
    → has_char 0 path ≡ false
    → (split_path path ≡ ok names) ↔ PathSplits path names
split_path_iff path names nul = (split_path_sound path nul, split_path_complete path nul)
