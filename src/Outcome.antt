-- ===== src/Outcome.antt =====
-- What a C function that may fail comes to: it returns, it sets the `GError` and returns FALSE, or
-- the process stops in a `g_assert` or at a pointer that leads to no live object.
use dbus_glib.Prelude.{
  ◌≡◌, ◌≢◌, refl, sym, ap, subst, ◌∙◌, arith, Bytes, Bool, true, false, Option, none, some,
}

-- what `DBUS_BINDING_TOOL_ERROR_INVALID_ANNOTATION` reports of an argument
pub data AnnotationFault : Type 0 where
  const_input repeated_return input_return late_return silent_return invalid_return :
      AnnotationFault

-- The `G_MARKUP_ERROR_PARSE` messages of dbus/dbus-gparser.c, by what they name; `dbus_error` is an
-- error that libdbus set, converted by `dbus_set_g_error`; `malformed_xml` is an error of Expat. The last
-- two are errors of dbus/dbus-binding-tool-glib.c, of an argument, its method and its interface.
pub data GError : Type 0 where
  repeated_attribute : Bytes → Bytes → GError
  invalid_attribute : Bytes → Bytes → GError
  wrong_doctype : Bytes → GError
  cannot_put_here : Bytes → GError
  attribute_required : Bytes → Bytes → GError
  must_be_absolute : Bytes → GError
  must_not_be_absolute : Bytes → GError
  not_interface_name : Bytes → GError
  not_member_name : Bytes → GError
  dbus_error : Bytes → GError
  bad_access : Bytes → GError
  not_utf8 : Bytes → GError
  signal_not_out : GError
  bad_direction : Bytes → GError
  not_recognized : Bytes → GError
  malformed_xml : GError
  unsupported_conversion : Bytes → GError
  invalid_annotation : AnnotationFault → Bytes → Bytes → Bytes → GError

pub data Outcome {ℓ} (A : Type ℓ) : Type ℓ where
  ok : A → Outcome A
  err : GError → Outcome A
  abort : Outcome A

infixl 5 ◌>>=◌ ◌>>◌
abbrev pub ◌>>=◌ {ℓ κ} : {A : Type ℓ} {B : Type κ} → Outcome A → (A → Outcome B) → Outcome B
ok a >>= f = f a
err e >>= f = err e
abort >>= f = abort

abbrev pub ◌>>◌ {ℓ} : {B : Type ℓ} → Outcome (Unit {0}) → Outcome B → Outcome B
m >> k = m >>= λ _. k

-- `g_assert (b)`
abbrev pub g_assert : Bool → Outcome (Unit {0})
g_assert true = ok tt
g_assert false = abort

-- A pointer that is used without a test for NULL.
abbrev pub or_abort {ℓ} : {A : Type ℓ} → Option A → Outcome A
or_abort none = abort
or_abort (some a) = ok a

-- A test whose failure sets the error and returns.
abbrev pub guard : Bool → GError → Outcome (Unit {0})
guard true e = ok tt
guard false e = err e

-- What a chain that returned went through.
pub >>=-eq-ok {ℓ κ} :
    {A : Type ℓ} {B : Type κ} {last : B} (first : Outcome A) (next : A → Outcome B)
    → (first >>= next) ≡ ok last
    → (middle : A) × (first ≡ ok middle) × (next middle ≡ ok last)
>>=-eq-ok abort next returns = cc
>>=-eq-ok (err e) next returns = cc
>>=-eq-ok (ok middle) next returns = (middle, refl, returns)

pub >>=-congr {ℓ κ} :
    {A : Type ℓ} {B : Type κ} (m : Outcome A) (f g : A → Outcome B)
    → ((a : A) → f a ≡ g a)
    → (m >>= f) ≡ (m >>= g)
>>=-congr (ok a) f g h = h a
>>=-congr (err e) f g h = refl
>>=-congr abort f g h = refl

pub >>=_assoc {ℓ κ ι} :
    {A : Type ℓ} {B : Type κ} {C : Type ι} (m : Outcome A) (f : A → Outcome B) (g : B → Outcome C)
    → (m >>= f >>= g) ≡ (m >>= λ a. f a >>= g)
>>=_assoc (ok a) f g = refl
>>=_assoc (err e) f g = refl
>>=_assoc abort f g = refl

-- The function does not stop the process, and what it returns satisfies `P`.
pub data Returns {A : Type 0} (P : A → Type 0) (o : Outcome A) : Type 0 where
  returned : (a : A) → o ≡ ok a → P a → Returns P o
  failed : (e : GError) → o ≡ err e → Returns P o

module _ {A : Type 0} {P : A → Type 0} where
  pub Returns-ok : {a : A} → P a → Returns P (ok a)
  Returns-ok {a} h = returned a refl h

  pub Returns-ne-abort : (o : Outcome A) → Returns P o → o ≢ abort
  Returns-ne-abort o (returned a e h) k = cc
  Returns-ne-abort o (failed x e) k = cc

  pub Returns-eq-ok : (o : Outcome A) {a : A} → Returns P o → o ≡ ok a → P a
  Returns-eq-ok o (returned b e h) k = subst P (ok-injective (sym e ∙ k)) h
    where
      unwrap : A → Outcome A → A
      unwrap d (ok a) = a
      unwrap d _ = d

      ok-injective : {a b : A} → ok a ≡ ok b → a ≡ b
      ok-injective {a} h = ap (unwrap a) h
  Returns-eq-ok o (failed x e) k = cc

  pub Returns-of : (o : Outcome A) → o ≢ abort → ((a : A) → o ≡ ok a → P a) → Returns P o
  Returns-of (ok a) h k = returned a refl (k a refl)
  Returns-of (err e) h k = failed e refl
  Returns-of abort h k = absurd (h refl)

module _ {A B : Type 0} {P : A → Type 0} {Q : B → Type 0} where
  pub Returns-bind :
      (o : Outcome A) (f : A → Outcome B)
      → Returns P o
      → ((a : A) → P a → Returns Q (f a))
      → Returns Q (o >>= f)
  Returns-bind o f (returned a e h) k = rw e (k a h)
  Returns-bind o f (failed x e) k = rw e (failed x refl)

  -- The rest may use which value came back.
  pub Returns-bind_eq :
      (o : Outcome A) (f : A → Outcome B)
      → Returns P o
      → ((a : A) → o ≡ ok a → P a → Returns Q (f a))
      → Returns Q (o >>= f)
  Returns-bind_eq o f (returned a e h) k = rw e (k a e h)
  Returns-bind_eq o f (failed x e) k = rw e (failed x refl)

module _ {A : Type 0} {P Q : A → Type 0} where
  pub Returns-map : (o : Outcome A) → Returns P o → ((a : A) → P a → Q a) → Returns Q o
  Returns-map o (returned a e h) k = returned a e (k a h)
  Returns-map o (failed x e) k = failed x e

  pub Returns-map_eq :
      (o : Outcome A) → Returns P o → ((a : A) → o ≡ ok a → P a → Q a) → Returns Q o
  Returns-map_eq o (returned a e h) k = returned a e (k a e h)
  Returns-map_eq o (failed x e) k = failed x e

pub Returns-guard : (b : Bool) (e : GError) → Returns (λ u. b ≡ true) (guard b e)
Returns-guard true e = Returns-ok refl
Returns-guard false e = failed e refl

pub Returns-or_abort :
    {A : Type 0} (o : Option A) (a : A) → o ≡ some a → Returns (λ b. b ≡ a) (or_abort o)
Returns-or_abort none a h = cc
Returns-or_abort (some b) a h = returned b refl (ground arith)
