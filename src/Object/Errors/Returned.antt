-- ===== src/Object/Errors/Returned.antt =====
-- Errors of D-Bus that dbus/dbus-gobject.c makes a GError and sends again.
use dbus_glib.Prelude.{
  ℕ, ◌≡◌, ◌⊎◌, refl, sym, ap, ◌∙◌, arith, has_char, inl, inr, Bool-cases, str_equal_iff, false,
  Option, some, List, [], ◌∷◌, Bytes, str_equal,
}
use dbus_glib.Outcome.{ok}
use dbus_glib.Memory.{ended, advance-ended, strlen-ended, string_at-ended}
use dbus_glib.Object.Errors.{
  DBusErrorName, DBusGError, dbus_gerror_remote_exception, in_dbus_gerror, error_name_of,
  comparisons, compare_names, DBusGErrorInfo, dbus_error_to_gerror_code, message_of,
  dbus_set_g_error, error_get_name, gerror_to_dbus_error_message,
}

-- a comparison gives the code whose name is the constant
abbrev AllPaired : List (DBusErrorName × DBusGError) → Type 0
AllPaired [] = Unit
AllPaired ((name, error_code) ∷ rest) = (error_name_of error_code ≡ some name) × AllPaired rest

abbrev IsCodeOf : (DBusErrorName → Bytes) → Bytes → DBusGError → Type 0
IsCodeOf text derr error_code =
    ((name : DBusErrorName) × (error_name_of error_code ≡ some name) × (text name ≡ derr))
    ⊎ (error_code ≡ dbus_gerror_remote_exception)

compare_names-IsCodeOf :
    (text : DBusErrorName → Bytes) (derr : Bytes) (list : List (DBusErrorName × DBusGError))
    → AllPaired list
    → IsCodeOf text derr (compare_names text derr list)
unfolding compare_names
compare_names-IsCodeOf text derr [] h = inr refl
compare_names-IsCodeOf text derr ((name, error_code) ∷ rest) (here, h) =
    elim (Bool-cases (str_equal derr (text name))) [
      | inl same ↦ rw same (inl (name, here, sym ((str_equal_iff derr (text name)).0 same)))
      | inr other ↦ rw other (compare_names-IsCodeOf text derr rest h)
    ]

comparisons-AllPaired : AllPaired comparisons
unfolding error_name_of
comparisons-AllPaired = (
  refl,
  (
    refl,
    (
      refl,
      (
        refl,
        (
          refl,
          (
            refl,
            (
              refl,
              (
                refl,
                (
                  refl,
                  (
                    refl,
                    (
                      refl,
                      (
                        refl,
                        (
                          refl,
                          (
                            refl,
                            (
                              refl,
                              (
                                refl,
                                (
                                  refl,
                                  (
                                    refl,
                                    (
                                      refl,
                                      (
                                        refl,
                                        (
                                          refl,
                                          (
                                            refl,
                                            (
                                              refl,
                                              (
                                                refl,
                                                (
                                                  refl,
                                                  (
                                                    refl,
                                                    (
                                                      refl,
                                                      (refl, (refl, (refl, (refl, (refl, tt))))),
                                                    ),
                                                  ),
                                                ),
                                              ),
                                            ),
                                          ),
                                        ),
                                      ),
                                    ),
                                  ),
                                ),
                              ),
                            ),
                          ),
                        ),
                      ),
                    ),
                  ),
                ),
              ),
            ),
          ),
        ),
      ),
    ),
  ),
)

message_of-known :
    (error_code : DBusGError) (derr message : Bytes) {name : DBusErrorName}
    → error_name_of error_code ≡ some name
    → message_of error_code derr (some message) ≡ ended message []
unfolding error_name_of
message_of-known error_code derr message h = ground arith

error_get_name-ended :
    (name message : Bytes)
    → has_char 0 name ≡ false
    → has_char 0 message ≡ false
    → error_get_name (ended message (ended name [])) ≡ ok name
unfolding error_get_name
error_get_name-ended name message clean clean' =
    rw (strlen-ended message (ended name []) clean', advance-ended message (ended name []))
      (string_at-ended name [] clean)

module _ (text : DBusErrorName → Bytes) (quark_to_string : ℕ → Option Bytes)
    (value_nick : ℕ → ℕ → Option Bytes) (error_metadata : List (ℕ × DBusGErrorInfo))
    (interface : Option Bytes) (member name message : Bytes) (clean : has_char 0 name ≡ false)
    (clean' : has_char 0 message ≡ false) where
  reply_of :
      (error_code : DBusGError)
      → IsCodeOf text name error_code
      → gerror_to_dbus_error_message text quark_to_string value_nick error_metadata interface member
          (some (in_dbus_gerror error_code (message_of error_code name (some message))))
        ≡ ok (name, message)
  unfolding gerror_to_dbus_error_message error_name_of
  reply_of error_code (inl (constant, known, is_name)) = ground (
    arith,
    known,
    is_name,
    message_of-known error_code name message known,
    string_at-ended message [] clean',
  )
  reply_of error_code (inr remote) =
      ap
        (λ c.
          gerror_to_dbus_error_message text quark_to_string value_nick error_metadata interface
            member (some (in_dbus_gerror c (message_of c name (some message)))))
        remote
      ∙ rw
          (
            error_get_name-ended name message clean clean',
            string_at-ended message (ended name []) clean',
          )
          refl

-- An error of D-Bus with a name and a message, both C strings, that is made a GError and sent as the answer
-- to a call, keeps its name and its message, whether libdbus defines the name or not.
pub gerror_to_dbus_error_message-dbus_set_g_error :
    (text : DBusErrorName → Bytes) (quark_to_string : ℕ → Option Bytes)
    (value_nick : ℕ → ℕ → Option Bytes) (error_metadata : List (ℕ × DBusGErrorInfo))
    (interface : Option Bytes) (member name message : Bytes)
    → has_char 0 name ≡ false
    → has_char 0 message ≡ false
    → gerror_to_dbus_error_message text quark_to_string value_nick error_metadata interface member
        (some (dbus_set_g_error text name (some message)))
      ≡ ok (name, message)
unfolding dbus_set_g_error dbus_error_to_gerror_code
gerror_to_dbus_error_message-dbus_set_g_error text quark_to_string value_nick error_metadata
      interface member name message clean clean' =
    reply_of text quark_to_string value_nick error_metadata interface member name message clean
      clean' (dbus_error_to_gerror_code text name)
      (compare_names-IsCodeOf text name comparisons comparisons-AllPaired)
