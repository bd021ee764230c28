-- ===== src/Tests/Object.antt =====
-- The theorems about dbus/dbus-gobject.c at concrete objects, and runs of it.
use dbus_glib.Prelude.{
  ◌≡◌, refl, true, false, Option, none, some, List, [], ◌∷◌, ◌++◌, ◌==◌, Bytes, codes, has_char,
  str_equal, if◌then◌else◌,
}
use dbus_glib.Outcome.{ok}
use dbus_glib.Idl.Data.{PropertyInfo, new_base, info_type_property}
use dbus_glib.BindingTool.Glue.{access_string}
use dbus_glib.BindingTool.Properties.{Exported, table}
use dbus_glib.Object.Metadata.{DBusGMethodInfo, DBusGObjectInfo}
use dbus_glib.Object.Lookup.{
  GObject, TypeData, Message, find_method, lookup_object_info_by_iface, lookup_object_and_method,
  both_found,
}
use dbus_glib.Object.Lookup.Ifaces.{chosen, first_fit, first_info, lookup_object_info_by_iface_lem}
use dbus_glib.Object.Lookup.Order.{AllAnswer, infos_of, last_answer, lookup_object_and_method_lem}
use dbus_glib.Object.Requests.{
  interface_not_exported, check_property_access, object_registration_message, invoke, access_denied,
  string_arg, variant_arg, not_settable,
}
use dbus_glib.Object.Access.{
  IsTable, decision, described, check_property_access-table, check_property_access-later_iface,
}
use dbus_glib.Object.Errors.{
  DBusErrorName, dbus_error_no_reply, dbus_set_g_error, gerror_to_dbus_error_message,
  error_domain_register, gerror_domaincode_to_dbus_error_name,
}
use dbus_glib.Object.Errors.Returned.{gerror_to_dbus_error_message-dbus_set_g_error}
use dbus_glib.Tests.BindingTool.{max_count}

abbrev entry : Bytes
entry =
    codes "com.a"
    ++ 0 ∷ codes "List"
    ++ 0 ∷ codes "S"
    ++ 0 ∷ codes "count"
    ++ 0 ∷ codes "I"
    ++ 0 ∷ codes "u"
    ++ 0 ∷ 0 ∷ []

abbrev with_method : DBusGObjectInfo
with_method = record {
  format_version = 1;
  method_infos = record { data_offset = 0 } ∷ [];
  blob = entry;
  exported_signals = none;
  exported_properties = none;
}

abbrev with_property : DBusGObjectInfo
with_property = record {
  format_version = 1;
  method_infos = [];
  blob = [];
  exported_signals = none;
  exported_properties = some (
      codes "com.a"
      ++ 0 ∷ codes "MaxCount"
      ++ 0 ∷ codes "max_count"
      ++ 0 ∷ codes "read"
      ++ 0 ∷ 0 ∷ []);
}

-- an interface with metadata, and a class with metadata of its own
abbrev types : TypeData
types = record {
  metadata = λ t. if t == 2 then some with_method else if t == 3 then some with_property else none;
  shadow = λ t. none;
}

abbrev object : GObject
object = record { interfaces = 2 ∷ []; classes = 3 ∷ [] }

lookup_object_info_by_iface_example :
    lookup_object_info_by_iface types object (some []) true
    ≡ ok (chosen (λ info. true) types object)
lookup_object_info_by_iface_example =
    lookup_object_info_by_iface_lem types object (some []) true (λ info. true) (λ t info e. refl)

-- The class replaces the interface.
chosen_runs : chosen (λ info. true) types object ≡ some (with_property, 3)
unfolding first_fit first_info
chosen_runs = refl

abbrev message : Message
message = record {
  interface = some (codes "com.a");
  member = codes "List";
  signature = codes "u";
  is_method_call = λ interface member. false;
}

abbrev answer : DBusGObjectInfo → Option DBusGMethodInfo
answer info = elim info.method_infos [ [] ↦ none | method ∷ methods ↦ some method ]

answers :
    AllAnswer answer message (infos_of types object.interfaces ++ infos_of types object.classes)
unfolding infos_of find_method
answers = (refl, (refl, tt))

lookup_object_and_method_example :
    (found : Option DBusGObjectInfo × Option DBusGMethodInfo) × (lookup_object_and_method types
        object message
      ≡ ok found)
    × (both_found found
        ≡ last_answer answer
            (infos_of types object.interfaces ++ infos_of types object.classes)
            none)
lookup_object_and_method_example = lookup_object_and_method_lem types object message answer answers

-- A call of a method is handed on, and the writing of a property that is only read is refused.
reactions :
    (object_registration_message true types object (λ s. true) message []
      ≡ ok (invoke with_method (record { data_offset = 0 })))
    × (object_registration_message true types object
          (λ s. true)
          (record message {
            interface = none;
            member = codes "Set";
            is_method_call = λ interface member. str_equal member (codes "Set");
          })
          (string_arg (codes "com.a") ∷ string_arg (codes "MaxCount") ∷ variant_arg ∷ [])
        ≡ ok (access_denied (not_settable (codes "MaxCount") (codes "com.a"))))
unfolding object_registration_message
reactions = (refl, refl)

abbrev props : List Exported
props = (codes "com.a", max_count) ∷ []

found_in_class :
    lookup_object_info_by_iface types object (some (codes "com.a")) true
    ≡ ok (some (with_property, 3))
unfolding lookup_object_info_by_iface
found_in_class = refl

props-IsTable : IsTable props [] with_property
unfolding table has_char
props-IsTable = (refl, refl, ((refl, (λ e. cc), refl), tt))

check_property_access-table_example :
    check_property_access false types object
      (codes "com.a")
      (codes "MaxCount")
      (codes "max_count")
      true
    ≡ ok (
        decision false
          (codes "com.a")
          (codes "MaxCount")
          true
          (described (codes "com.a") (codes "MaxCount") (codes "max_count") props))
check_property_access-table_example =
    check_property_access-table false types object (codes "com.a") (codes "MaxCount")
      (codes "max_count") true with_property 3 props [] found_in_class props-IsTable

-- a property of a second interface that may be written
abbrev volume : PropertyInfo
volume = record max_count {
  base = new_base info_type_property (some (codes "Volume"));
  access = record { property_read = true; property_write = true };
}

abbrev two_ifaces : DBusGObjectInfo
two_ifaces = record with_property {
  exported_properties = some (
      codes "com.a"
      ++ 0 ∷ codes "MaxCount"
      ++ 0 ∷ codes "max_count"
      ++ 0 ∷ codes "read"
      ++ 0 ∷ codes "com.b"
      ++ 0 ∷ codes "Volume"
      ++ 0 ∷ codes "volume"
      ++ 0 ∷ codes "readwrite"
      ++ 0 ∷ 0 ∷ []);
}

two_ifaces-IsTable :
    IsTable ((codes "com.a", max_count) ∷ (codes "com.b", volume) ∷ []) [] two_ifaces
unfolding table has_char
two_ifaces-IsTable = (refl, refl, ((refl, (λ e. cc), refl), ((refl, (λ e. cc), refl), tt)))

max_count-access :
    (access_string max_count.access ≡ some (codes "read"))
    × (str_equal (codes "com.a") (codes "com.b") ≡ false)
unfolding access_string str_equal
max_count-access = (refl, refl)

check_property_access-later_iface_example :
    check_property_access false
      (record { metadata = λ t. some two_ifaces; shadow = λ t. none })
      (record { interfaces = []; classes = 3 ∷ [] })
      (codes "com.b")
      (codes "Volume")
      (codes "volume")
      true
    ≡ ok (some (interface_not_exported (codes "com.b") (codes "Volume")))
check_property_access-later_iface_example =
    check_property_access-later_iface false
      (record { metadata = λ t. some two_ifaces; shadow = λ t. none }) 3 99 (codes "om.b")
      (codes "Volume") (codes "volume") (codes "com.a") two_ifaces max_count
      ((codes "com.b", volume) ∷ []) [] (codes "read") refl two_ifaces-IsTable max_count-access.0
      max_count-access.1

abbrev text : DBusErrorName → Bytes
text dbus_error_no_reply = codes "org.freedesktop.DBus.Error.NoReply"
text name = codes "org.freedesktop.DBus.Error.Failed"

no_nul : (has_char 0 (codes "com.a.Full") ≡ false) × (has_char 0 (codes "no room") ≡ false)
unfolding has_char
no_nul = (refl, refl)

gerror_to_dbus_error_message-dbus_set_g_error_example :
    gerror_to_dbus_error_message text
      (λ d. none)
      (λ e c. none)
      []
      (some (codes "com.a"))
      (codes "Put")
      (some (dbus_set_g_error text (codes "com.a.Full") (some (codes "no room"))))
    ≡ ok (codes "com.a.Full", codes "no room")
gerror_to_dbus_error_message-dbus_set_g_error_example =
    gerror_to_dbus_error_message-dbus_set_g_error text (λ d. none) (λ e c. none) []
      (some (codes "com.a")) (codes "Put") (codes "com.a.Full") (codes "no room") no_nul.0 no_nul.1

-- a domain that is registered, and one that is not
domains :
    (gerror_domaincode_to_dbus_error_name text
        (λ d. some (codes "my-error"))
        (λ e c. some (codes "not-happy"))
        (error_domain_register (λ d. some (codes "my-error")) (λ t. true) 1 none 7 [])
        (some (codes "com.a"))
        1
        3
      ≡ codes "com.a.notHappy")
    × (gerror_domaincode_to_dbus_error_name text
          (λ d. some (codes "my-error"))
          (λ e c. some (codes "not-happy"))
          (error_domain_register (λ d. some (codes "my-error")) (λ t. true) 1 none 7 [])
          (some (codes "com.a"))
          2
          4294967295
        ≡ codes "org.freedesktop.DBus.GLib.UnmappedError.MyError.Code4294967295")
unfolding gerror_domaincode_to_dbus_error_name error_domain_register
domains = (refl, refl)
