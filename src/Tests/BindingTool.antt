-- ===== src/Tests/BindingTool.antt =====
-- The theorems about dbus/dbus-binding-tool-glib.c at concrete descriptions, and runs of it.
use dbus_glib.Prelude.{
  ℕ, ◌≡◌, ◌≢◌, refl, true, false, none, some, List, [], ◌∷◌, ◌++◌, Bytes, codes, has_char,
}
use dbus_glib.Outcome.{Outcome, ok, err, abort, ◌>>=◌}
use dbus_glib.Memory.{string_at}
use dbus_glib.Heap.{alloc}
use dbus_glib.Idl.Data.{
  Store, ArgInfo, MethodInfo, PropertyInfo, ArgDirection, arg_in, arg_out, empty_store, new_base,
  info_type_method, info_type_arg, info_type_property, info_type_interface, info_type_node,
}
use dbus_glib.Object.Metadata.{
  DBusGMethodInfo, DBusGObjectInfo, method_interface_from_object_info, method_name_from_object_info,
  method_input_signature_from_object_info, method_output_signature_from_object_info,
  property_info_from_object_info,
}
use dbus_glib.Signature.Trees.{basic, string, uint32, array, none_left, then_type, print_all}
use dbus_glib.BindingTool.Marshallers.{load_args, compute_marshaller, compute_marshaller_name}
use dbus_glib.BindingTool.Glue.{Place, DBusBindingToolCData, append_method, generate_properties}
use dbus_glib.BindingTool.Server.{output_glib_server, quoted_bytes}
use dbus_glib.BindingTool.ReadBack.{AllClean, signatures-append_method}
use dbus_glib.BindingTool.EmptyNames.{signatures-empty_name}
use dbus_glib.BindingTool.Properties.{find_access, table}
use dbus_glib.BindingTool.PropertyTable.{find_access-generate_properties, load_properties}
use dbus_glib.BindingTool.Totality.{compute_marshaller-ne-abort}
use dbus_glib.BindingTool.Quoting.{read_literal, plain, read_literal-quoted_bytes}
use dbus_glib.Tests.Signature.{iterator, iterator_laws}

abbrev arg : Bytes → ArgDirection → Bytes → ArgInfo
arg name direction type = record {
  base = new_base info_type_arg (some name);
  type = type;
  direction = direction;
  annotations = [];
}

-- Three arguments: "count" in, one with an empty name in, and "names" out.
abbrev described : Store
described = record empty_store {
  args =
      alloc
        (alloc (alloc empty_store.args (arg (codes "count") arg_in (codes "u")))
          (arg [] arg_in (codes "s")))
        (arg (codes "names") arg_out (codes "as"));
  properties = alloc empty_store.properties (record {
    base = new_base info_type_property (some (codes "MaxCount"));
    type = codes "u";
    access = record { property_read = true; property_write = false };
  });
}

abbrev method_with : List ℕ → MethodInfo
method_with args = record {
  base = new_base info_type_method (some (codes "List"));
  annotations = [];
  args = args;
}

abbrev place : Place
place = record { interface = codes "com.a"; method = codes "List" }

abbrev bytes_of : Outcome Bytes → Bytes
bytes_of (ok s) = s
bytes_of (err e) = []
bytes_of abort = []

abbrev runs : Unit {0}
unfolding append_method has_char load_args load_properties generate_properties print_all
    output_glib_server quoted_bytes compute_marshaller_name table
runs = tt

-- behind a first byte of another entry
abbrev listed : Bytes
listed = bytes_of (append_method iterator place (method_with (0 ∷ 2 ∷ [])) described (7 ∷ []))

abbrev exporting : Bytes → DBusGObjectInfo
exporting blob = record {
  format_version = 1;
  method_infos = [];
  blob = blob;
  exported_signals = none;
  exported_properties = none;
}

abbrev at_one : DBusGMethodInfo
at_one = record { data_offset = 1 }

written :
    (load_args (0 ∷ 2 ∷ []) described
      ≡ ok (arg (codes "count") arg_in (codes "u") ∷ arg (codes "names") arg_out (codes "as") ∷ []))
    × (append_method iterator place (method_with (0 ∷ 2 ∷ [])) described (7 ∷ []) ≡ ok listed)
    × (has_char 0 (codes "com.a") ≡ false)
    × (has_char 0 (codes "List") ≡ false)
unfolding runs
written = (refl, refl, refl, refl)

clean :
    AllClean
      (arg (codes "count") arg_in (codes "u") ∷ arg (codes "names") arg_out (codes "as") ∷ [])
unfolding has_char
clean = ((refl, (λ e. cc), refl), ((refl, (λ e. cc), refl), tt))

signatures-append_method_example :
    ((do p ← method_interface_from_object_info (exporting (listed ++ 9 ∷ [])) at_one; string_at p)
      ≡ ok (codes "com.a"))
    × ((do p ← method_name_from_object_info (exporting (listed ++ 9 ∷ [])) at_one; string_at p)
        ≡ ok (codes "List"))
    × (method_input_signature_from_object_info (exporting (listed ++ 9 ∷ [])) at_one
        ≡ ok (codes "u"))
    × (method_output_signature_from_object_info (exporting (listed ++ 9 ∷ [])) at_one
        ≡ ok (codes "as"))
signatures-append_method_example =
    signatures-append_method iterator place (method_with (0 ∷ 2 ∷ []))
      (arg (codes "count") arg_in (codes "u") ∷ arg (codes "names") arg_out (codes "as") ∷ [])
      described (7 ∷ []) (9 ∷ []) (exporting (listed ++ 9 ∷ [])) at_one (written.0) (written.1)
      (written.2) (written.3) clean refl refl

abbrev nameless : Bytes
nameless = bytes_of (append_method iterator place (method_with (0 ∷ 1 ∷ 2 ∷ [])) described (7 ∷ []))

nameless_written :
    (load_args (0 ∷ 1 ∷ 2 ∷ []) described
      ≡ ok (
          arg (codes "count") arg_in (codes "u")
          ∷ arg [] arg_in (codes "s")
          ∷ arg (codes "names") arg_out (codes "as")
          ∷ []))
    × (append_method iterator place (method_with (0 ∷ 1 ∷ 2 ∷ [])) described (7 ∷ []) ≡ ok nameless)
unfolding runs
nameless_written = (refl, refl)

signatures-empty_name_example :
    (method_input_signature_from_object_info (exporting (nameless ++ [])) at_one ≡ ok (codes "u"))
    × (method_output_signature_from_object_info (exporting (nameless ++ [])) at_one ≡ ok [])
signatures-empty_name_example =
    signatures-empty_name iterator place (method_with (0 ∷ 1 ∷ 2 ∷ []))
      (arg (codes "count") arg_in (codes "u") ∷ []) (arg [] arg_in (codes "s"))
      (arg (codes "names") arg_out (codes "as") ∷ []) described (7 ∷ []) []
      (exporting (nameless ++ [])) at_one (nameless_written.0) (nameless_written.1) (written.2)
      (written.3) (clean.0, tt) refl refl refl

abbrev starting : DBusBindingToolCData
starting = record {
  prefix = some (codes "my");
  channel = [];
  generated = [];
  blob = [];
  signal_blob = [];
  property_blob = [];
  count = 0;
}

abbrev with_property : DBusBindingToolCData
with_property = record starting {
  property_blob =
      codes "com.a" ++ 0 ∷ codes "MaxCount" ++ 0 ∷ codes "max_count" ++ 0 ∷ codes "read" ++ 0 ∷ [];
}

abbrev pub max_count : PropertyInfo
max_count = record {
  base = new_base info_type_property (some (codes "MaxCount"));
  type = codes "u";
  access = record { property_read = true; property_write = false };
}

property_written :
    (load_properties (codes "com.a") (0 ∷ []) described ≡ ok ((codes "com.a", max_count) ∷ []))
    × (generate_properties (codes "com.a") (0 ∷ []) described starting ≡ ok with_property)
    × (has_char 0 (codes "com.a") ≡ false)
    × (has_char 0 (codes "MaxCount") ≡ false)
    × (starting.property_blob ≡ table [])
unfolding runs
property_written = (refl, refl, refl, refl, refl)

abbrev exporting_properties : DBusGObjectInfo
exporting_properties = record (exporting []) {
  exported_properties = some (with_property.property_blob ++ 0 ∷ []);
}

find_access-generate_properties_example :
    property_info_from_object_info exporting_properties none (codes "max-count")
    ≡ ok (find_access none (codes "max-count") ((codes "com.a", max_count) ∷ []))
find_access-generate_properties_example =
    find_access-generate_properties (codes "com.a") (0 ∷ []) described starting []
      ((codes "com.a", max_count) ∷ []) exporting_properties none (codes "max-count") []
      (property_written.4) (property_written.0) (property_written.1)
      ((property_written.2, (λ e. cc), property_written.3), tt) refl refl

signatures_print :
    (codes "u" ≡ print_all (then_type (basic uint32) none_left))
    × (codes "as" ≡ print_all (then_type (array (basic string)) none_left))
unfolding runs
signatures_print = (refl, refl)

compute_marshaller-ne-abort_example :
    (compute_marshaller iterator (method_with (0 ∷ 2 ∷ [])) described ≢ abort)
    × (compute_marshaller_name iterator (method_with (0 ∷ 2 ∷ [])) (codes "my") described ≢ abort)
compute_marshaller-ne-abort_example =
    compute_marshaller-ne-abort iterator iterator_laws (method_with (0 ∷ 2 ∷ [])) described
      (arg (codes "count") arg_in (codes "u") ∷ arg (codes "names") arg_out (codes "as") ∷ [])
      (codes "my") (written.0)
      (
        (basic uint32, none_left, signatures_print.0, refl),
        ((array (basic string), none_left, signatures_print.1, refl), tt),
      )

marshaller_named :
    compute_marshaller_name iterator (method_with (0 ∷ 2 ∷ [])) (codes "my") described
    ≡ ok (codes "dbus_glib_marshal_my_BOOLEAN__UINT_POINTER_POINTER")
unfolding runs
marshaller_named = refl

read_literal-quoted_bytes_example :
    read_literal plain (quoted_bytes (codes "com.a" ++ 0 ∷ codes "List" ++ 0 ∷ []) ++ codes "\\0\"")
    ≡ some (codes "com.a" ++ 0 ∷ codes "List" ++ 0 ∷ 0 ∷ [])
read_literal-quoted_bytes_example =
    read_literal-quoted_bytes (codes "com.a" ++ 0 ∷ codes "List" ++ 0 ∷ []) refl

-- the digit is taken into the escape of the NUL before it
digit_lost : read_literal plain (quoted_bytes (0 ∷ codes "1") ++ codes "\\0\"") ≡ some (1 ∷ 0 ∷ [])
unfolding read_literal quoted_bytes
digit_lost = refl

abbrev whole : Store
whole = record described {
  methods = alloc described.methods (method_with (0 ∷ 2 ∷ []));
  interfaces = alloc described.interfaces (record {
    base = new_base info_type_interface (some (codes "com.a"));
    annotations = [];
    methods = 0 ∷ [];
    signals = [];
    properties = 0 ∷ [];
  });
  nodes =
      alloc described.nodes
        (record { base = new_base info_type_node none; interfaces = 0 ∷ []; nodes = [] });
}

server_text :
    output_glib_server iterator
      (λ names. names)
      (λ prefix lines. ok lines)
      1
      0
      (codes "my")
      whole
      []
    ≡ ok (
        codes "/* Generated by dbus-binding-tool; do not edit! */\n\n"
        ++ codes "BOOLEAN:UINT,POINTER,POINTER\n"
        ++ codes "#include <dbus/dbus-glib.h>\n"
        ++ codes "static const DBusGMethodInfo dbus_glib_my_methods[] = {\n"
        ++ codes
            "  { (GCallback) my_list, dbus_glib_marshal_my_BOOLEAN__UINT_POINTER_POINTER, 0 },\n"
        ++ codes "};\n\n"
        ++ codes "const DBusGObjectInfo dbus_glib_my_object_info = {  1,\n"
        ++ codes "  dbus_glib_my_methods,\n"
        ++ codes "  1,\n"
        ++ codes "\"com.a\\0List\\0S\\0count\\0I\\0u\\0names\\0O\\0F\\0N\\0as\\0\\0\\0\",\n"
        ++ codes "\"\\0\",\n"
        ++ codes "\"com.a\\0MaxCount\\0max_count\\0read\\0\\0\"\n};\n\n")
unfolding runs
server_text = refl
