-- ===== src/BindingTool.antt =====
-- dbus/dbus-binding-tool-glib.c: the C text that exports an object, as far as the server's side goes.
pub mod Marshallers
pub mod Glue
pub mod Server
pub mod Encoding
pub mod ReadBack
pub mod EmptyNames
pub mod Properties
pub mod PropertyTable
pub mod Totality
pub mod Quoting
