-- ===== src/Parser.antt =====
-- dbus/dbus-gparser.c: the parser of introspection XML, driven by the start and the end of each
-- element, which builds the description of dbus/dbus-gidl.c.
pub mod Attributes
pub mod State
pub mod Attach
pub mod Elements
pub mod Document
