-- ===== src/Object.antt =====
-- dbus/dbus-gobject.c: the metadata of exported objects, how methods and properties are found in it, and
-- what is done with a message to an object.
pub mod Metadata
pub mod Lookup
pub mod Requests
pub mod Access
pub mod Errors
