-- ===== src/Idl.antt =====
-- dbus/dbus-gidl.c and dbus/dbus-gidl.h: the reference-counted description of nodes, interfaces,
-- methods, signals, properties and arguments, its data, its operations and their laws.
pub mod Data
pub mod Members
pub mod Containers
pub mod Growth
pub mod Sorting
pub mod Order
pub mod Release
pub mod Annotations
