-- ===== src/Proxy.antt =====
-- dbus/dbus-gproxy.c: how the manager of the proxies of a connection finds the proxies that a signal
-- is for, and how it keeps track of the owners of bus names.
pub mod Tristring
pub mod Owners
pub mod Manager
