-- ===== src/Lib.antt =====
-- Verification library of dbus-glib, the GLib bindings of D-Bus.
--
-- What the program is. A service describes its objects in XML: nodes with interfaces, which have
-- methods, signals and properties, which have arguments and annotations. The loader
-- (dbus/dbus-gloader-expat.c) lets Expat read such a document and hands what Expat calls it with to
-- the parser (dbus/dbus-gparser.c). The parser checks where each element stands and which attributes
-- it has, and builds reference-counted objects (dbus/dbus-gidl.c, dbus/dbus-gidl.h). The helpers of
-- dbus/dbus-gutils.c split object paths and turn names of members into names of C functions;
-- dbus/dbus-gobject.c turns names of GObject signals and errors back. The binding tool
-- (dbus/dbus-binding-tool-glib.c) prints a description as C text: tables of methods, signals and
-- properties, which a service compiles in and dbus/dbus-gobject.c reads, and the marshallers, for which
-- dbus/dbus-gsignature.c finds the types of GObject that a signature stands for. On the other side of
-- the bus, the manager of the proxies of a connection (dbus/dbus-gproxy.c) finds the proxies that a
-- signal is for by a key of three strings, keeps track of which bus name has which owner, and asks the bus
-- for the signals with match rules, which it counts.
--
-- Which file models what.
--   Outcome       the result of a C function: it returns, it sets a GError, or the process stops, in a
--                 `g_assert` or at a pointer that leads to no live object
--   Heap          a table of objects of one kind: addresses, allocation, reading, writing, freeing
--   Idl           dbus/dbus-gidl.c: Idl.Data has the structs and the lists, Idl.Members the functions on
--                 arguments, properties, signals and methods, Idl.Containers those on interfaces and
--                 nodes; Idl.Growth, Idl.Sorting, Idl.Order, Idl.Release and Idl.Annotations have proofs
--   Parser        dbus/dbus-gparser.c: Parser.Attributes has `locate_attributes`, Parser.State the
--                 `Parser`, Parser.Elements `parse_node` to `parse_annotation` (the checks of each
--                 in `check_...`, what follows them in Parser.Attach), Parser.Document the
--                 dispatch on names and the calls for a whole document; proofs stand below the
--                 file that they are about
--   Loader        dbus/dbus-gloader-expat.c: the three handlers and `description_load_from_string`;
--                 Loader.Root and Loader.Bugs are about what loading returns
--   Utils         dbus/dbus-gutils.c, and the functions on names of dbus/dbus-gobject.c
--   Memory        C strings in a buffer, at a pointer
--   Types         specialized types and the classes of types, dbus/dbus-gtype-specialized.c and
--                 dbus/dbus-gvalue-utils.c; these functions lose the prefix `dbus_g_type_`
--   Signature     dbus/dbus-gsignature.c, with a leading `_dbus_` left out; Signature.Trees has signatures
--                 as trees and what the iterator of libdbus does, Signature.Refinement and
--                 Signature.Errors what the functions come to
--   Object        dbus/dbus-gobject.c: Object.Metadata reads the tables of an exported object, Object.Lookup
--                 searches the metadata of its types, Object.Requests has the check of an access and
--                 `object_registration_message`, Object.Errors the names of errors, with
--                 `dbus_g_error_get_name` of dbus/dbus-glib.c; Object.Lookup.Ifaces, Object.Lookup.Order,
--                 Object.Access and Object.Errors.Returned have proofs
--   BindingTool   dbus/dbus-binding-tool-glib.c: BindingTool.Marshallers and BindingTool.Glue have the
--                 marshallers and the tables, BindingTool.Server the walk and the whole text; the other
--                 files below it have proofs, with Object.Metadata as the reader
--   Proxy         dbus/dbus-gproxy.c: Proxy.Tristring has the keys of `proxy_lists`, Proxy.Owners the
--                 table `owner_names`, whose functions lose the prefix `dbus_g_proxy_manager_`;
--                 Proxy.Manager has the manager and its tables, Proxy.Manager.Registration the calls that
--                 enter a proxy and take it out, Proxy.Manager.Signals what a signal does; the other
--                 files below them have proofs
--   Tests         runs at fixed inputs, and each theorem with conditions at an input that meets them
-- A function of the C code keeps its name. A `Store` holds the objects and is passed along; a pointer
-- is an address, and `none` where it may be NULL. Properties of GLib, libdbus and Expat are the
-- parameter `External` with its laws, or arguments: the checks of names and signatures,
-- `g_slist_sort`, the calls that Expat makes, what glib-genmarshal prints, the names of errors, and the
-- answers of the type system of GObject where a function checks what it is given. libdbus's iterator over
-- a signature is the record `SignatureIter`, and what it is documented to do is `IterLaws`: only outside
-- containers is the end read off the iterator.
--
-- Bounds and fuel. `refcount` of an object is a bit field of 28 bits; `unknown_namespaced_depth`, the
-- count of the watches of a name, that of its match rules, the number of a call and the hash of a key are a
-- `guint`: all wrap around. C strings are
-- lists of their bytes with no NUL. `node_info_unref` recurses along the tree of nodes and has fuel for
-- its depth, since the store alone does not say that there is no cycle; out of fuel it stops. The
-- binding tool's walk over the nodes is alike. The recursion along a signature takes fewer calls than
-- four times its length. A loop over a table of strings ends before the bytes do, since each entry has
-- a byte at least. All other loops follow a list.
--
-- What is not modelled. The texts of error messages: each error is a constructor with the values that
-- its message shows. Failing allocation, which ends the process in GLib. The reference count of the
-- parser as an `int` above INT_MAX. The getters that read one field. The GObject and GValue parts of
-- dbus/, and the calls of proxies and how a signal reaches the handlers of one, which mostly call GObject
-- and libdbus; the manager's `bus_proxy`, but for the number of its last call; the registration of
-- objects at paths; dbus-gmain/, a copy of another library; the client's side of the binding tool and channels that fail; the examples
-- and the tests.
mod Prelude
pub mod Outcome
pub mod Utils
pub mod Heap
pub mod Memory
pub mod Types
pub mod Signature
pub mod BindingTool
pub mod Object
pub mod Idl
pub mod Parser
pub mod Loader
pub mod Proxy
pub mod Tests
