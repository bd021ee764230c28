-- ===== src/Loader.antt =====
-- dbus/dbus-gloader-expat.c: the handlers that Expat calls, and the loading of a description. Expat is
-- not part of the repository: the calls that it makes, and its verdict, are arguments.
pub mod Handlers
pub mod Bugs
pub mod Root
use dbus_glib.Prelude.{
  ℕ, Bool, true, false, not, ◌||◌, Option, none, some, List, [], ◌∷◌, ◌++◌, Bytes, if◌then◌else◌,
}
use dbus_glib.Outcome.{GError, malformed_xml, Outcome, ok, err, abort, or_abort, ◌>>=◌, ◌>>◌}
use dbus_glib.Idl.Containers.{node_info_ref}
use dbus_glib.Parser.Attributes.{Attributes}
use dbus_glib.Parser.State.{External, World, new_world, parser_unref}
use dbus_glib.Parser.Document.{
  parser_start_element, parser_end_element, parser_content, parser_finished, parser_get_nodes,
}

-- `atts` is key, value, key, value, NULL.
pub data XmlEvent : Type 0 where
  start_element : Bytes → List Bytes → XmlEvent
  end_element : Bytes → XmlEvent
  character_data : Bytes → XmlEvent

pub record ExpatParseContext : Type 0 where
  pub world : World
  pub content : Bytes
  pub error : Option GError
  pub failed : Bool

-- What a handler does with what the parser's function came to.
abbrev pub absorb : ExpatParseContext → Outcome World → Outcome ExpatParseContext
absorb context (ok w) = ok (record context { world = w })
absorb context (err e) = ok (record context { error = some e; failed = true })
absorb context abort = abort

abbrev is_nil : Bytes → Bool
is_nil [] = true
is_nil (c ∷ cs) = false

abbrev flushed : ExpatParseContext → ExpatParseContext
flushed context = record context { content = [] }

-- The flag is what `process_content` returns.
unfoldable pub process_content : ExpatParseContext → Outcome (Bool × ExpatParseContext)
unfolding parser_content
process_content context =
    if context.failed
    then ok (false, context)
    else if is_nil context.content
    then ok (true, context)
    else (do
      after ← absorb context (parser_content context.content context.world)
      if after.failed then ok (false, after) else ok (true, flushed after))

-- The two arrays of names and of values; an odd count is refused by `g_assert`.
pairs : List Bytes → Outcome Attributes
pairs [] = ok []
pairs (name ∷ []) = abort
pairs (name ∷ value ∷ atts) = do rest ← pairs atts; ok ((name, value) ∷ rest)

unfoldable pub start_element_handler :
    External → Bytes → List Bytes → ExpatParseContext → Outcome ExpatParseContext
unfolding process_content pairs
start_element_handler ext name atts context = if context.failed then ok context else (do
  processed ← process_content context
  if not processed.0 then ok processed.1 else (do
    attributes ← pairs atts
    absorb processed.1 (parser_start_element ext name attributes processed.1.world)))

unfoldable pub end_element_handler : Bytes → ExpatParseContext → Outcome ExpatParseContext
unfolding process_content
end_element_handler name context = do
  processed ← process_content context
  if not processed.0
      then ok processed.1
      else absorb processed.1 (parser_end_element name processed.1.world)

unfoldable pub character_data_handler : Bytes → ExpatParseContext → Outcome ExpatParseContext
character_data_handler s context =
    if context.failed then ok context else ok (record context { content = context.content ++ s })

unfoldable pub handle : External → XmlEvent → ExpatParseContext → Outcome ExpatParseContext
unfolding start_element_handler end_element_handler character_data_handler
handle ext (start_element name atts) context = start_element_handler ext name atts context
handle ext (end_element name) context = end_element_handler name context
handle ext (character_data s) context = character_data_handler s context

unfoldable pub handle_all : External → List XmlEvent → ExpatParseContext → Outcome ExpatParseContext
handle_all ext [] context = ok context
handle_all ext (event ∷ events) context = do
  context' ← handle ext event context
  handle_all ext events context'

abbrev pub new_context : ExpatParseContext
new_context = record { world = new_world; content = []; error = none; failed = false }

-- `failed:` the parser loses its reference, and the error is the one that was set
abbrev give_up : ℕ → ExpatParseContext → GError → Outcome (ℕ × World)
give_up fuel context e = parser_unref fuel context.world >>= λ w. err e

abbrev error_or : ExpatParseContext → GError
error_or context = elim context.error [ none ↦ malformed_xml | some e ↦ e ]

-- `description_load_from_string`, with a place for its error; it returns the address of the root. The
-- fuel is for the depth of what `parser_unref` may free.
unfoldable pub description_load_from_string :
    External → ℕ → List XmlEvent → Bool → Outcome (ℕ × World)
unfolding parser_unref node_info_ref parser_finished parser_get_nodes
description_load_from_string ext fuel events well_formed = do
  context ← handle_all ext events new_context
  if not well_formed || context.failed then give_up fuel context (error_or context) else (do
    w ← parser_finished context.world
    nodes ← or_abort (parser_get_nodes w)
    s ← node_info_ref nodes w.store
    w' ← parser_unref fuel (record w { store = s })
    ok (nodes, w'))
