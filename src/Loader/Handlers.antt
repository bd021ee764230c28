-- ===== src/Loader/Handlers.antt =====
-- The handlers, called as Expat calls them for a document, do what the parser does for it.
use dbus_glib.Prelude.{
  ◌≡◌, refl, arith, true, false, none, some, List, [], ◌∷◌, ◌++◌, Bytes, if◌then◌else◌,
}
use dbus_glib.Outcome.{GError, malformed_xml, Outcome, ok, err, abort, ◌>>=◌}
use dbus_glib.Parser.Attributes.{Attributes}
use dbus_glib.Parser.State.{External, World, new_world}
use dbus_glib.Parser.Document.{
  parser_start_element, parser_end_element, parser_content, Element, element, Content, end, text,
  child, parse_element, parse_content,
}
use dbus_glib.Loader.{
  XmlEvent, start_element, end_element, character_data, ExpatParseContext, absorb, process_content,
  pairs, start_element_handler, end_element_handler, handle, handle_all, new_context, flushed,
}

-- The attributes as Expat gives them.
abbrev pub flat : Attributes → List Bytes
flat [] = []
flat ((name, value) ∷ attributes) = name ∷ value ∷ flat attributes

-- The calls for an element, with those that follow it.
abbrev mutual
  pub events_of : Element → List XmlEvent → List XmlEvent
  events_of (element name attributes content) rest =
      start_element name (flat attributes) ∷ content_events content (end_element name ∷ rest)

  pub content_events : Content → List XmlEvent → List XmlEvent
  content_events end rest = rest
  content_events (text t content) rest = character_data t ∷ content_events content rest
  content_events (child e content) rest = events_of e (content_events content rest)

pairs-flat : (a : Attributes) → pairs (flat a) ≡ ok a
unfolding pairs
pairs-flat [] = refl
pairs-flat ((name, value) ∷ a) = ground (arith, pairs-flat a)

-- A context in which the parse has failed stays as it is.
handle_failed :
    (ext : External) (event : XmlEvent) (c : ExpatParseContext)
    → c.failed ≡ true
    → handle ext event c ≡ ok c
unfolding handle
handle_failed ext (start_element name atts) c h = ground arith
handle_failed ext (end_element name) c h = ground arith
handle_failed ext (character_data s) c h = ground arith

handle_all_failed :
    (ext : External) (events : List XmlEvent) (c : ExpatParseContext)
    → c.failed ≡ true
    → handle_all ext events c ≡ ok c
unfolding handle_all
handle_all_failed ext [] c h = refl
handle_all_failed ext (event ∷ events) c h =
    rw (handle_failed ext event c h) (handle_all_failed ext events c h)

-- How a context stands after what came to `o`, with `rest` still to be handled.
data Reaches (ext : External) (run : Outcome ExpatParseContext) (rest : List XmlEvent)
    (o : Outcome World) : Type 0 where
  reached :
      (c : ExpatParseContext)
      → c.failed ≡ false
      → o ≡ ok c.world
      → run ≡ handle_all ext rest c
      → Reaches ext run rest o
  failed :
      (c : ExpatParseContext) (e : GError)
      → c.failed ≡ true
      → c.error ≡ some e
      → o ≡ err e
      → run ≡ ok c
      → Reaches ext run rest o
  stopped : o ≡ abort → run ≡ abort → Reaches ext run rest o

after_absorb :
    (ext : External) (rest : List XmlEvent) (c : ExpatParseContext) (o : Outcome World)
    → c.failed ≡ false
    → Reaches ext (absorb c o >>= handle_all ext rest) rest o
after_absorb ext rest c (ok w) h = reached (record c { world = w }) h refl refl
after_absorb ext rest c (err e) h =
    failed (record c { error = some e; failed = true }) e refl refl refl
      (handle_all_failed ext rest _ refl)
after_absorb ext rest c abort h = stopped refl refl

process_content_lem :
    (c : ExpatParseContext) → c.failed ≡ false → process_content c ≡ ok (true, flushed c)
unfolding process_content
process_content_lem c h = ground arith

start_handler_lem :
    (ext : External) (name : Bytes) (a : Attributes) (c : ExpatParseContext)
    → c.failed ≡ false
    → start_element_handler ext name (flat a) c
      ≡ absorb (flushed c) (parser_start_element ext name a c.world)
unfolding start_element_handler
start_handler_lem ext name a c h = ground (arith, process_content_lem c h, pairs-flat a)

end_handler_lem :
    (name : Bytes) (c : ExpatParseContext)
    → c.failed ≡ false
    → end_element_handler name c ≡ absorb (flushed c) (parser_end_element name c.world)
unfolding end_element_handler
end_handler_lem name c h = ground (arith, process_content_lem c h)

text_step :
    (ext : External) (t : Bytes) (rest : List XmlEvent) (c : ExpatParseContext)
    → c.failed ≡ false
    → handle_all ext (character_data t ∷ rest) c
      ≡ handle_all ext rest (record c { content = c.content ++ t })
unfolding handle_all handle
text_step ext t rest c h = rw h

start-Reaches :
    (ext : External) (name : Bytes) (a : Attributes) (rest : List XmlEvent) (c : ExpatParseContext)
    → c.failed ≡ false
    → Reaches ext
        (handle_all ext (start_element name (flat a) ∷ rest) c)
        rest
        (parser_start_element ext name a c.world)
unfolding handle_all handle
start-Reaches ext name a rest c h =
    rw (start_handler_lem ext name a c h)
      (after_absorb ext rest (flushed c) (parser_start_element ext name a c.world) h)

end-Reaches :
    (ext : External) (name : Bytes) (rest : List XmlEvent) (c : ExpatParseContext)
    → c.failed ≡ false
    → Reaches ext
        (handle_all ext (end_element name ∷ rest) c)
        rest
        (parser_end_element name c.world)
unfolding handle_all handle
end-Reaches ext name rest c h =
    rw (end_handler_lem name c h)
      (after_absorb ext rest (flushed c) (parser_end_element name c.world) h)

-- One step after another.
then-Reaches :
    (ext : External) (run : Outcome ExpatParseContext) (middle rest : List XmlEvent)
    (o : Outcome World) (k : World → Outcome World)
    → Reaches ext run middle o
    → ((c : ExpatParseContext)
        → c.failed ≡ false
        → Reaches ext (handle_all ext middle c) rest (k c.world))
    → Reaches ext run rest (o >>= k)
then-Reaches ext run middle rest o k (reached c h e r) next = rw (e, r) (next c h)
then-Reaches ext run middle rest o k (failed c e h he he' r) next = rw he' (failed c e h he refl r)
then-Reaches ext run middle rest o k (stopped e r) next = rw e (stopped refl r)

mutual
  unfolding parse_element parser_content

  element-Reaches :
      (ext : External) (e : Element) (rest : List XmlEvent) (c : ExpatParseContext)
      → c.failed ≡ false
      → Reaches ext (handle_all ext (events_of e rest) c) rest (parse_element ext c.world e)
  element-Reaches ext (element name a content) rest c h =
      then-Reaches ext _ (content_events content (end_element name ∷ rest)) rest
        (parser_start_element ext name a c.world) _
        (start-Reaches ext name a (content_events content (end_element name ∷ rest)) c h)
        λ c1 h1.
          then-Reaches ext _ (end_element name ∷ rest) rest (parse_content ext c1.world content) _
            (content-Reaches ext content (end_element name ∷ rest) c1 h1)
            λ c2 h2. end-Reaches ext name rest c2 h2

  content-Reaches :
      (ext : External) (content : Content) (rest : List XmlEvent) (c : ExpatParseContext)
      → c.failed ≡ false
      → Reaches ext
          (handle_all ext (content_events content rest) c)
          rest
          (parse_content ext c.world content)
  content-Reaches ext end rest c h = reached c h refl refl
  content-Reaches ext (text t content) rest c h =
      rw (text_step ext t (content_events content rest) c h)
        (content-Reaches ext content rest (record c { content = c.content ++ t }) h)
  content-Reaches ext (child e content) rest c h =
      then-Reaches ext _ (content_events content rest) rest (parse_element ext c.world e) _
        (element-Reaches ext e (content_events content rest) c h)
        λ c1 h1. content-Reaches ext content rest c1 h1

-- What the context says at the end.
abbrev pub outcome_of : Outcome ExpatParseContext → Outcome World
outcome_of (ok c) =
    if c.failed then (elim c.error [ none ↦ err malformed_xml | some e ↦ err e ]) else ok c.world
outcome_of (err e) = err e
outcome_of abort = abort

outcome_reached :
    (ext : External) (run : Outcome ExpatParseContext) (o : Outcome World)
    → Reaches ext run [] o
    → outcome_of run ≡ o
unfolding handle_all
outcome_reached ext run o (reached c h e r) = rw (r, e, h)
outcome_reached ext run o (failed c e h he e' r) = rw (r, e', h, he)
outcome_reached ext run o (stopped e r) = rw (r, e)

-- The handlers of the loader, called in the order of a well-formed document with its attributes as
-- Expat lays them out, come to what the parser comes to for that document: the same world, the same
-- error, or a stop, whatever text stands between the elements.
pub handle_all_document :
    (ext : External) (e : Element)
    → outcome_of (handle_all ext (events_of e []) new_context) ≡ parse_element ext new_world e
handle_all_document ext e = outcome_reached ext _ _ (element-Reaches ext e [] new_context refl)
