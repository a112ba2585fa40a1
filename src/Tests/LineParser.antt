-- ===== src/Tests/LineParser.antt =====
-- A parser of messages of one byte for each part: it stands for llhttp in the tests.
use asynchronous_http_web_se.Base.{ℕ, Bool, true, List, [], ◌∷◌}
use asynchronous_http_web_se.Http.{
  ParserCall, message_begin, header_value_complete, headers_complete, message_complete, reset,
  Llhttp,
}
use asynchronous_http_web_se.Http

-- The part that comes next.
pub data Part : Type 0 where
  first_method method_part url_part version_part key_part value_part body_part end_part : Part

abbrev pub feed_line : Part → ℕ → Part × List ParserCall × Bool
feed_line first_method b = (url_part, message_begin ∷ Http.ParserCall.on_method (b ∷ []) ∷ [], true)
feed_line method_part b =
    (url_part, reset ∷ message_begin ∷ Http.ParserCall.on_method (b ∷ []) ∷ [], true)
feed_line url_part b = (version_part, Http.ParserCall.on_url (b ∷ []) ∷ [], true)
feed_line version_part b = (key_part, Http.ParserCall.on_version (b ∷ []) ∷ [], true)
feed_line key_part b = (value_part, Http.ParserCall.on_header_field (b ∷ []) ∷ [], true)
feed_line value_part b =
    (body_part, Http.ParserCall.on_header_value (b ∷ []) ∷ header_value_complete ∷ [], true)
feed_line body_part b = (end_part, headers_complete ∷ Http.ParserCall.on_body (b ∷ []) ∷ [], true)
feed_line end_part b = (method_part, message_complete ∷ [], true)

abbrev pub line_parser : Llhttp Part
line_parser = record { start = first_method; feed = feed_line; finish = λ p. (p, [], true) }
