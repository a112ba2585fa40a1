-- ===== src/Api/Message.antt =====
-- A response as the server means it, and the calls that llhttp may make for it.
use asynchronous_http_web_se.Base.{List, [], ◌∷◌, ◌++◌, Bytes}
use asynchronous_http_web_se.Http.{
  HttpResponse, ParserCall, message_begin, headers_complete, message_complete,
}
use asynchronous_http_web_se.Http
use asynchronous_http_web_se.Client.Message.{Spans, HeaderCalls, add_fields}

-- A response as the server means it; a field may be given more than once.
pub record Reply : Type 0 where
  pub version : Bytes
  pub status : Bytes
  pub fields : List (Bytes × Bytes)
  pub body : Bytes

-- llhttp's calls for one response, each part cut into spans in any way.
pub data ReplyCalls (m : Reply) : List ParserCall → Type 0 where
  reply :
      {vs ss hs bs : List ParserCall}
      → Spans Http.ParserCall.on_version m.version vs
      → Spans Http.ParserCall.on_status m.status ss
      → HeaderCalls m.fields hs
      → Spans Http.ParserCall.on_body m.body bs
      → ReplyCalls m (
          message_begin
          ∷ (vs ++ (ss ++ (hs ++ (headers_complete ∷ (bs ++ (message_complete ∷ [])))))))

-- The response of a reply: the parts as they were sent, and the fields in a map.
abbrev pub response_of : Reply → HttpResponse
response_of m = record {
  version = m.version;
  status = m.status;
  key = [];
  value = [];
  headers = add_fields m.fields [];
  body = m.body;
}
