-- ===== src/Api/Assembly.antt =====
-- The response that the functions given to llhttp build up, against the reply that was sent.
use asynchronous_http_web_se.Base.{
  ◌≡◌, refl, ap, ◌∙◌, true, List, [], ◌∷◌, ◌++◌, append-nil, append_assoc, Bytes, bytes_key,
}
use asynchronous_http_web_se.StdMap.{StdMap, assign, find}
use asynchronous_http_web_se.Http.{
  new_response, ParserCall, message_begin, header_value_complete, headers_complete,
  message_complete,
}
use asynchronous_http_web_se.Http
use asynchronous_http_web_se.Client.Message.{
  Spans, all-Spans, HeaderCalls, no_header, header, last_value, add_fields, find-fields,
}
use asynchronous_http_web_se.Api.{ApiConnection}
use asynchronous_http_web_se.Api.Callbacks.{
  on_version, on_status, on_header_field, on_header_value, on_body, deliver,
}
use asynchronous_http_web_se.Api.Parsing.{deliver_all}
use asynchronous_http_web_se.Api.Message.{Reply, ReplyCalls, reply, response_of}

module _ {P : Type 0} where
  deliver_all-append :
      (cs ds : List ParserCall) (conn : ApiConnection P)
      → deliver_all (cs ++ ds) conn ≡ deliver_all ds (deliver_all cs conn)
  unfolding deliver_all
  deliver_all-append [] ds conn = refl
  deliver_all-append (c ∷ cs) ds conn = deliver_all-append cs ds (deliver c conn)

  deliver_version :
      {bytes : Bytes} {cs : List ParserCall} (conn : ApiConnection P)
      → Spans Http.ParserCall.on_version bytes cs
      → deliver_all cs conn ≡ on_version bytes conn
  unfolding deliver deliver_all
  deliver_version =
      all-Spans deliver_all _ on_version (λ conn. refl) (λ a cs conn. refl) (λ conn. rw append-nil)
        (λ a b conn. rw append_assoc)

  deliver_status :
      {bytes : Bytes} {cs : List ParserCall} (conn : ApiConnection P)
      → Spans Http.ParserCall.on_status bytes cs
      → deliver_all cs conn ≡ on_status bytes conn
  unfolding deliver deliver_all
  deliver_status =
      all-Spans deliver_all _ on_status (λ conn. refl) (λ a cs conn. refl) (λ conn. rw append-nil)
        (λ a b conn. rw append_assoc)

  deliver_field :
      {bytes : Bytes} {cs : List ParserCall} (conn : ApiConnection P)
      → Spans Http.ParserCall.on_header_field bytes cs
      → deliver_all cs conn ≡ on_header_field bytes conn
  unfolding deliver deliver_all
  deliver_field =
      all-Spans deliver_all _ on_header_field (λ conn. refl) (λ a cs conn. refl)
        (λ conn. rw append-nil) (λ a b conn. rw append_assoc)

  deliver_value :
      {bytes : Bytes} {cs : List ParserCall} (conn : ApiConnection P)
      → Spans Http.ParserCall.on_header_value bytes cs
      → deliver_all cs conn ≡ on_header_value bytes conn
  unfolding deliver deliver_all
  deliver_value =
      all-Spans deliver_all _ on_header_value (λ conn. refl) (λ a cs conn. refl)
        (λ conn. rw append-nil) (λ a b conn. rw append_assoc)

  deliver_body :
      {bytes : Bytes} {cs : List ParserCall} (conn : ApiConnection P)
      → Spans Http.ParserCall.on_body bytes cs
      → deliver_all cs conn ≡ on_body bytes conn
  unfolding deliver deliver_all
  deliver_body =
      all-Spans deliver_all _ on_body (λ conn. refl) (λ a cs conn. refl) (λ conn. rw append-nil)
        (λ a b conn. rw append_assoc)

  -- The connection with these header fields read to their end.
  abbrev with_headers : ApiConnection P → StdMap Bytes Bytes → ApiConnection P
  with_headers conn m = record conn {
    response = record conn.response { key = []; value = []; headers = m };
  }

  first_then :
      (cs rest : List ParserCall) (c d : ApiConnection P)
      → deliver_all cs c ≡ d
      → deliver_all (cs ++ rest) c ≡ deliver_all rest d
  first_then cs rest c d e = deliver_all-append cs rest c ∙ ap (deliver_all rest) e

  deliver_header :
      (key value : Bytes) (cs : List ParserCall) (conn : ApiConnection P) (m : StdMap Bytes Bytes)
      → deliver_all
          (header_value_complete ∷ cs)
          (on_header_value value (on_header_field key (with_headers conn m)))
        ≡ deliver_all cs (with_headers conn (assign key value m))
  unfolding deliver_all deliver on_header_field on_header_value
  deliver_header key value cs conn m = refl

  deliver_headers :
      {fields : List (Bytes × Bytes)} {cs : List ParserCall} (conn : ApiConnection P)
      (m : StdMap Bytes Bytes)
      → HeaderCalls fields cs
      → deliver_all cs (with_headers conn m) ≡ with_headers conn (add_fields fields m)
  unfolding add_fields
  deliver_headers conn m no_header = unfold deliver_all in refl
  deliver_headers conn m (header key value {fields} {ks} {vs} {cs} k v h) =
      first_then ks (vs ++ (header_value_complete ∷ cs)) _ _ (deliver_field (with_headers conn m) k)
      ∙ first_then vs (header_value_complete ∷ cs) _ _
          (deliver_value (on_header_field key (with_headers conn m)) v)
      ∙ deliver_header key value cs conn m
      ∙ deliver_headers conn (assign key value m) h

  -- The connection as it is before a response, with an empty one.
  abbrev pub fresh : ApiConnection P → ApiConnection P
  fresh conn = record conn { response = new_response }

  abbrev pub completed : ApiConnection P → Reply → ApiConnection P
  completed conn m = record conn { is_request_complete = true; response = response_of m }

  -- The connection after the calls of the status line.
  line_of : ApiConnection P → Reply → ApiConnection P
  unfolding on_version on_status
  line_of conn m = on_status m.status (on_version m.version conn)

  deliver_begin :
      (m : Reply) {vs ss : List ParserCall} (rest : List ParserCall) (conn : ApiConnection P)
      → Spans Http.ParserCall.on_version m.version vs
      → Spans Http.ParserCall.on_status m.status ss
      → deliver_all (message_begin ∷ (vs ++ (ss ++ rest))) (fresh conn)
        ≡ deliver_all rest (with_headers (line_of (fresh conn) m) [])
  unfolding deliver_all deliver line_of
  deliver_begin m {vs} {ss} rest conn sv st =
      first_then vs (ss ++ rest) (fresh conn) _ (deliver_version _ sv)
      ∙ first_then ss rest (on_version m.version (fresh conn)) _ (deliver_status _ st)

  deliver_end :
      (m : Reply) {bs : List ParserCall} (conn : ApiConnection P)
      → Spans Http.ParserCall.on_body m.body bs
      → deliver_all
          (headers_complete ∷ (bs ++ (message_complete ∷ [])))
          (with_headers (line_of (fresh conn) m) (add_fields m.fields []))
        ≡ completed conn m
  unfolding deliver_all deliver line_of
  deliver_end m {bs} conn sb =
      let full = with_headers (line_of (fresh conn) m) (add_fields m.fields []) in
      first_then bs (message_complete ∷ []) full _ (deliver_body full sb)

  -- Whatever pieces llhttp cuts a response into, the calls for it build that response: each part is
  -- the whole part, a header name is mapped to the value of its last field, and nothing else of the
  -- connection changes.
  pub response_assembled :
      {m : Reply} {cs : List ParserCall} (conn : ApiConnection P) (key : Bytes)
      → ReplyCalls m cs
      → let c = deliver_all cs (fresh conn) in
        (c ≡ completed conn m) × (find key c.response.headers ≡ last_value key m.fields)
  response_assembled {m} conn key (reply {vs} {ss} {hs} {bs} sv st sh sb) =
      let ending = headers_complete ∷ (bs ++ (message_complete ∷ [])) in
      let line = line_of (fresh conn) m in
      let built =
        deliver_begin m (hs ++ ending) conn sv st
        ∙ first_then hs ending (with_headers line []) _ (deliver_headers line [] sh)
        ∙ deliver_end m conn sb in
      (
        built,
        ap (λ (c : ApiConnection P). find key c.response.headers) built ∙ find-fields key m.fields,
      )
