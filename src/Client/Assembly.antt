-- ===== src/Client/Assembly.antt =====
-- The request that the functions given to llhttp build up, against the message that was sent.
use asynchronous_http_web_se.Base.{
  ◌≡◌, refl, ap, ◌∙◌, true, List, [], ◌∷◌, ◌++◌, append-nil, append_assoc, Bytes, bytes_key,
}
use asynchronous_http_web_se.StdMap.{StdMap, assign, find}
use asynchronous_http_web_se.Http.{
  HttpRequest, new_request, ParserCall, message_begin, header_value_complete, headers_complete,
  message_complete, reset,
}
use asynchronous_http_web_se.Http
use asynchronous_http_web_se.Client.{ClientConnection}
use asynchronous_http_web_se.Client.Callbacks.{
  on_method, on_url, on_version, on_header_field, on_header_value, on_body, deliver,
}
use asynchronous_http_web_se.Client.Parsing.{deliver_all}
use asynchronous_http_web_se.Client.Parsing.Calls.{deliver_all-append}
use asynchronous_http_web_se.Client.Message.{
  Spans, all-Spans, HeaderCalls, no_header, header, Message, MessageCalls, message, last_value,
  add_fields, find-fields, request_of,
}

module _ {P : Type 0} where
  deliver_method :
      {bytes : Bytes} {cs : List ParserCall} (conn : ClientConnection P)
      → Spans Http.ParserCall.on_method bytes cs
      → deliver_all cs conn ≡ on_method bytes conn
  unfolding deliver deliver_all
  deliver_method =
      all-Spans deliver_all _ on_method (λ conn. refl) (λ a cs conn. refl) (λ conn. rw append-nil)
        (λ a b conn. rw append_assoc)

  deliver_url :
      {bytes : Bytes} {cs : List ParserCall} (conn : ClientConnection P)
      → Spans Http.ParserCall.on_url bytes cs
      → deliver_all cs conn ≡ on_url bytes conn
  unfolding deliver deliver_all
  deliver_url =
      all-Spans deliver_all _ on_url (λ conn. refl) (λ a cs conn. refl) (λ conn. rw append-nil)
        (λ a b conn. rw append_assoc)

  deliver_version :
      {bytes : Bytes} {cs : List ParserCall} (conn : ClientConnection P)
      → Spans Http.ParserCall.on_version bytes cs
      → deliver_all cs conn ≡ on_version bytes conn
  unfolding deliver deliver_all
  deliver_version =
      all-Spans deliver_all _ on_version (λ conn. refl) (λ a cs conn. refl) (λ conn. rw append-nil)
        (λ a b conn. rw append_assoc)

  deliver_field :
      {bytes : Bytes} {cs : List ParserCall} (conn : ClientConnection P)
      → Spans Http.ParserCall.on_header_field bytes cs
      → deliver_all cs conn ≡ on_header_field bytes conn
  unfolding deliver deliver_all
  deliver_field =
      all-Spans deliver_all _ on_header_field (λ conn. refl) (λ a cs conn. refl)
        (λ conn. rw append-nil) (λ a b conn. rw append_assoc)

  deliver_value :
      {bytes : Bytes} {cs : List ParserCall} (conn : ClientConnection P)
      → Spans Http.ParserCall.on_header_value bytes cs
      → deliver_all cs conn ≡ on_header_value bytes conn
  unfolding deliver deliver_all
  deliver_value =
      all-Spans deliver_all _ on_header_value (λ conn. refl) (λ a cs conn. refl)
        (λ conn. rw append-nil) (λ a b conn. rw append_assoc)

  deliver_body :
      {bytes : Bytes} {cs : List ParserCall} (conn : ClientConnection P)
      → Spans Http.ParserCall.on_body bytes cs
      → deliver_all cs conn ≡ on_body bytes conn
  unfolding deliver deliver_all
  deliver_body =
      all-Spans deliver_all _ on_body (λ conn. refl) (λ a cs conn. refl) (λ conn. rw append-nil)
        (λ a b conn. rw append_assoc)

  -- The connection with this request, read to its end.
  abbrev with_headers : ClientConnection P → StdMap Bytes Bytes → ClientConnection P
  with_headers conn m = record conn {
    request = record conn.request { key = []; value = []; headers = m };
  }

  deliver_header :
      (key value : Bytes) (cs : List ParserCall) (conn : ClientConnection P)
      (m : StdMap Bytes Bytes)
      → deliver_all
          (header_value_complete ∷ cs)
          (on_header_value value (on_header_field key (with_headers conn m)))
        ≡ deliver_all cs (with_headers conn (assign key value m))
  unfolding deliver_all deliver on_header_field on_header_value
  deliver_header key value cs conn m = refl

  deliver_headers :
      {fields : List (Bytes × Bytes)} {cs : List ParserCall} (conn : ClientConnection P)
      (m : StdMap Bytes Bytes)
      → HeaderCalls fields cs
      → deliver_all cs (with_headers conn m) ≡ with_headers conn (add_fields fields m)
  unfolding add_fields
  deliver_headers conn m no_header = unfold deliver_all in refl
  deliver_headers conn m (header key value {fields} {ks} {vs} {cs} k v h) =
      deliver_all-append ks (vs ++ (header_value_complete ∷ cs)) (with_headers conn m)
      ∙ deliver_all-append vs (header_value_complete ∷ cs) (deliver_all ks (with_headers conn m))
      ∙ ap (λ c. deliver_all (header_value_complete ∷ cs) (deliver_all vs c))
          (deliver_field (with_headers conn m) k)
      ∙ ap (deliver_all (header_value_complete ∷ cs))
          (deliver_value (on_header_field key (with_headers conn m)) v)
      ∙ deliver_header key value cs conn m
      ∙ deliver_headers conn (assign key value m) h

  -- The connection as it is before a message, with an empty request.
  abbrev pub fresh : ClientConnection P → ClientConnection P
  fresh conn = record conn { request = new_request }

  abbrev pub completed : ClientConnection P → Message → ClientConnection P
  completed conn m = record conn { is_request_complete = true; request = request_of m }

  -- The calls up to the header fields.
  line_of : ClientConnection P → Message → ClientConnection P
  unfolding on_method on_url on_version
  line_of conn m = on_version m.version (on_url m.url (on_method m.http_method conn))

  deliver_end :
      (conn : ClientConnection P) (m : Message)
      → deliver message_complete (
          on_body m.body (
            deliver headers_complete
              (with_headers (line_of (fresh conn) m) (add_fields m.fields []))))
        ≡ completed conn m
  unfolding deliver on_body line_of
  deliver_end conn m = refl

  first_then :
      (cs rest : List ParserCall) (c d : ClientConnection P)
      → deliver_all cs c ≡ d
      → deliver_all (cs ++ rest) c ≡ deliver_all rest d
  first_then cs rest c d e = deliver_all-append cs rest c ∙ ap (deliver_all rest) e

  deliver_all-cons :
      (c : ParserCall) (cs : List ParserCall) (conn : ClientConnection P)
      → deliver_all (c ∷ cs) conn ≡ deliver_all cs (deliver c conn)
  unfolding deliver_all
  deliver_all-cons c cs conn = refl

  deliver_line :
      (m : Message) {ms us vs : List ParserCall} (rest : List ParserCall)
      (conn : ClientConnection P)
      → Spans Http.ParserCall.on_method m.http_method ms
      → Spans Http.ParserCall.on_url m.url us
      → Spans Http.ParserCall.on_version m.version vs
      → deliver_all (ms ++ (us ++ (vs ++ rest))) conn ≡ deliver_all rest (line_of conn m)
  unfolding line_of
  deliver_line m {ms} {us} {vs} rest conn sm su sv =
      first_then ms (us ++ (vs ++ rest)) conn _ (deliver_method conn sm)
      ∙ first_then us (vs ++ rest) (on_method m.http_method conn) _ (deliver_url _ su)
      ∙ first_then vs rest (on_url m.url (on_method m.http_method conn)) _ (deliver_version _ sv)

  line_with_headers :
      (conn : ClientConnection P) (m : Message)
      → deliver message_begin (fresh conn) ≡ fresh conn
      → line_of (fresh conn) m ≡ with_headers (line_of (fresh conn) m) []
  unfolding line_of on_method on_url on_version
  line_with_headers conn m e = refl

  pub deliver_message :
      {m : Message} {cs : List ParserCall} (conn : ClientConnection P)
      → MessageCalls m cs
      → deliver_all cs (fresh conn) ≡ completed conn m
  deliver_message {m} conn (message {ms} {us} {vs} {hs} {bs} sm su sv sh sb) =
      let ending = bs ++ (message_complete ∷ []) in
      let begun : deliver message_begin (fresh conn) ≡ fresh conn = unfold deliver in refl in
      let line = line_of (fresh conn) m in
      let full = with_headers line (add_fields m.fields []) in
      deliver_all-cons message_begin _ (fresh conn)
      ∙ ap (deliver_all (ms ++ (us ++ (vs ++ (hs ++ (headers_complete ∷ ending)))))) begun
      ∙ deliver_line m (hs ++ (headers_complete ∷ ending)) (fresh conn) sm su sv
      ∙ ap (deliver_all (hs ++ (headers_complete ∷ ending))) (line_with_headers conn m begun)
      ∙ first_then hs (headers_complete ∷ ending) (with_headers line []) full
          (deliver_headers line [] sh)
      ∙ deliver_all-cons headers_complete ending full
      ∙ first_then bs (message_complete ∷ []) (deliver headers_complete full) _ (deliver_body _ sb)
      ∙ deliver_all-cons message_complete [] _
      ∙ (unfold deliver_all in deliver_end conn m)

  -- Whatever pieces llhttp cuts a message into, the calls for it build its request: each part is the
  -- whole part, a header name is mapped to the value of its last field, and nothing else of the
  -- connection changes.
  pub request_assembled :
      {m : Message} {cs : List ParserCall} (conn : ClientConnection P) (key : Bytes)
      → MessageCalls m cs
      → let c = deliver_all cs (fresh conn) in
        (c ≡ completed conn m) × (find key c.request.headers ≡ last_value key m.fields)
  request_assembled {m} conn key calls = (
    deliver_message conn calls,
    ap (λ c. find key c.request.headers) (deliver_message conn calls) ∙ find-fields key m.fields,
  )
