-- ===== src/Client/Message.antt =====
-- A request as its sender means it, and the calls that llhttp may make for it.
pub mod InPlace
use asynchronous_http_web_se.Base.{
  ℕ, ◌≡◌, refl, sym, ap, ◌∙◌, Bool, true, List, [], ◌∷◌, ◌++◌, Option, none, some, append-nil,
  append_assoc, arith, Bytes, bytes_key, Key, ◌=?◌, if◌then◌else◌,
}
use asynchronous_http_web_se.StdMap.{StdMap, assign, find}
use asynchronous_http_web_se.StdMap.Laws.{find-assign}
use asynchronous_http_web_se.Http.{
  HttpRequest, new_request, ParserCall, message_begin, header_value_complete, headers_complete,
  message_complete, reset,
}
use asynchronous_http_web_se.Http
use asynchronous_http_web_se.Client.{ClientConnection, zeroed}
use asynchronous_http_web_se.Client.Callbacks.{
  on_method, on_url, on_version, on_header_field, on_header_value, on_body, deliver,
}
use asynchronous_http_web_se.Client.Parsing.{deliver_all}
use asynchronous_http_web_se.Client.Parsing.Calls.{deliver_all-append}

-- Span calls of one kind whose pieces, put together, are these bytes.
pub data Spans (call : Bytes → ParserCall) : Bytes → List ParserCall → Type 0 where
  done : Spans call [] []
  piece :
      (a : Bytes) {rest : Bytes} {cs : List ParserCall}
      → Spans call rest cs
      → Spans call (a ++ rest) (call a ∷ cs)

-- Functions `all` that take the calls in turn, with `add` for each of these span calls, give for
-- the pieces what `add` gives for the whole.
module _ {X : Type 0} (all : List ParserCall → X → X) (call : Bytes → ParserCall)
    (add : Bytes → X → X) (at_end : (x : X) → all [] x ≡ x)
    (step : (a : Bytes) (cs : List ParserCall) (x : X) → all (call a ∷ cs) x ≡ all cs (add a x))
    (nothing : (x : X) → add [] x ≡ x)
    (joined : (a b : Bytes) (x : X) → add b (add a x) ≡ add (a ++ b) x) where
  pub all-Spans :
      {bytes : Bytes} {cs : List ParserCall} (x : X) → Spans call bytes cs → all cs x ≡ add bytes x
  all-Spans x done = at_end x ∙ sym (nothing x)
  all-Spans x (piece a {rest} {cs} s) = step a cs x ∙ all-Spans (add a x) s ∙ joined a rest x

pub data HeaderCalls : List (Bytes × Bytes) → List ParserCall → Type 0 where
  no_header : HeaderCalls [] []
  header :
      (key value : Bytes) {fields : List (Bytes × Bytes)} {ks vs cs : List ParserCall}
      → Spans Http.ParserCall.on_header_field key ks
      → Spans Http.ParserCall.on_header_value value vs
      → HeaderCalls fields cs
      → HeaderCalls ((key, value) ∷ fields) (ks ++ (vs ++ (header_value_complete ∷ cs)))

-- A request as its sender means it; a field may be given more than once.
pub record Message : Type 0 where
  pub http_method : Bytes
  pub url : Bytes
  pub version : Bytes
  pub fields : List (Bytes × Bytes)
  pub body : Bytes

-- llhttp's calls for one request, each part cut into spans in any way.
pub data MessageCalls (m : Message) : List ParserCall → Type 0 where
  message :
      {ms us vs hs bs : List ParserCall}
      → Spans Http.ParserCall.on_method m.http_method ms
      → Spans Http.ParserCall.on_url m.url us
      → Spans Http.ParserCall.on_version m.version vs
      → HeaderCalls m.fields hs
      → Spans Http.ParserCall.on_body m.body bs
      → MessageCalls m (
          message_begin
          ∷ (ms ++ (us ++ (vs ++ (hs ++ (headers_complete ∷ (bs ++ (message_complete ∷ []))))))))

-- The value of the last field of this name.
unfoldable pub last_value : Bytes → List (Bytes × Bytes) → Option Bytes
last_value key [] = none
last_value key ((k, v) ∷ fields) = elim (last_value key fields) [
  | some w ↦ some w
  | none ↦ if k =? key then some v else none
]

unfoldable pub add_fields : List (Bytes × Bytes) → StdMap Bytes Bytes → StdMap Bytes Bytes
add_fields [] m = m
add_fields ((k, v) ∷ fields) m = add_fields fields (assign k v m)

find-add_fields :
    (key : Bytes) (fields : List (Bytes × Bytes)) (m : StdMap Bytes Bytes)
    → find key (add_fields fields m)
      ≡ elim (last_value key fields) [ some w ↦ some w | none ↦ find key m ]
unfolding add_fields last_value
find-add_fields key [] m = refl
find-add_fields key ((k, v) ∷ fields) m =
    ground (arith, find-add_fields key fields (assign k v m), find-assign k key v m)

found_or_none : (o : Option Bytes) → elim o [ some w ↦ some w | none ↦ none ] ≡ o
found_or_none none = refl
found_or_none (some w) = refl

-- In the map of these fields, each name has its last value.
pub find-fields :
    (key : Bytes) (fields : List (Bytes × Bytes))
    → find key (add_fields fields []) ≡ last_value key fields
unfolding find
find-fields key fields = find-add_fields key fields [] ∙ found_or_none (last_value key fields)

-- The request of a message: the parts as they were sent, and the fields in a map.
abbrev pub request_of : Message → HttpRequest
request_of m = record {
  http_method = m.http_method;
  url = m.url;
  version = m.version;
  key = [];
  value = [];
  headers = add_fields m.fields [];
  body = m.body;
}
