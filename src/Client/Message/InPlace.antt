-- ===== src/Client/Message/InPlace.antt =====
-- The calls for one message, and the receive buffer.
use asynchronous_http_web_se.Base.{List, [], ◌∷◌, ◌++◌, Bytes}
use asynchronous_http_web_se.Http.{ParserCall, reset}
use asynchronous_http_web_se.Client.Parsing.Calls.{NoReset}
use asynchronous_http_web_se.Client.Message.{
  Message, MessageCalls, message, Spans, done, piece, HeaderCalls, no_header, header,
}

NoReset-join : (cs ds : List ParserCall) → NoReset cs → NoReset ds → NoReset (cs ++ ds)
NoReset-join [] ds h k = k
NoReset-join (reset ∷ cs) ds h k = elim h [ ]
NoReset-join (_ ∷ cs) ds h k = NoReset-join cs ds h k

NoReset-Spans :
    (call : Bytes → ParserCall) {bytes : Bytes} {cs : List ParserCall}
    → ((a : Bytes) (es : List ParserCall) → NoReset es → NoReset (call a ∷ es))
    → Spans call bytes cs
    → NoReset cs
NoReset-Spans call keep done = tt
NoReset-Spans call keep (piece a s) = keep a _ (NoReset-Spans call keep s)

NoReset-HeaderCalls :
    {fields : List (Bytes × Bytes)} {cs : List ParserCall} → HeaderCalls fields cs → NoReset cs
NoReset-HeaderCalls no_header = tt
NoReset-HeaderCalls (header key value {fields} {ks} {vs} {cs} k v rest) =
    NoReset-join ks _ (NoReset-Spans _ (λ a es h. h) k)
      (NoReset-join vs _ (NoReset-Spans _ (λ a es h. h) v) (NoReset-HeaderCalls rest))

pub NoReset-MessageCalls : {m : Message} {cs : List ParserCall} → MessageCalls m cs → NoReset cs
NoReset-MessageCalls (message {ms} {us} {vs} {hs} {bs} sm su sv sh sb) =
    NoReset-join ms _ (NoReset-Spans _ (λ a es h. h) sm) (
      NoReset-join us _ (NoReset-Spans _ (λ a es h. h) su) (
        NoReset-join vs _ (NoReset-Spans _ (λ a es h. h) sv) (
          NoReset-join hs _ (NoReset-HeaderCalls sh)
            (NoReset-join bs _ (NoReset-Spans _ (λ a es h. h) sb) tt))))
