-- ===== src/Client/Parsing/Frame.antt =====
-- What the parser's run leaves alone.
use asynchronous_http_web_se.Base.{
  ℕ, zero, suc, ◌≡◌, refl, ◌∙◌, inl, inr, Bool, List, [], ◌∷◌, ℤ, Bytes, get_or, Bool-cases, length,
}
use asynchronous_http_web_se.Http.{ParserCall, Llhttp, message_begin}
use asynchronous_http_web_se.Client.{ClientConnection, fill_recv_buffer}
use asynchronous_http_web_se.Client.Callbacks.{deliver}
use asynchronous_http_web_se.Client.Parsing.{deliver_all, parser_step, execute_from, receive}

-- The fields that belong to the connection's socket and to its sending half.
pub record Outer : Type 0 where
  pub connection_id : Bytes
  pub socket : ℤ
  pub sent_bytes : ℕ
  pub send_buffer : Bytes

module _ {P : Type 0} where
  abbrev pub outer : ClientConnection P → Outer
  outer conn = record {
    connection_id = conn.connection_id;
    socket = conn.socket;
    sent_bytes = conn.sent_bytes;
    send_buffer = conn.send_buffer;
  }

  outer-deliver : (c : ParserCall) (conn : ClientConnection P) → outer (deliver c conn) ≡ outer conn
  unfolding deliver
  outer-deliver message_begin conn = refl
  outer-deliver _ conn = refl

  outer-deliver_all :
      (cs : List ParserCall) (conn : ClientConnection P) → outer (deliver_all cs conn) ≡ outer conn
  unfolding deliver_all
  outer-deliver_all [] conn = refl
  outer-deliver_all (c ∷ cs) conn = outer-deliver_all cs (deliver c conn) ∙ outer-deliver c conn

module _ {P : Type 0} (parser_lib : Llhttp P) where
  outer-parser_step :
      (r : P × List ParserCall × Bool) (conn : ClientConnection P)
      → outer (parser_step parser_lib r conn).0 ≡ outer conn
  unfolding parser_step
  outer-parser_step (p, cs, b) conn = outer-deliver_all cs (record conn { parser = p })

  outer-execute_from :
      (n i : ℕ) (conn : ClientConnection P)
      → outer (execute_from parser_lib n i conn).0 ≡ outer conn
  unfolding execute_from
  outer-execute_from zero i conn = outer-parser_step (parser_lib.finish conn.parser) conn
  outer-execute_from (suc n) i conn =
      let r = parser_lib.feed conn.parser (get_or conn.recv_buffer i 0) in
      elim (Bool-cases r.2) [
        | inl e ↦
            rw (e, execute_from)
              (outer-execute_from n (suc i) (parser_step parser_lib r conn).0
                ∙ outer-parser_step r conn)
        | inr e ↦ rw (e, execute_from) (outer-parser_step r conn)
      ]

  -- Parsing touches neither the socket nor the sending half.
  pub outer-receive :
      (bytes : Bytes) (conn : ClientConnection P)
      → outer (receive parser_lib bytes conn).0 ≡ outer conn
  unfolding receive fill_recv_buffer
  outer-receive bytes conn = outer-execute_from (length bytes) 0 (fill_recv_buffer bytes conn)
