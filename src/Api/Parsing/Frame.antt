-- ===== src/Api/Parsing/Frame.antt =====
-- What parsing leaves of an `APIconnection`.
use asynchronous_http_web_se.Base.{
  ℕ, zero, suc, get_or, ◌≡◌, refl, ◌∙◌, inl, inr, Bool, List, [], ◌∷◌, int_key, Bytes, length,
  Bool-cases,
}
use asynchronous_http_web_se.Http.{Llhttp, ParserCall, message_begin}
use asynchronous_http_web_se.Api.{ApiConnection, fill_recv_buffer}
use asynchronous_http_web_se.Api.Callbacks.{deliver}
use asynchronous_http_web_se.Api.Parsing.{deliver_all, parser_step, execute_from, receive}

module _ {P : Type 0} where
  -- Parsing leaves what belongs to the socket and to the sending half, and the state.
  abbrev pub Same : ApiConnection P → ApiConnection P → Type 0
  Same c d =
      (c.socket ≡ d.socket)
      × (c.state ≡ d.state)
      × (c.sent_bytes ≡ d.sent_bytes)
      × (c.send_buffer ≡ d.send_buffer)

  Same-deliver : (c : ParserCall) (conn : ApiConnection P) → Same (deliver c conn) conn
  unfolding deliver
  Same-deliver message_begin conn = (refl, refl, refl, refl)
  Same-deliver _ conn = (refl, refl, refl, refl)

  Same-trans : (c d e : ApiConnection P) → Same c d → Same d e → Same c e
  Same-trans c d e h k = (h.0 ∙ k.0, h.1 ∙ k.1, h.2 ∙ k.2, h.3 ∙ k.3)

  Same-deliver_all :
      (cs : List ParserCall) (conn : ApiConnection P) → Same (deliver_all cs conn) conn
  unfolding deliver_all
  Same-deliver_all [] conn = (refl, refl, refl, refl)
  Same-deliver_all (c ∷ cs) conn =
      Same-trans (deliver_all cs (deliver c conn)) (deliver c conn) conn
        (Same-deliver_all cs (deliver c conn)) (Same-deliver c conn)

module _ {P : Type 0} (parser_lib : Llhttp P) where
  Same-parser_step :
      (r : P × List ParserCall × Bool) (conn : ApiConnection P)
      → Same (parser_step parser_lib r conn).0 conn
  unfolding parser_step
  Same-parser_step (p, cs, b) conn = Same-deliver_all cs (record conn { parser = p })

  Same-execute_from :
      (n i : ℕ) (conn : ApiConnection P) → Same (execute_from parser_lib n i conn).0 conn
  unfolding execute_from
  Same-execute_from zero i conn = Same-parser_step (parser_lib.finish conn.parser) conn
  Same-execute_from (suc n) i conn =
      let r = parser_lib.feed conn.parser (get_or conn.recv_buffer i 0) in
      elim (Bool-cases r.2) [
        | inl e ↦
            rw (e, execute_from)
              (Same-trans (execute_from parser_lib n (suc i) (parser_step parser_lib r conn).0).0
                (parser_step parser_lib r conn).0 conn
                (Same-execute_from n (suc i) (parser_step parser_lib r conn).0)
                (Same-parser_step r conn))
        | inr e ↦ rw (e, execute_from) (Same-parser_step r conn)
      ]

  pub Same-receive :
      (bytes : Bytes) (conn : ApiConnection P) → Same (receive parser_lib bytes conn).0 conn
  unfolding receive fill_recv_buffer
  Same-receive bytes conn = Same-execute_from (length bytes) 0 (fill_recv_buffer bytes conn)
