-- ===== src/Client/Handler/Reading.antt =====
-- Reading a request over one or more `recv` calls of one EPOLLIN event.
use asynchronous_http_web_se.Base.{
  ◌≡◌, refl, sym, ap, subst, ◌∙◌, Bool, true, false, List, [], ◌∷◌, ◌++◌, Bytes, text,
  if◌then◌else◌,
}
use asynchronous_http_web_se.Http.{new_request, ParserCall, Llhttp, message_complete, reset}
use asynchronous_http_web_se.Epoll.{EpollEvent, has, epollin, epollerr}
use asynchronous_http_web_se.SocketIo.{Outbound, Inbound, received}
use asynchronous_http_web_se.Calls.{untracks, calls_back}
use asynchronous_http_web_se.Client.{zeroed, ClientConnection, clear_recv_buffer, fill_recv_buffer}
use asynchronous_http_web_se.Client.Callbacks.{deliver}
use asynchronous_http_web_se.Client.Parsing.{deliver_all, parser_step, receive}
use asynchronous_http_web_se.Client.Parsing.Calls.{
  NoReset, NoReset-append, deliver_all-append, deliver_all-parser,
}
use asynchronous_http_web_se.Client.Parsing.InPlace.{parse_bytes, receive-eq-parse_bytes}
use asynchronous_http_web_se.Client.Parsing.Pipelined.{deliver_all-with_buffer}
use asynchronous_http_web_se.Client.Message.{Message, MessageCalls, request_of}
use asynchronous_http_web_se.Client.Assembly.{completed, deliver_message}
use asynchronous_http_web_se.Client.Handler.{Handled, complete, fail, recv_loop, handle_event}
use asynchronous_http_web_se.Client.Message.InPlace.{NoReset-MessageCalls}

abbrev pub NoEnd : List ParserCall → Type 0
NoEnd [] = Unit {0}
NoEnd (message_complete ∷ cs) = ⊥
NoEnd (_ ∷ cs) = NoEnd cs

-- From state `p` on, the parser reads these pieces without an error, makes these calls in all, and
-- the end of the message is in the last piece.
pub data Arrives {P : Type 0} (parser_lib : Llhttp P)
    : P → List Bytes → List ParserCall → Type 0 where
  last_piece :
      (p q : P) (bytes : Bytes) (cs : List ParserCall)
      → parse_bytes parser_lib p bytes ≡ (q, cs, true)
      → Arrives parser_lib p (bytes ∷ []) cs
  earlier :
      (p q : P) (bytes : Bytes) (cs : List ParserCall) {rest : List Bytes} {ds : List ParserCall}
      → parse_bytes parser_lib p bytes ≡ (q, cs, true)
      → NoEnd cs
      → Arrives parser_lib q rest ds
      → Arrives parser_lib p (bytes ∷ rest) (cs ++ ds)

-- The `recv` calls that give these pieces, and then `rest`.
abbrev pub pieces : List Bytes → Inbound → Inbound
pieces [] rest = rest
pieces (bytes ∷ more) rest = received bytes (pieces more rest)

module _ {P : Type 0} where
  -- The connection but for the parser and its buffer.
  abbrev up_to : ClientConnection P → Bytes → P → ClientConnection P
  up_to conn buffer p = record conn { recv_buffer = buffer; parser = p }

  deliver_all-up_to :
      (cs : List ParserCall) (conn : ClientConnection P) (buffer : Bytes) (p : P)
      → NoReset cs
      → deliver_all cs (up_to conn buffer p) ≡ up_to (deliver_all cs conn) buffer p
  deliver_all-up_to cs conn buffer p h =
      deliver_all-parser cs p (record conn { recv_buffer = buffer })
      ∙ ap (λ (c : ClientConnection P). record c { parser = p })
          (deliver_all-with_buffer cs conn buffer h)

  deliver-NoEnd :
      (c : ParserCall) (cs : List ParserCall) (conn : ClientConnection P)
      → NoEnd (c ∷ cs)
      → conn.is_request_complete ≡ false
      → ((deliver c conn).is_request_complete ≡ false) × NoEnd cs
  unfolding deliver
  deliver-NoEnd message_complete cs conn h e = elim h [ ]
  deliver-NoEnd reset cs conn h e = (refl, h)
  deliver-NoEnd _ cs conn h e = (e, h)

  deliver_all-NoEnd :
      (cs : List ParserCall) (conn : ClientConnection P)
      → NoEnd cs
      → conn.is_request_complete ≡ false
      → (deliver_all cs conn).is_request_complete ≡ false
  unfolding deliver_all
  deliver_all-NoEnd [] conn h e = e
  deliver_all-NoEnd (c ∷ cs) conn h e =
      let next = deliver-NoEnd c cs conn h e in deliver_all-NoEnd cs (deliver c conn) next.1 next.0

module _ {P : Type 0} (parser_lib : Llhttp P) where
  receive_piece :
      (bytes : Bytes) (conn : ClientConnection P) (q : P) (cs : List ParserCall)
      → parse_bytes parser_lib conn.parser bytes ≡ (q, cs, true)
      → NoReset cs
      → receive parser_lib bytes conn
        ≡ (up_to (deliver_all cs conn) (fill_recv_buffer bytes conn).recv_buffer q, true)
  unfolding parser_step fill_recv_buffer
  receive_piece bytes conn q cs e h =
      let filled = fill_recv_buffer bytes conn in
      receive-eq-parse_bytes parser_lib bytes conn (subst (λ r. NoReset r.1) (sym e) h)
      ∙ ap (λ r. parser_step parser_lib r filled) e
      ∙ ap {B = ClientConnection P × Bool} (λ c. (c, true))
          (deliver_all-up_to cs conn filled.recv_buffer q h)

  recv_loop_end :
      (bytes : Bytes) (rest : Inbound) (conn c : ClientConnection P)
      → receive parser_lib bytes conn ≡ (c, true)
      → c.is_request_complete ≡ true
      → recv_loop parser_lib (received bytes rest) conn ≡ complete c
  unfolding recv_loop
  recv_loop_end bytes rest conn c e f =
      ap
        (λ (r : ClientConnection P × Bool).
          if r.1
          then (if r.0.is_request_complete
              then complete r.0
              else recv_loop parser_lib rest (clear_recv_buffer r.0))
          else fail (text "Http parsing error") r.0)
        e
      ∙ ap (λ b. if b then complete c else recv_loop parser_lib rest (clear_recv_buffer c)) f

  recv_loop_next :
      (bytes : Bytes) (rest : Inbound) (conn c : ClientConnection P)
      → receive parser_lib bytes conn ≡ (c, true)
      → c.is_request_complete ≡ false
      → recv_loop parser_lib (received bytes rest) conn
        ≡ recv_loop parser_lib rest (clear_recv_buffer c)
  unfolding recv_loop
  recv_loop_next bytes rest conn c e f =
      ap
        (λ (r : ClientConnection P × Bool).
          if r.1
          then (if r.0.is_request_complete
              then complete r.0
              else recv_loop parser_lib rest (clear_recv_buffer r.0))
          else fail (text "Http parsing error") r.0)
        e
      ∙ ap (λ b. if b then complete c else recv_loop parser_lib rest (clear_recv_buffer c)) f

  -- The end of the loop, after these calls in all.
  recv_loop-pieces :
      {p : P} {more : List Bytes} {cs : List ParserCall} (conn : ClientConnection P)
      → Arrives parser_lib p more cs
      → p ≡ conn.parser
      → NoReset cs
      → conn.is_request_complete ≡ false
      → (deliver_all cs conn).is_request_complete ≡ true
      → (buffer : Bytes) × (q : P) × ((rest : Inbound)
          → recv_loop parser_lib (pieces more rest) conn
            ≡ complete (up_to (deliver_all cs conn) buffer q))
  unfolding clear_recv_buffer
  recv_loop-pieces conn (last_piece p q bytes cs e) same h open_yet full =
      let e' = subst (λ p'. parse_bytes parser_lib p' bytes ≡ (q, cs, true)) same e in
      let buffer = (fill_recv_buffer bytes conn).recv_buffer in
      (buffer, q, λ rest. recv_loop_end bytes rest conn _ (receive_piece bytes conn q cs e' h) full)
  recv_loop-pieces conn (earlier p q bytes cs {rest = more} {ds} e n later) same h open_yet full =
      let e' = subst (λ p'. parse_bytes parser_lib p' bytes ≡ (q, cs, true)) same e in
      let both = NoReset-append cs ds h in
      let conn' =
        clear_recv_buffer
          (up_to (deliver_all cs conn) (fill_recv_buffer bytes conn).recv_buffer q) in
      let joined : deliver_all ds conn' ≡ up_to (deliver_all (cs ++ ds) conn) zeroed q =
        deliver_all-up_to ds (deliver_all cs conn) zeroed q both.1
        ∙ ap (λ (c : ClientConnection P). up_to c zeroed q) (sym (deliver_all-append cs ds conn)) in
      let still_open = deliver_all-NoEnd cs conn n open_yet in
      let (buffer, p', end) =
        recv_loop-pieces conn' later refl both.1 still_open
          (ap (λ (c : ClientConnection P). c.is_request_complete) joined ∙ full) in
      (
        buffer,
        p',
        λ rest.
            recv_loop_next bytes (pieces more rest) conn _ (receive_piece bytes conn q cs e' both.0)
              still_open
            ∙ end rest
            ∙ ap (λ (c : ClientConnection P). complete (up_to c buffer p')) joined,
      )

  handle_event_readable :
      (ev : EpollEvent) (inbound : Inbound) (outbound : Outbound) (conn : ClientConnection P)
      → has ev.events epollerr ≡ false
      → has ev.events epollin ≡ true
      → handle_event parser_lib ev inbound outbound conn
        ≡ recv_loop parser_lib inbound (clear_recv_buffer conn)
  unfolding handle_event
  handle_event_readable ev inbound outbound conn e f = rw (e, f)

  -- The connection after the message, but for its buffer and its parser.
  pub handle_event_reads_message :
      {m : Message} {more : List Bytes} {cs : List ParserCall} (ev : EpollEvent)
      (outbound : Outbound) (conn : ClientConnection P)
      → has ev.events epollerr ≡ false
      → has ev.events epollin ≡ true
      → MessageCalls m cs
      → Arrives parser_lib conn.parser more cs
      → conn.request ≡ new_request
      → conn.is_request_complete ≡ false
      → (buffer : Bytes) × (q : P) × ((rest : Inbound)
          → handle_event parser_lib ev (pieces more rest) outbound conn
            ≡ complete (record (completed conn m) { recv_buffer = buffer; parser = q }))
  unfolding clear_recv_buffer
  handle_event_reads_message {m} {more} {cs} ev outbound conn no_err readable calls arrives e
        open_yet =
      let conn' = clear_recv_buffer conn in
      let built : deliver_all cs conn' ≡ completed conn' m =
        ap (λ r. deliver_all cs (record conn' { request = r })) e ∙ deliver_message conn' calls in
      let (buffer, q, end) =
        recv_loop-pieces conn' arrives refl (NoReset-MessageCalls calls) open_yet
          (ap (λ (c : ClientConnection P). c.is_request_complete) built) in
      (
        buffer,
        q,
        λ rest.
            handle_event_readable ev (pieces more rest) outbound conn no_err readable
            ∙ end rest
            ∙ ap (λ (c : ClientConnection P). complete (up_to c buffer q)) built,
      )

  -- On a connection whose request is still empty and not complete, as the constructor leaves it: where
  -- one event is readable and without an error, and the `recv` calls of it give a request, cut into any
  -- number of pieces anywhere, which the parser reads from its state without an error and as one
  -- message, with its end in the last piece, then the application's callback runs, with the connection
  -- off the reactor, the request of the message and no new error. What further `recv` calls would give
  -- makes no difference to the result.
  pub handle_event_reads_request :
      {m : Message} {more : List Bytes} {cs : List ParserCall} (ev : EpollEvent)
      (rest further : Inbound) (outbound : Outbound) (conn : ClientConnection P)
      → has ev.events epollerr ≡ false
      → has ev.events epollin ≡ true
      → MessageCalls m cs
      → Arrives parser_lib conn.parser more cs
      → conn.request ≡ new_request
      → conn.is_request_complete ≡ false
      → let r = handle_event parser_lib ev (pieces more rest) outbound conn in
        (r.0.request ≡ request_of m)
        × (r.0.is_request_complete ≡ true)
        × (r.0.is_error ≡ conn.is_error)
        × (r.1 ≡ untracks conn.socket ∷ calls_back ∷ [])
        × (handle_event parser_lib ev (pieces more further) outbound conn ≡ r)
  unfolding complete
  handle_event_reads_request ev rest further outbound conn no_err readable calls arrives e
        open_yet =
      let (buffer, q, all) =
        handle_event_reads_message ev outbound conn no_err readable calls arrives e open_yet in
      (
        ap (λ (r : Handled P). r.0.request) (all rest),
        ap (λ (r : Handled P). r.0.is_request_complete) (all rest),
        ap (λ (r : Handled P). r.0.is_error) (all rest),
        ap (λ (r : Handled P). r.1) (all rest),
        all further ∙ sym (all rest),
      )
