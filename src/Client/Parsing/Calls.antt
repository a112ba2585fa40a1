-- ===== src/Client/Parsing/Calls.antt =====
-- The calls of the parser: how they add up, and which leave the receive buffer alone.
use asynchronous_http_web_se.Base.{◌≡◌, refl, ap, ◌∙◌, List, [], ◌∷◌, ◌++◌}
use asynchronous_http_web_se.Http.{ParserCall, reset, message_begin}
use asynchronous_http_web_se.Client.{ClientConnection, zeroed}
use asynchronous_http_web_se.Client.Callbacks.{deliver}
use asynchronous_http_web_se.Client.Parsing.{deliver_all}

abbrev pub NoReset : List ParserCall → Type 0
NoReset [] = Unit {0}
NoReset (reset ∷ cs) = ⊥
NoReset (_ ∷ cs) = NoReset cs

pub NoReset-tail : (c : ParserCall) (cs : List ParserCall) → NoReset (c ∷ cs) → NoReset cs
NoReset-tail reset cs h = elim h [ ]
NoReset-tail _ cs h = h

pub NoReset-append : (cs ds : List ParserCall) → NoReset (cs ++ ds) → NoReset cs × NoReset ds
NoReset-append [] ds h = (tt, h)
NoReset-append (reset ∷ cs) ds h = elim h [ ]
NoReset-append (_ ∷ cs) ds h = NoReset-append cs ds h

module _ {P : Type 0} where
  pub deliver-parser :
      (c : ParserCall) (p : P) (conn : ClientConnection P)
      → deliver c (record conn { parser = p }) ≡ record (deliver c conn) { parser = p }
  unfolding deliver
  deliver-parser message_begin p conn = refl
  deliver-parser _ p conn = refl

  pub deliver_all-parser :
      (cs : List ParserCall) (p : P) (conn : ClientConnection P)
      → deliver_all cs (record conn { parser = p }) ≡ record (deliver_all cs conn) { parser = p }
  unfolding deliver_all
  deliver_all-parser [] p conn = refl
  deliver_all-parser (c ∷ cs) p conn =
      ap (deliver_all cs) (deliver-parser c p conn) ∙ deliver_all-parser cs p (deliver c conn)

  pub deliver_all-append :
      (cs ds : List ParserCall) (conn : ClientConnection P)
      → deliver_all (cs ++ ds) conn ≡ deliver_all ds (deliver_all cs conn)
  unfolding deliver_all
  deliver_all-append [] ds conn = refl
  deliver_all-append (c ∷ cs) ds conn = deliver_all-append cs ds (deliver c conn)

  pub deliver-recv_buffer :
      (c : ParserCall) (cs : List ParserCall) (conn : ClientConnection P)
      → NoReset (c ∷ cs)
      → (deliver c conn).recv_buffer ≡ conn.recv_buffer
  unfolding deliver
  deliver-recv_buffer reset cs conn h = elim h [ ]
  deliver-recv_buffer _ cs conn h = refl

  pub deliver_all-recv_buffer :
      (cs : List ParserCall) (conn : ClientConnection P)
      → NoReset cs
      → (deliver_all cs conn).recv_buffer ≡ conn.recv_buffer
  unfolding deliver_all
  deliver_all-recv_buffer [] conn h = refl
  deliver_all-recv_buffer (c ∷ cs) conn h =
      deliver_all-recv_buffer cs (deliver c conn) (NoReset-tail c cs h)
      ∙ deliver-recv_buffer c cs conn h

  pub deliver-zeroed :
      (c : ParserCall) (conn : ClientConnection P)
      → conn.recv_buffer ≡ zeroed
      → (deliver c conn).recv_buffer ≡ zeroed
  unfolding deliver
  deliver-zeroed reset conn h = refl
  deliver-zeroed _ conn h = h

  pub deliver_all-zeroed :
      (cs : List ParserCall) (conn : ClientConnection P)
      → conn.recv_buffer ≡ zeroed
      → (deliver_all cs conn).recv_buffer ≡ zeroed
  unfolding deliver_all
  deliver_all-zeroed [] conn h = h
  deliver_all-zeroed (c ∷ cs) conn h =
      deliver_all-zeroed cs (deliver c conn) (deliver-zeroed c conn h)
