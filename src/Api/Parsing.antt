-- ===== src/Api/Parsing.antt =====
-- `llhttp_execute(parser, recvBuffer, read_bytes)` of `APIconnection`: the parser reads the receive
-- buffer in place, and the functions that it calls may write to that buffer before it reads on.
pub mod Frame
use asynchronous_http_web_se.Base.{
  ℕ, zero, suc, Bool, true, false, List, [], ◌∷◌, Bytes, length, get_or,
}
use asynchronous_http_web_se.Http.{ParserCall, Llhttp}
use asynchronous_http_web_se.Api.{ApiConnection, fill_recv_buffer}
use asynchronous_http_web_se.Api.Callbacks.{deliver}

module _ {P : Type 0} where
  unfoldable pub deliver_all : List ParserCall → ApiConnection P → ApiConnection P
  deliver_all [] conn = conn
  deliver_all (c ∷ cs) conn = deliver_all cs (deliver c conn)

module _ {P : Type 0} (parser_lib : Llhttp P) where
  -- One step of the parser: its new state, then its calls.
  unfoldable pub parser_step : P × List ParserCall × Bool → ApiConnection P → ApiConnection P × Bool
  unfolding deliver_all
  parser_step (p, calls, go_on) conn = (deliver_all calls (record conn { parser = p }), go_on)

  -- `n` bytes are left, from index `i` of the buffer on; the result is `llerror == HPE_OK`.
  unfoldable pub execute_from : ℕ → ℕ → ApiConnection P → ApiConnection P × Bool
  unfolding parser_step
  execute_from zero i conn = parser_step (parser_lib.finish conn.parser) conn
  execute_from (suc n) i conn =
      let r = parser_step (parser_lib.feed conn.parser (get_or conn.recv_buffer i 0)) conn in
      elim r.1 [ true ↦ execute_from n (suc i) r.0 | false ↦ (r.0, false) ]

  unfoldable pub llhttp_execute : ℕ → ApiConnection P → ApiConnection P × Bool
  unfolding execute_from
  llhttp_execute read_bytes conn = execute_from read_bytes 0 conn

  -- A `recv` of these bytes, and the parser's run over them.
  unfoldable pub receive : Bytes → ApiConnection P → ApiConnection P × Bool
  unfolding llhttp_execute
  receive bytes conn = llhttp_execute (length bytes) (fill_recv_buffer bytes conn)
