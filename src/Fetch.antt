-- ===== src/Fetch.antt =====
-- example/client.cpp: the program that asks a server for `/` and prints the response.
pub mod Safety
pub mod Sending
use asynchronous_http_web_se.Base.{
  ℕ, suc, ◌==◌, List, [], ◌∷◌, ◌++◌, Option, Bool, ℤ, Bytes, text, if◌then◌else◌,
}
use asynchronous_http_web_se.Epoll.{Epoll, EpollEvent}
use asynchronous_http_web_se.SocketIo.{Inbound, Outbound}
use asynchronous_http_web_se.Reactor.{Tracker, new_reactor, Wait, Outcome, reactor_run}
use asynchronous_http_web_se.Http.{HttpResponse, Llhttp}
use asynchronous_http_web_se.Calls.{Call, perform, callbacks}
use asynchronous_http_web_se.Api.{ApiConnection, new_api}
use asynchronous_http_web_se.Api.Handler.{Handled, connect_api, send_request, handle_event}
use asynchronous_http_web_se.Sockets.{
  System, AddrInfo, SocketAnswers, Connect, af_inet, create_connection, close_fd,
}
use asynchronous_http_web_se.Printing.{newline, crlf, to_string, print_http_response}
use mathlib.Core.Option.{some}

-- The closures `[this, cb]` that the reactor holds: that of `connectApi`, and that of `sendRequest`.
pub data Closure : Type 0 where
  connects requests : Closure

-- The program's state but for the reactor: the connection, the sockets that its destructor has
-- closed, the descriptors, what `std::cout` got, and how many callbacks of the reactor have run.
pub record Fetch (P : Type 0) : Type 0 where
  pub conn : ApiConnection P
  pub closed : List ℤ
  pub system : System
  pub printed : Bytes
  pub served : ℕ

abbrev pub State : Type 0 → Type 0 → Type 0
State K P = Tracker K Closure × Fetch P

-- `oss.str()`
abbrev pub request_text : Bytes
request_text =
    text "GET / HTTP/1.1"
    ++ (crlf ++ (text "Accept: */*" ++ (crlf ++ (text "Connection: close" ++ (crlf ++ crlf)))))

-- The `printHttpResponse` of example/client.cpp, a copy of the one of example/server.cpp.
unfoldable pub print_response : Option HttpResponse → Bytes
unfolding print_http_response
print_response response = print_http_response response

module _ {K P : Type 0} where
  unfoldable pub print : Bytes → State K P → State K P
  print bytes (t, f) = (t, record f { printed = f.printed ++ bytes })

  -- `delete apiconn`: the destructor, which closes the socket.
  unfoldable pub delete_conn : State K P → State K P
  unfolding close_fd
  delete_conn (t, f) = (
    t,
    record f {
      closed = f.conn.socket ∷ f.closed;
      system = record f.system { open_fds = close_fd f.conn.socket f.system.open_fds };
    },
  )

  -- The callback of `sendRequest`.
  unfoldable pub on_response : State K P → State K P
  unfolding print delete_conn print_response
  on_response (t, f) =
      let response = print_response (some f.conn.response) in
      if f.conn.is_error
      then delete_conn (print (f.conn.error_description ++ (newline ++ response)) (t, f))
      else delete_conn (print response (t, f))

module _ {K P : Type 0} (sys : Epoll K) where
  -- What the reactor and the connection are after a method with this closure.
  unfoldable pub after_method : Closure → Handled P → State K P → State K P
  unfolding perform
  after_method closure (conn, calls) (t, f) =
      (perform sys closure calls t, record f { conn = conn })

  -- The callback of `connectApi`.
  unfoldable pub on_connected : State K P → State K P
  unfolding print delete_conn after_method send_request to_string
  on_connected (t, f) =
      let s = print (to_string f.conn.socket ++ newline) (t, f) in
      let conn' = record f.conn { send_buffer = f.conn.send_buffer ++ request_text } in
      if f.conn.is_error
      then delete_conn (print (f.conn.error_description ++ newline) s)
      else after_method requests (send_request conn')
          (print (text "successfully connected" ++ (newline ++ (request_text ++ newline))) s)

module _ {K P : Type 0} (sys : Epoll K) (parser_lib : Llhttp P) where
  -- `handleEvent` with the callback that the closure has.
  unfoldable pub serve :
      Closure → (State K P → State K P) → EpollEvent → Inbound → Outbound → State K P → State K P
  unfolding after_method handle_event
  serve closure cb ev inbound outbound (t, f) =
      let handled = handle_event parser_lib ev inbound outbound f.conn in
      let s = after_method sys closure handled (t, f) in
      if callbacks handled.1 == 0 then s else cb s

  -- A callback of the reactor. `env` has what the socket calls give in the n-th one.
  unfoldable pub invoke : (ℕ → Inbound × Outbound) → Closure → EpollEvent → State K P → State K P
  unfolding serve on_connected on_response
  invoke env connects ev (t, f) =
      serve connects (on_connected sys) ev (env f.served).0 (env f.served).1
        (t, record f { served = suc f.served })
  invoke env requests ev (t, f) =
      serve requests on_response ev (env f.served).0 (env f.served).1
        (t, record f { served = suc f.served })

-- What the system gives to `main` before the reactor runs: the new epoll instance, what stands in
-- the memory of the socket of a new connection, the descriptors, the addresses of the port, and the
-- answers of the calls on the new socket.
pub record Setup (K : Type 0) : Type 0 where
  pub epollfd : K
  pub garbage : ℤ
  pub system : System
  pub resolve : ℕ → Bool → Option Bytes → Bytes → Option (List AddrInfo)
  pub answers : SocketAnswers
  pub connecting : Connect

-- What `createConnection` gives.
unfoldable pub create : {K : Type 0} → Setup K → Bytes → Bytes → ℤ × System
unfolding create_connection
create setup address port =
    create_connection setup.resolve setup.answers setup.connecting af_inet address port setup.system

module _ {K P : Type 0} (sys : Epoll K) (parser_lib : Llhttp P) (setup : Setup K) where
  -- The constructors, and the rest of `connectApi`, with what its `createConnection` gave: the
  -- callback runs at once where there is no connection.
  unfoldable pub start_with : ℤ × System → State K P
  unfolding new_api new_reactor connect_api after_method on_connected
  start_with (fd, system) =
      let conn = new_api parser_lib (text "") setup.garbage in
      let handled = connect_api fd conn in
      let s : State K P = (
        (new_reactor setup.epollfd).tracker,
        record { conn = conn; closed = []; system = system; printed = []; served = 0 },
      ) in
      let s' = after_method sys connects handled s in
      if callbacks handled.1 == 0 then s' else on_connected sys s'

  -- `main`: with too few arguments it returns 1, which is `none` here.
  unfoldable pub main :
      (ℕ → Inbound × Outbound) → List Wait → List Bytes → Option (State K P × Outcome)
  unfolding create start_with invoke reactor_run
  main env waits (program ∷ address ∷ port ∷ more) =
      some
        (reactor_run (invoke sys parser_lib env) waits [] (start_with (create setup address port)))
  main env waits _ = Option.none
