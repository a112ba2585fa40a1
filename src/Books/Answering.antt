-- ===== src/Books/Answering.antt =====
-- The page `/` of example/server.cpp, from the request to the bytes on the wire; and the calls of the
-- pool that a callback makes, up to their end.
use asynchronous_http_web_se.Base.{
  is_some, ℕ, ◌+◌, ◌<◌, ◌≡◌, ◌≢◌, refl, sym, ap, subst, ◌∙◌, inl, inr, true, false, List, [], ◌∷◌,
  ◌++◌, append-nil, Option, none, some, Option-cases, ℤ, Bytes, text, nat_key, arith, if_cases,
}
use asynchronous_http_web_se.Epoll.{Epoll}
use asynchronous_http_web_se.Http.{Llhttp}
use asynchronous_http_web_se.SocketIo.{Outbound}
use asynchronous_http_web_se.Calls.{sent_by, callbacks}
use asynchronous_http_web_se.Client.{ClientConnection}
use asynchronous_http_web_se.Client.Handler.Sending.{
  write_events, FitAll, unsent, write_events_send_response,
}
use asynchronous_http_web_se.Db.{DbConnection}
use asynchronous_http_web_se.Pooler.{
  PendingQuery, Stepped, DbPooler, Frame, Entry, asks, hands, does, runs, run,
}
use asynchronous_http_web_se.Pooler.Sending.{IsCounted, IsSettled}
use asynchronous_http_web_se.Pooler.Ending.{
  work, total, IsBounded, run_ends, run_further, calls_settle,
}
use asynchronous_http_web_se.Books.{Reply, inserted, selected, JsonLib, App, State, set_client}
use asynchronous_http_web_se.Books.Text.{response_text}
use asynchronous_http_web_se.Http.Reading.{read_response}
use asynchronous_http_web_se.Books.Text.Reading.{read-response_text}
use asynchronous_http_web_se.Books.Safety.Callbacks.{IsLiving}
use asynchronous_http_web_se.Books.Handlers.{
  use_client, reply_cost, sends_next, crash, or_crash, start_write, answer_rows, apply_entry,
  apply_log, settle, root_page,
}

-- The body of the page for the body of the request: the JSON value of the request printed again,
-- or nothing where there is none. `none` is an exception of the JSON library.
abbrev pub page_body : {J : Type 0} → JsonLib J → Bytes → Option Bytes
page_body json request = elim (json.parse request) [
  | none ↦ some []
  | some j ↦ elim (json.int_value j (text "id")) [
    | none ↦ none
    | some id ↦ elim (json.text_value j (text "title")) [ none ↦ none | some title ↦ json.dump j ]
  ]
]

some_injective : {a b : Bytes} → some a ≡ some b → a ≡ b
some_injective {a} e = ap (λ (o : Option Bytes). elim o [ none ↦ a | some c ↦ c ]) e

pub client_at :
    {P : Type 0} (a : ℕ) (conn : ClientConnection P) (clients : ℕ → ClientConnection P)
    → set_client a conn clients a ≡ conn
unfolding set_client
client_at a conn clients = ground arith

-- The bytes that have gone out when the callback of `write` runs without an error, for a response
-- that was put into an empty buffer.
pub written_is_read :
    {P : Type 0} (parser_lib : Llhttp P) (client before : ClientConnection P) (body : Bytes)
    (outs : List Outbound)
    → client ≡ record before { send_buffer = before.send_buffer ++ response_text body }
    → before.send_buffer ≡ []
    → before.sent_bytes ≡ 0
    → FitAll parser_lib outs client
    → callbacks (write_events parser_lib outs client).1 ≢ 0
    → (write_events parser_lib outs client).0.is_error ≡ false
    → read_response (sent_by (write_events parser_lib outs client).1) ≡ some (body, [])
written_is_read {P} parser_lib client before body outs written unsent_yet none_sent fits called
      no_error =
    let r = write_events parser_lib outs client in
    let buffer : client.send_buffer ≡ response_text body =
      ap (λ (c : ClientConnection P). c.send_buffer) written
      ∙ ap (λ (b : Bytes). b ++ response_text body) unsent_yet in
    let sending =
      write_events_send_response parser_lib outs client
        (ap (λ (c : ClientConnection P). c.sent_bytes) written ∙ none_sent) fits in
    let nothing_left : unsent r.0 ≡ [] = elim sending.2 [
      | inl not_called ↦ absurd (called not_called)
      | inr (inl failed) ↦ let e' : true ≡ false = sym failed ∙ no_error in cc
      | inr (inr done) ↦ done
    ] in
    let all_sent : sent_by r.1 ≡ response_text body =
      sym (append-nil (sent_by r.1))
      ∙ ap (λ (b : Bytes). sent_by r.1 ++ b) (sym nothing_left)
      ∙ sending.0
      ∙ buffer in
    ap read_response (all_sent ∙ sym (append-nil (response_text body))) ∙ read-response_text body []

module _ {K P : Type 0} (sys : Epoll K) where
  pub buffer-start_write :
      (a : ℕ) (body : Bytes) (s : State K P)
      → IsLiving s.1.world a
      → (start_write sys a body s).1.clients a
        ≡ record (s.1.clients a) { send_buffer = (s.1.clients a).send_buffer ++ response_text body }
  unfolding start_write use_client
  buffer-start_write a body (t, app) (o, at_a) =
      if_cases
        (λ (s' : State K P). s'.1.clients a ≡ record (app.clients a) {
          send_buffer = (app.clients a).send_buffer ++ response_text body;
        })
        (is_some (app.world.objects a)) _ _ (λ _. client_at a _ app.clients)
        (λ dead. absurd (ground (arith, at_a, dead)))

module _ {K P J : Type 0} (sys : Epoll K) (json : JsonLib J) where
  pub root_page-start_write :
      (a : ℕ) (s : State K P) (body : Bytes)
      → page_body json (s.1.clients a).request.body ≡ some body
      → root_page sys json a s ≡ start_write sys a body s
  unfolding root_page or_crash
  root_page-start_write a s body e = elim (Option-cases (json.parse (s.1.clients a).request.body)) [
    | inl f ↦
        rw (f, root_page)
          (ap (λ (b : Bytes). start_write sys a b s) (some_injective (rw (f, page_body) at e)))
    | inr (j, f) ↦ elim (Option-cases (json.int_value j (text "id"))) [
      | inl g ↦ let e' : none ≡ some body = rw (f, page_body, g) at e in cc
      | inr (id, g) ↦ elim (Option-cases (json.text_value j (text "title"))) [
        | inl h ↦ let e' : none ≡ some body = rw (f, page_body, g, h) at e in cc
        | inr (title, h) ↦
            let dumped : json.dump j ≡ some body = rw (f, page_body, g, h) at e in
            rw (f, root_page, g, h, dumped)
      ]
    ]
  ]

  -- A client that is not deleted, whose request for `/` is read, with nothing sent yet: the bytes that have gone to it
  -- when the callback of `write` runs without an error, over any number of events and however the
  -- `send` calls cut them up, are one complete response, whose stated length is that of its body, the
  -- body of the page.
  pub page_is_answered :
      (parser_lib : Llhttp P) (a : ℕ) (s : State K P) (body : Bytes) (outs : List Outbound)
      → IsLiving s.1.world a
      → page_body json (s.1.clients a).request.body ≡ some body
      → (s.1.clients a).send_buffer ≡ []
      → (s.1.clients a).sent_bytes ≡ 0
      → FitAll parser_lib outs ((root_page sys json a s).1.clients a)
      → let r = write_events parser_lib outs ((root_page sys json a s).1.clients a) in
        callbacks r.1 ≢ 0 → r.0.is_error ≡ false → read_response (sent_by r.1) ≡ some (body, [])
  page_is_answered parser_lib a s body outs living e unsent_yet none_sent fits called no_error =
      written_is_read parser_lib ((root_page sys json a s).1.clients a) (s.1.clients a) body outs
        (ap (λ (s' : State K P). s'.1.clients a) (root_page-start_write a s body e)
          ∙ buffer-start_write sys a body s living)
        unsent_yet none_sent fits called no_error

pub sends_next-IsBounded : {P : Type 0} (app : App P) → IsBounded reply_cost (sends_next app)
unfolding sends_next
sends_next-IsBounded app inserted conn =
    if_cases (λ (qs : List (PendingQuery Reply)). total reply_cost qs < 3) conn.is_error _ _
      (λ _. omega arith) (λ _. ground arith)
sends_next-IsBounded app selected conn = omega arith

module _ {K P J : Type 0} (sys : Epoll K) (json : JsonLib J) where
  pool-answer_rows :
      (conn : DbConnection) (s : State K P) → (answer_rows sys json conn s).1.pool ≡ s.1.pool
  unfolding answer_rows or_crash crash start_write use_client
  pool-answer_rows conn s = ground arith

  pool-apply_entry :
      (e : Entry Reply) (s : State K P) → (apply_entry sys json e s).1.pool ≡ s.1.pool
  unfolding apply_entry
  pool-apply_entry (asks q) s = refl
  pool-apply_entry (hands q c) s = refl
  pool-apply_entry (does c calls) s = refl
  pool-apply_entry (runs inserted conn) s = refl
  pool-apply_entry (runs selected conn) s = pool-answer_rows conn s

  pool-apply_log :
      (log : List (Entry Reply)) (s : State K P) → (apply_log sys json log s).1.pool ≡ s.1.pool
  unfolding apply_log
  pool-apply_log [] s = refl
  pool-apply_log (e ∷ log) s =
      if_cases (λ (r : State K P). r.1.pool ≡ s.1.pool) s.1.crashed _ _ (λ _. refl)
        (λ _. pool-apply_log log (apply_entry sys json e s) ∙ pool-apply_entry e s)

  -- Calls of the pool, with so many steps at most.
  abbrev pub settle_within : (ℕ → ℤ × ℤ) → ℕ → List (Frame Reply) → State K P → State K P
  settle_within answer n fs (t, app) =
      let r = run answer (sends_next app) n fs app.pool in
      apply_log sys json r.log (t, record app { pool = r.pool })

  -- The calls of the pool that a callback of the program makes come to an end within the steps that
  -- the model gives them, with the INSERT's callback sending the SELECT: from every state of the pool,
  -- also from one in which a query waits beside an idle connection. No call is left to make, and more
  -- steps give the same state of the program.
  pub settle_ends :
      (answer : ℕ → ℤ × ℤ) (fs : List (Frame Reply)) (more : ℕ) (s : State K P)
      → let steps = work reply_cost fs s.1.pool in
        ((run answer (sends_next s.1) steps fs s.1.pool).frames ≡ [])
        × (settle_within answer (steps + more) fs s ≡ settle sys json answer fs s)
  unfolding settle
  settle_ends answer fs more (t, app) =
      let n = work reply_cost fs app.pool in
      let ended =
        run_ends answer (sends_next app) reply_cost (sends_next-IsBounded app) n fs app.pool
          (omega arith) in
      (
        ended,
        ap (λ (r : Stepped Reply). apply_log sys json r.log (t, record app { pool = r.pool }))
            (run_further answer (sends_next app) n more fs app.pool ended),
      )

  -- Where the counts of the pool agree and no query waits while a connection is idle, this is so
  -- again after the calls.
  pub settle_keeps :
      (answer : ℕ → ℤ × ℤ) (fs : List (Frame Reply)) (s : State K P)
      → IsCounted s.1.pool
      → IsSettled s.1.pool
      → IsCounted (settle sys json answer fs s).1.pool
        × IsSettled (settle sys json answer fs s).1.pool
  unfolding settle
  settle_keeps answer fs (t, app) counted settled =
      let n = work reply_cost fs app.pool in
      let r = run answer (sends_next app) n fs app.pool in
      let ended =
        calls_settle answer (sends_next app) reply_cost (sends_next-IsBounded app) n fs app.pool
          counted settled (omega arith) in
      let same = pool-apply_log r.log (t, record app { pool = r.pool }) in
      (
        subst (λ (p : DbPooler Reply). IsCounted p) (sym same) ended.2,
        subst (λ (p : DbPooler Reply). IsSettled p) (sym same) ended.1,
      )
