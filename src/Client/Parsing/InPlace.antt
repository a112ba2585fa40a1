-- ===== src/Client/Parsing/InPlace.antt =====
-- The run of the parser over the receive buffer, against its run over the received bytes.
use asynchronous_http_web_se.Base.{
  ℕ, zero, suc, ◌+◌, ◌≡◌, refl, sym, ap, subst, length-append, ◌∙◌, inl, inr, Bool, true, false,
  List, [], ◌∷◌, ◌++◌, append_assoc, arith, Bytes, length, get_or, replicate, drop, get_or-append,
  get_or-replicate, Bool-cases,
}
use asynchronous_http_web_se.Http.{ParserCall, Llhttp}
use asynchronous_http_web_se.Client.{ClientConnection, fill_recv_buffer, zeroed}
use asynchronous_http_web_se.Client.Parsing.{parser_step, execute_from, receive}
use asynchronous_http_web_se.Client.Parsing.Calls.{
  NoReset, NoReset-append, deliver_all-parser, deliver_all-append, deliver_all-recv_buffer,
}

-- The run of the parser alone, over bytes that nobody writes to: all its calls, and whether it
-- reached the end.
unfoldable pub parse_bytes : {P : Type 0} → Llhttp P → P → Bytes → P × List ParserCall × Bool
parse_bytes parser_lib p [] = parser_lib.finish p
parse_bytes parser_lib p (b ∷ bs) =
    let r = parser_lib.feed p b in
    let rest = parse_bytes parser_lib r.0 bs in
    elim r.2 [ true ↦ (rest.0, r.1 ++ rest.1, rest.2) | false ↦ r ]

-- From index `i` on the buffer holds these bytes.
abbrev pub Agrees : Bytes → ℕ → Bytes → Type 0
Agrees buffer i [] = Unit {0}
Agrees buffer i (b ∷ bs) = (get_or buffer i 0 ≡ b) × Agrees buffer (suc i) bs

Agrees-shift :
    (pre : Bytes) (b : ℕ) (bs rest : Bytes)
    → Agrees ((pre ++ b ∷ []) ++ (bs ++ rest)) (length (pre ++ b ∷ [])) bs
    → Agrees (pre ++ b ∷ (bs ++ rest)) (suc (length pre)) bs
Agrees-shift pre b bs rest h =
    subst (λ k. Agrees (pre ++ b ∷ (bs ++ rest)) k bs) (length-append pre (b ∷ []) ∙ omega arith)
      (subst (λ buffer. Agrees buffer (length (pre ++ b ∷ [])) bs)
        (append_assoc pre (b ∷ []) (bs ++ rest)) h)

pub Agrees-append : (pre bytes rest : Bytes) → Agrees (pre ++ (bytes ++ rest)) (length pre) bytes
Agrees-append pre [] rest = tt
Agrees-append pre (b ∷ bs) rest = (
  ap (λ (k : ℕ). get_or (pre ++ b ∷ (bs ++ rest)) k 0) {x = length pre} {y = length pre + 0}
        (omega arith)
      ∙ get_or-append pre (b ∷ (bs ++ rest)) 0 0,
  Agrees-shift pre b bs rest (Agrees-append (pre ++ b ∷ []) bs rest),
)

Agrees-zeroed : (n i : ℕ) → Agrees zeroed i (replicate n 0)
unfolding zeroed
Agrees-zeroed zero i = tt
Agrees-zeroed (suc n) i = (get_or-replicate 1024 i 0, Agrees-zeroed n (suc i))

module _ {P : Type 0} (parser_lib : Llhttp P) where
  parser_step-append :
      (r s : P × List ParserCall × Bool) (conn : ClientConnection P)
      → parser_step parser_lib s (parser_step parser_lib r conn).0
        ≡ parser_step parser_lib (s.0, r.1 ++ s.1, s.2) conn
  unfolding parser_step
  parser_step-append (p, cs, b) (q, ds, d) conn = cc (
    deliver_all-append cs ds (record conn { parser = q }),
    deliver_all-parser cs p conn,
    deliver_all-parser cs q conn,
  )

  parser-parser_step :
      (r : P × List ParserCall × Bool) (conn : ClientConnection P)
      → (parser_step parser_lib r conn).0.parser ≡ r.0
  unfolding parser_step
  parser-parser_step (p, cs, b) conn =
      ap (λ (c : ClientConnection P). c.parser) (deliver_all-parser cs p conn)

  recv_buffer-parser_step :
      (r : P × List ParserCall × Bool) (conn : ClientConnection P)
      → NoReset r.1
      → (parser_step parser_lib r conn).0.recv_buffer ≡ conn.recv_buffer
  unfolding parser_step
  recv_buffer-parser_step (p, cs, b) conn h =
      deliver_all-recv_buffer cs (record conn { parser = p }) h

  module _ (conn : ClientConnection P) (b : ℕ) where
    -- What the parser makes of the next byte, and the connection after its calls.
    abbrev pub fed : P × List ParserCall × Bool
    fed = parser_lib.feed conn.parser b

    abbrev pub then_on : ClientConnection P
    then_on = (parser_step parser_lib fed conn).0

    pub execute_from-on :
        (n i : ℕ)
        → get_or conn.recv_buffer i 0 ≡ b
        → fed.2 ≡ true
        → execute_from parser_lib (suc n) i conn ≡ execute_from parser_lib n (suc i) then_on
    unfolding execute_from
    execute_from-on n i e =
        subst
          (λ x.
            (parser_lib.feed conn.parser x).2 ≡ true
            → execute_from parser_lib (suc n) i conn
              ≡ execute_from parser_lib n (suc i)
                  (parser_step parser_lib (parser_lib.feed conn.parser x) conn).0)
          e (λ on. rw (on, execute_from))

    pub execute_from-off :
        (n i : ℕ)
        → get_or conn.recv_buffer i 0 ≡ b
        → fed.2 ≡ false
        → execute_from parser_lib (suc n) i conn ≡ parser_step parser_lib fed conn
    unfolding execute_from
    execute_from-off n i e =
        subst
          (λ x.
            (parser_lib.feed conn.parser x).2 ≡ false
            → execute_from parser_lib (suc n) i conn
              ≡ parser_step parser_lib (parser_lib.feed conn.parser x) conn)
          e (λ off. rw (off, execute_from))

    parse_bytes-on :
        (bs : Bytes)
        → fed.2 ≡ true
        → let rest = parse_bytes parser_lib fed.0 bs in
          parse_bytes parser_lib conn.parser (b ∷ bs) ≡ (rest.0, fed.1 ++ rest.1, rest.2)
    unfolding parse_bytes
    parse_bytes-on bs on = rw (on, parse_bytes)

    parse_bytes-off :
        (bs : Bytes) → fed.2 ≡ false → parse_bytes parser_lib conn.parser (b ∷ bs) ≡ fed
    unfolding parse_bytes
    parse_bytes-off bs off = rw (off, parse_bytes)

  pub parser-then_on :
      (conn : ClientConnection P) (b : ℕ) → (then_on conn b).parser ≡ (fed conn b).0
  parser-then_on conn b = parser-parser_step (fed conn b) conn

  -- Without an `on_reset` among the calls, the run over the buffer is the run over the bytes, with
  -- all its calls made one after the other.
  execute_from-eq-parse_bytes :
      (bytes : Bytes) (i : ℕ) (conn : ClientConnection P)
      → Agrees conn.recv_buffer i bytes
      → NoReset (parse_bytes parser_lib conn.parser bytes).1
      → execute_from parser_lib (length bytes) i conn
        ≡ parser_step parser_lib (parse_bytes parser_lib conn.parser bytes) conn
  execute_from-eq-parse_bytes [] i conn a h = unfold execute_from parse_bytes in refl
  execute_from-eq-parse_bytes (b ∷ bs) i conn a h = elim (Bool-cases (fed conn b).2) [
    | inr off ↦
        execute_from-off conn b (length bs) i a.0 off
        ∙ ap (λ r. parser_step parser_lib r conn) (sym (parse_bytes-off conn b bs off))
    | inl on ↦
        let conn' = then_on conn b in
        let both =
          NoReset-append (fed conn b).1 (parse_bytes parser_lib (fed conn b).0 bs).1
            (subst (λ r. NoReset r.1) (parse_bytes-on conn b bs on) h) in
        execute_from-on conn b (length bs) i a.0 on
        ∙ execute_from-eq-parse_bytes bs (suc i) conn'
            (subst (λ buffer. Agrees buffer (suc i) bs)
              (sym (recv_buffer-parser_step (fed conn b) conn both.0)) a.1)
            (subst (λ p. NoReset (parse_bytes parser_lib p bs).1) (sym (parser-then_on conn b))
              both.1)
        ∙ ap (λ p. parser_step parser_lib (parse_bytes parser_lib p bs) conn')
            (parser-then_on conn b)
        ∙ parser_step-append (fed conn b) (parse_bytes parser_lib (fed conn b).0 bs) conn
        ∙ ap (λ r. parser_step parser_lib r conn) (sym (parse_bytes-on conn b bs on))
  ]

  -- Where the parser makes no `on_reset` call on these bytes, receiving them hands over exactly the
  -- calls that the parser makes on the bytes alone, in that order.
  pub receive-eq-parse_bytes :
      (bytes : Bytes) (conn : ClientConnection P)
      → NoReset (parse_bytes parser_lib conn.parser bytes).1
      → receive parser_lib bytes conn
        ≡ parser_step parser_lib
            (parse_bytes parser_lib conn.parser bytes)
            (fill_recv_buffer bytes conn)
  unfolding receive fill_recv_buffer
  receive-eq-parse_bytes bytes conn h =
      execute_from-eq-parse_bytes bytes 0 (fill_recv_buffer bytes conn)
        (Agrees-append [] bytes (drop (length bytes) conn.recv_buffer)) h
