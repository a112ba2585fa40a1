-- ===== src/Client/Parsing/Pipelined.antt =====
-- A second message in one `recv`: `on_reset` zeroes the buffer that the parser is reading.
use asynchronous_http_web_se.Base.{
  ℕ, ◌≤◌, zero, suc, ◌≡◌, refl, sym, ap, subst, ◌∙◌, ◌⊎◌, inl, inr, true, List, [], ◌∷◌, ◌++◌,
  append_assoc, arith, Bytes, length, get_or, drop, length-append, Bool-cases,
}
use asynchronous_http_web_se.Http.{ParserCall, Llhttp, reset}
use asynchronous_http_web_se.Client.{ClientConnection, fill_recv_buffer}
use asynchronous_http_web_se.Client.Callbacks.{deliver}
use asynchronous_http_web_se.Client.Parsing.{deliver_all, parser_step, execute_from, receive}
use asynchronous_http_web_se.Client.Parsing.Calls.{NoReset}
use asynchronous_http_web_se.Client.Parsing.InPlace.{
  fed, then_on, Agrees, Agrees-append, execute_from-on, execute_from-off, parser-then_on,
}

abbrev pub HasReset : List ParserCall → Type 0
HasReset [] = ⊥
HasReset (reset ∷ cs) = Unit {0}
HasReset (_ ∷ cs) = HasReset cs

HasReset-or-NoReset : (cs : List ParserCall) → HasReset cs ⊎ NoReset cs
HasReset-or-NoReset [] = inr tt
HasReset-or-NoReset (reset ∷ cs) = inl tt
HasReset-or-NoReset (_ ∷ cs) = HasReset-or-NoReset cs

-- While it reads these bytes, the parser gets to a further message.
abbrev pub ResetsIn : {P : Type 0} → Llhttp P → P → Bytes → Type 0
ResetsIn parser_lib p [] = ⊥
ResetsIn parser_lib p (b ∷ bs) =
    let (q, calls, go_on) = parser_lib.feed p b in
    HasReset calls ⊎ ((go_on ≡ true) × ResetsIn parser_lib q bs)

module _ {P : Type 0} where
  abbrev with_buffer : ClientConnection P → Bytes → ClientConnection P
  with_buffer conn buffer = record conn { recv_buffer = buffer }

  deliver-with_buffer :
      (c : ParserCall) (cs : List ParserCall) (conn : ClientConnection P) (buffer : Bytes)
      → NoReset (c ∷ cs)
      → deliver c (with_buffer conn buffer) ≡ with_buffer (deliver c conn) buffer
  unfolding deliver
  deliver-with_buffer reset cs conn buffer h = elim h [ ]
  deliver-with_buffer _ cs conn buffer h = refl

  NoReset-rest :
      (c : ParserCall) (cs : List ParserCall) (conn : ClientConnection P)
      → NoReset (c ∷ cs)
      → NoReset cs
  NoReset-rest reset cs conn h = elim h [ ]
  NoReset-rest _ cs conn h = h

  pub deliver_all-with_buffer :
      (cs : List ParserCall) (conn : ClientConnection P) (buffer : Bytes)
      → NoReset cs
      → deliver_all cs (with_buffer conn buffer) ≡ with_buffer (deliver_all cs conn) buffer
  unfolding deliver_all
  deliver_all-with_buffer [] conn buffer h = refl
  deliver_all-with_buffer (c ∷ cs) conn buffer h =
      ap (deliver_all cs) (deliver-with_buffer c cs conn buffer h)
      ∙ deliver_all-with_buffer cs (deliver c conn) buffer (NoReset-rest c cs conn h)

  -- `on_reset` overwrites the buffer, so what was in it does not matter.
  deliver_all_reset :
      (cs : List ParserCall) (conn : ClientConnection P) (buffer : Bytes)
      → HasReset cs
      → deliver_all cs (with_buffer conn buffer) ≡ deliver_all cs conn
  unfolding deliver_all deliver
  deliver_all_reset [] conn buffer h = elim h [ ]
  deliver_all_reset (reset ∷ cs) conn buffer h = refl
  deliver_all_reset (c ∷ cs) conn buffer h = deliver_all_reset cs (deliver c conn) buffer h

module _ {P : Type 0} (parser_lib : Llhttp P) where
  step_after_reset :
      (conn : ClientConnection P) (b : ℕ) (before after : Bytes)
      → HasReset (fed parser_lib conn b).1
      → parser_step parser_lib (fed parser_lib conn b) (with_buffer conn before)
        ≡ parser_step parser_lib (fed parser_lib conn b) (with_buffer conn after)
  unfolding parser_step
  step_after_reset conn b before after h =
      let (p, cs, go_on) = fed parser_lib conn b in
      cc (
        deliver_all_reset cs (record conn { parser = p }) before h,
        deliver_all_reset cs (record conn { parser = p }) after h,
      )

  then_on-with_buffer :
      (conn : ClientConnection P) (b : ℕ) (buffer : Bytes)
      → NoReset (fed parser_lib conn b).1
      → then_on parser_lib (with_buffer conn buffer) b
        ≡ with_buffer (then_on parser_lib conn b) buffer
  unfolding parser_step
  then_on-with_buffer conn b buffer h =
      let (p, cs, go_on) = fed parser_lib conn b in
      deliver_all-with_buffer cs (record conn { parser = p }) buffer h

  -- From here on, the two buffers give the same run, for `n` bytes of which `xs` are the first.
  SameRun : ℕ → ℕ → ClientConnection P → Bytes → Bytes → Type 0
  SameRun n i conn before after =
      execute_from parser_lib n i (with_buffer conn before)
      ≡ execute_from parser_lib n i (with_buffer conn after)

  same_of_reset :
      (n i : ℕ) (conn : ClientConnection P) (b : ℕ) (before after : Bytes)
      → get_or before i 0 ≡ b
      → get_or after i 0 ≡ b
      → HasReset (fed parser_lib conn b).1
      → SameRun (suc n) i conn before after
  unfolding SameRun
  same_of_reset n i conn b before after e f h =
      let stepped = step_after_reset conn b before after h in
      elim (Bool-cases (fed parser_lib conn b).2) [
        | inl on ↦
            execute_from-on parser_lib (with_buffer conn before) b n i e on
            ∙ ap (λ r. execute_from parser_lib n (suc i) r.0) stepped
            ∙ sym (execute_from-on parser_lib (with_buffer conn after) b n i f on)
        | inr off ↦
            execute_from-off parser_lib (with_buffer conn before) b n i e off
            ∙ stepped
            ∙ sym (execute_from-off parser_lib (with_buffer conn after) b n i f off)
      ]

  same_of_next :
      (n i : ℕ) (conn : ClientConnection P) (b : ℕ) (before after : Bytes)
      → get_or before i 0 ≡ b
      → get_or after i 0 ≡ b
      → (fed parser_lib conn b).2 ≡ true
      → NoReset (fed parser_lib conn b).1
      → SameRun n (suc i) (then_on parser_lib conn b) before after
      → SameRun (suc n) i conn before after
  unfolding SameRun
  same_of_next n i conn b before after e f on h rest =
      execute_from-on parser_lib (with_buffer conn before) b n i e on
      ∙ ap (execute_from parser_lib n (suc i)) (then_on-with_buffer conn b before h)
      ∙ rest
      ∙ ap (execute_from parser_lib n (suc i)) (sym (then_on-with_buffer conn b after h))
      ∙ sym (execute_from-on parser_lib (with_buffer conn after) b n i f on)

  SameRun-ResetsIn :
      (xs : Bytes) (n i : ℕ) (conn : ClientConnection P) (before after : Bytes)
      → length xs ≤ n
      → Agrees before i xs
      → Agrees after i xs
      → ResetsIn parser_lib conn.parser xs
      → SameRun n i conn before after
  SameRun-ResetsIn [] n i conn before after h a a' r = elim r [ ]
  SameRun-ResetsIn (b ∷ bs) zero i conn before after h a a' r = absurd (omega arith)
  SameRun-ResetsIn (b ∷ bs) (suc n) i conn before after h a a' (inl now) =
      same_of_reset n i conn b before after a.0 a'.0 now
  SameRun-ResetsIn (b ∷ bs) (suc n) i conn before after h a a' (inr (on, later)) =
      elim (HasReset-or-NoReset (fed parser_lib conn b).1) [
        | inl now ↦ same_of_reset n i conn b before after a.0 a'.0 now
        | inr none_yet ↦ same_of_next n i conn b before after a.0 a'.0 on none_yet (
            SameRun-ResetsIn bs n (suc i) (then_on parser_lib conn b) before after (omega arith) a.1
              a'.1
              (subst (λ p. ResetsIn parser_lib p bs) (sym (parser-then_on parser_lib conn b))
                later))
      ]

  Agrees-front : (xs ys rest : Bytes) → Agrees ((xs ++ ys) ++ rest) 0 xs
  Agrees-front xs ys rest =
      subst (λ buffer. Agrees buffer 0 xs) (sym (append_assoc xs ys rest))
        (Agrees-append [] xs (ys ++ rest))

  -- Where the parser meets a further message within the first bytes `xs` of a `recv`, what follows
  -- `xs` in that `recv` is lost: any other bytes of the same length give the same connection and
  -- the same result.
  pub receive_loses_pipelined :
      (xs ys zs : Bytes) (conn : ClientConnection P)
      → length ys ≡ length zs
      → ResetsIn parser_lib conn.parser xs
      → receive parser_lib (xs ++ ys) conn ≡ receive parser_lib (xs ++ zs) conn
  unfolding receive fill_recv_buffer SameRun
  receive_loses_pipelined xs ys zs conn e r =
      let size : length (xs ++ ys) ≡ length (xs ++ zs) =
        omega (arith, length-append xs ys, length-append xs zs) in
      let before = (xs ++ ys) ++ drop (length (xs ++ ys)) conn.recv_buffer in
      let after = (xs ++ zs) ++ drop (length (xs ++ zs)) conn.recv_buffer in
      SameRun-ResetsIn xs (length (xs ++ ys)) 0 conn before after
        (omega (arith, length-append xs ys)) (Agrees-front xs ys _) (Agrees-front xs zs _) r
      ∙ ap (λ n. execute_from parser_lib n 0 (with_buffer conn after)) size
