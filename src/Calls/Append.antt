-- ===== src/Calls/Append.antt =====
-- What two lists of calls do one after the other.
use asynchronous_http_web_se.Base.{
  ◌+◌, ◌≡◌, refl, sym, ap, ◌∙◌, List, [], ◌∷◌, ◌++◌, append_assoc, arith,
}
use asynchronous_http_web_se.Calls.{
  Call, tracks, modifies, untracks, transmits, clears, calls_back, sent_by, callbacks,
}

pub sent_by-append : (cs ds : List Call) → sent_by (cs ++ ds) ≡ sent_by cs ++ sent_by ds
sent_by-append [] ds = refl
sent_by-append (transmits fd bytes ∷ cs) ds =
    ap (◌++◌ bytes) (sent_by-append cs ds) ∙ sym (append_assoc bytes (sent_by cs) (sent_by ds))
sent_by-append (tracks fd mask priority ∷ cs) ds = sent_by-append cs ds
sent_by-append (modifies fd mask priority ∷ cs) ds = sent_by-append cs ds
sent_by-append (untracks fd ∷ cs) ds = sent_by-append cs ds
sent_by-append (clears ∷ cs) ds = sent_by-append cs ds
sent_by-append (calls_back ∷ cs) ds = sent_by-append cs ds

pub callbacks-append : (cs ds : List Call) → callbacks (cs ++ ds) ≡ callbacks cs + callbacks ds
callbacks-append [] ds = omega arith
callbacks-append (transmits fd bytes ∷ cs) ds = callbacks-append cs ds
callbacks-append (tracks fd mask priority ∷ cs) ds = callbacks-append cs ds
callbacks-append (modifies fd mask priority ∷ cs) ds = callbacks-append cs ds
callbacks-append (untracks fd ∷ cs) ds = callbacks-append cs ds
callbacks-append (clears ∷ cs) ds = callbacks-append cs ds
callbacks-append (calls_back ∷ cs) ds = omega (arith, callbacks-append cs ds)
