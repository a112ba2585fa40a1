-- ===== src/Calls.antt =====
-- What a handler of a connection does to the world outside its object, in the order in which it
-- does it. Every handler ignores the status that the reactor's methods return, and runs the
-- application's callback as the last thing before it returns, so the list determines the effect.
pub mod Once
pub mod Chain
pub mod Adding
pub mod Append
use asynchronous_http_web_se.Base.{ℕ, suc, List, [], ◌∷◌, ◌++◌, ℤ, Bytes}
use asynchronous_http_web_se.Epoll.{Epoll}
use asynchronous_http_web_se.Reactor.{EventPriority, Tracker, add_track, modify_track, remove_track}

pub data Call : Type 0 where
  -- `ioc->addTrack`, `modifyTrack` with the handler's own closure, and `removeTrack`
  tracks modifies : ℤ → ℕ → EventPriority → Call
  untracks : ℤ → Call
  -- the bytes that one `send` took
  transmits : ℤ → Bytes → Call
  -- `PQclear(res)`
  clears : Call
  -- `cb(this)`
  calls_back : Call

-- The calls on the reactor, where `closure` is the `[this, cb]` lambda that the object registers.
module _ {K C : Type 0} (sys : Epoll K) (closure : C) where
  unfoldable pub perform_call : Call → Tracker K C → Tracker K C
  perform_call (tracks fd mask priority) t = (add_track sys t fd mask priority closure).0
  perform_call (modifies fd mask priority) t = (modify_track sys t fd mask priority closure).0
  perform_call (untracks fd) t = (remove_track sys t fd).0
  perform_call (transmits fd bytes) t = t
  perform_call clears t = t
  perform_call calls_back t = t

  unfoldable pub perform : List Call → Tracker K C → Tracker K C
  unfolding perform_call
  perform [] t = t
  perform (c ∷ cs) t = perform cs (perform_call c t)

-- The bytes that a list of calls puts on the wire.
abbrev pub sent_by : List Call → Bytes
sent_by [] = []
sent_by (transmits fd bytes ∷ cs) = bytes ++ sent_by cs
sent_by (tracks fd mask priority ∷ cs) = sent_by cs
sent_by (modifies fd mask priority ∷ cs) = sent_by cs
sent_by (untracks fd ∷ cs) = sent_by cs
sent_by (clears ∷ cs) = sent_by cs
sent_by (calls_back ∷ cs) = sent_by cs

-- How often a list of calls runs the application's callback.
abbrev pub callbacks : List Call → ℕ
callbacks [] = 0
callbacks (calls_back ∷ cs) = suc (callbacks cs)
callbacks (tracks fd mask priority ∷ cs) = callbacks cs
callbacks (modifies fd mask priority ∷ cs) = callbacks cs
callbacks (untracks fd ∷ cs) = callbacks cs
callbacks (clears ∷ cs) = callbacks cs
callbacks (transmits fd bytes ∷ cs) = callbacks cs

-- How many query results a list of calls frees.
abbrev pub cleared : List Call → ℕ
cleared [] = 0
cleared (clears ∷ cs) = suc (cleared cs)
cleared (tracks fd mask priority ∷ cs) = cleared cs
cleared (modifies fd mask priority ∷ cs) = cleared cs
cleared (untracks fd ∷ cs) = cleared cs
cleared (transmits fd bytes ∷ cs) = cleared cs
cleared (calls_back ∷ cs) = cleared cs
