-- ===== src/SocketIo.antt =====
-- What the non-blocking socket calls of a handler's loop give, from the first call on. A loop ends
-- at the first result that is not positive, so the results up to that one are a finite list.
use asynchronous_http_web_se.Base.{ℕ, ◌+◌, ◌-◌, ◌≤◌, ◌<◌, Bytes, length}

-- `recv` with MSG_DONTWAIT: some bytes, 0 at the end of the stream, or -1.
pub data Inbound : Type 0 where
  received : Bytes → Inbound → Inbound
  closed : Inbound
  recv_failed : Inbound

-- `send` with MSG_DONTWAIT: the number of bytes that it took, or -1 with an `errno` that is EAGAIN
-- or EWOULDBLOCK, or another one.
pub data Outbound : Type 0 where
  took : ℕ → Outbound → Outbound
  would_block : Outbound
  send_failed : Outbound

-- recv(2): at most as many bytes as the buffer holds, and not none.
abbrev pub FitsBuffer : ℕ → Inbound → Type 0
FitsBuffer size (received bytes rest) =
    (0 < length bytes) × (length bytes ≤ size) × FitsBuffer size rest
FitsBuffer size closed = Unit {0}
FitsBuffer size recv_failed = Unit {0}

-- send(2): at most as many bytes as were offered, of `total` bytes of which `sent` are gone.
abbrev pub FitsOffer : ℕ → ℕ → Outbound → Type 0
FitsOffer total sent (took n rest) = (n ≤ total - sent) × FitsOffer total (sent + n) rest
FitsOffer total sent would_block = Unit {0}
FitsOffer total sent send_failed = Unit {0}
