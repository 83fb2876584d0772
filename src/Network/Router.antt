-- ===== src/Network/Router.antt =====
-- The loop that reads a player's packets (server/network/router.go): of `HandleClient`, the loop after the
-- greeting, and the start of `HandleBinaryPacket`. Of the handlers of opcodes, what they do to the connection is
-- modelled, which is that QUIT closes it; what a run gives is the calls of `DispatchPacket`, in their order.
-- Trace IDs, logs and what other goroutines do to the connection are left out.
pub mod Streams
mod Tests
use minnsun_s_adventure.Common.{
  ℕ, zero, suc, ◌+◌, Bool, true, false, ◌⊎◌, inl, inr, List, [], ◌∷◌, Option, none, some, ltb, ◌==◌,
  if◌then◌else◌, length, take, drop,
}
use minnsun_s_adventure.Common.Partial.{◌>>=◌}
use minnsun_s_adventure.Peakgo.Codec.{Bytes, read_uint8}
use minnsun_s_adventure.Peakgo.Netio.{
  Conn, Buffer, BytesPool, NetError, broken, read_header, reslice, put_buffer, read_payload,
}
use minnsun_s_adventure.Peakgo.RateLimit.{LimitConfig, RateLimiter, allow}

-- A call of `DispatchPacket`: the opcode and the payload.
pub record Packet : Type 0 where
  pub opcode : ℕ
  pub payload : Bytes

-- `HandleBinaryPacket`: the first four bytes of a payload, where it has them, are the trace ID.
abbrev pub handle_binary_packet : ℕ → Bytes → Packet
handle_binary_packet opcode payload = record {
  opcode = opcode;
  payload = if ltb (length payload) 4 then payload else drop 4 payload;
}

-- `protocol.OpcodeC2SQuit`
abbrev pub quit_opcode : ℕ
quit_opcode = 7

-- `conn.Close()`: every later read fails.
abbrev pub close_conn : Conn → Conn
close_conn c = record { pieces = []; ending = broken }

-- `handleQuit`, on a payload.
abbrev pub handle_quit : Bytes → Conn → Conn
handle_quit payload c = if length payload == 0 then close_conn c else c

-- What `DispatchPacket` does to the connection: of the handlers, that of QUIT alone closes it.
abbrev pub dispatch_packet : Packet → Conn → Conn
dispatch_packet packet c = if packet.opcode == quit_opcode then handle_quit packet.payload c else c

-- The packet in a buffer: `buf := (*pBuf)[:length]`, its first byte and `buf[1:]`.
abbrev pub packet_of : ℕ → Buffer → Option Packet
packet_of n b = do
  b' ← reslice n b
  let buf = take b'.len b'.array
  opcode ← read_uint8 buf
  some (handle_binary_packet opcode (drop 1 buf))

-- What the loop changes.
pub record Session : Type 0 where
  pub conn : Conn
  pub pool : BytesPool
  pub limiter : RateLimiter

-- How an iteration ends: the loop is left, or goes on, after a packet was dispatched or not.
pub data Turn : Type 0 where
  leave : Session → Turn
  skip : Session → Turn
  dropped : Session → Turn
  dispatched : Packet → Session → Turn

module _ (cfg : LimitConfig) (id : ℕ) where
  -- The iteration from the call of `Allow` on.
  abbrev pub admit : ℕ → ℕ → Buffer → Session → Option Turn
  admit tick n b s =
      let (ok, limiter) = allow cfg id tick s.limiter in
      if ok
      then (do
        packet ← packet_of n b
        pool ← put_buffer b s.pool
        some (
            dispatched packet
              (record s { conn = dispatch_packet packet s.conn; pool = pool; limiter = limiter })))
      else (do
        pool ← put_buffer b s.pool
        some (dropped (record s { pool = pool; limiter = limiter })))

  -- An iteration of the loop of `HandleClient` at a tick.
  unfoldable pub turn : ℕ → Session → Option Turn
  turn tick s = do
    (header, c) ← read_header s.conn
    elim header [
      | inl e ↦ some (leave (record s { conn = c }))
      | inr n ↦ if n == 0 then some (skip (record s { conn = c })) else do
        (payload, c', pool) ← read_payload c s.pool n
        elim payload [
          | inl e ↦ some (leave (record s { conn = c'; pool = pool }))
          | inr b ↦ admit tick n b (record s { conn = c'; pool = pool })
        ]
    ]

  -- The loop on fuel, with the ticks of the calls of `Allow` in their order: the packets dispatched. None is
  -- a panic, or too little fuel or too few ticks.
  unfoldable pub serve : ℕ → (ℕ → ℕ) → ℕ → Session → Option (List Packet)
  unfolding turn
  serve zero ticks k s = none
  serve (suc fuel) ticks k s = turn (ticks k) s >>= (λ t. elim t [
    | leave s' ↦ some []
    | skip s' ↦ serve fuel ticks k s'
    | dropped s' ↦ serve fuel ticks (k + 1) s'
    | dispatched packet s' ↦ serve fuel ticks (k + 1) s' >>= (λ rest. some (packet ∷ rest))
  ])
