-- ===== src/Network/Router/Streams.antt =====
-- What the loop of `HandleClient` (server/network/router.go) makes of a stream of frames.
use minnsun_s_adventure.Common.{
  ℕ, ◌+◌, ◌/◌, ◌%◌, ◌≤◌, ◌≡◌, Bool, false, ◌&&◌, List, [], ◌∷◌, ◌++◌, Option, some, ◌==◌,
  if◌then◌else◌, length,
}
use minnsun_s_adventure.Peakgo.Codec.{Bytes}
use minnsun_s_adventure.Peakgo.Netio.Reading.{flat}
use minnsun_s_adventure.Peakgo.Netio.Pool.{IsPool}
use minnsun_s_adventure.Peakgo.RateLimit.{LimitConfig, RateLimiter, allow}
use minnsun_s_adventure.Network.Router.{Packet, Session, Turn, dropped, dispatched}

-- A frame: the length of its body, in two bytes, and the body. The first byte of a body is the opcode.
abbrev pub frame : Bytes → Bytes
frame body = length body / 256 ∷ length body % 256 ∷ body

abbrev pub stream : List Bytes → Bytes → Bytes
stream [] rest = rest
stream (body ∷ bodies) rest = frame body ++ stream bodies rest

abbrev pub AllFit : List Bytes → Type 0
AllFit [] = ℕ
AllFit (body ∷ bodies) = (length body ≤ 4096) × AllFit bodies

-- The payload of a packet that is dispatched: without its first four bytes, where it has four.
abbrev pub without_trace : Bytes → Bytes
without_trace (a ∷ b ∷ c ∷ d ∷ payload) = payload
without_trace payload = payload

-- The packet is a QUIT, of opcode 7, with nothing in it.
abbrev pub quits : Packet → Bool
quits packet = elim packet.payload [ [] ↦ packet.opcode == 7 | x ∷ xs ↦ false ]

-- The packets that the rate limiter admits, of those that are not empty, up to the first QUIT among them.
abbrev pub admitted : LimitConfig → ℕ → (ℕ → ℕ) → ℕ → RateLimiter → List Bytes → List Packet
admitted cfg id ticks k rl [] = []
admitted cfg id ticks k rl ([] ∷ bodies) = admitted cfg id ticks k rl bodies
admitted cfg id ticks k rl ((opcode ∷ payload) ∷ bodies) =
    let (ok, rl') = allow cfg id (ticks k) rl in
    let rest = admitted cfg id ticks (k + 1) rl' bodies in
    let packet : Packet = record { opcode = opcode; payload = without_trace payload } in
    if ok then packet ∷ (if quits packet then [] else rest) else rest

module _ (cfg : LimitConfig) (id : ℕ) where
  -- The limiter admits a packet, and it is a QUIT.
  abbrev ends_here : Bool → Packet → Bool
  ends_here ok packet = ok && quits packet

  -- What an iteration that read a packet gives.
  abbrev IsTurn : ℕ → Bytes → Bytes → Session → ℕ → Option Turn → Type 0
  IsTurn x payload ys s tick o =
      let packet : Packet = record { opcode = x; payload = without_trace payload } in
      let ok = (allow cfg id tick s.limiter).0 in
      (s' : Session) × (o ≡ some (if ok then dispatched packet s' else dropped s'))
      × (s'.limiter ≡ (allow cfg id tick s.limiter).1)
      × (flat s'.conn.pieces ≡ (if ends_here ok packet then [] else ys))
      × IsPool s'.pool
