-- ===== src/Peakgo/Netio.antt =====
-- The framing of packets (server/peakgo/netio/packet.go) over a connection, and the pool of byte buffers
-- (server/peakgo/pool/pool.go). A connection is what its reads will return: the pieces in which the bytes
-- arrive, of any size, and the error after them. Deadlines are left out.
pub mod Reading
pub mod Pool
mod Tests
use minnsun_s_adventure.Common.{
  ℕ, zero, suc, ◌-◌, ◌*◌, Bool, true, false, ◌⊎◌, inl, inr, List, [], ◌∷◌, ◌++◌, Option, none, some,
  ltb, ◌==◌, if◌then◌else◌, length, take, drop, replicate,
}
use minnsun_s_adventure.Common.Partial.{◌>>=◌}
use minnsun_s_adventure.Peakgo.Codec.{Bytes, read_uint16}

-- `io.EOF`, `io.ErrUnexpectedEOF`, any other error of the connection, and the errors of this package.
pub data NetError : Type 0 where
  eof : NetError
  unexpected_eof : NetError
  broken : NetError
  empty_packet : NetError
  packet_too_large : NetError

pub record Conn : Type 0 where
  pub pieces : List Bytes
  pub ending : NetError

-- `conn.Read` into n bytes: what is read, the error, and the connection.
abbrev pub read : ℕ → Conn → Bytes × Option NetError × Conn
read n c = elim c.pieces [
  | [] ↦ ([], some c.ending, c)
  | piece ∷ pieces ↦
      if ltb n (length piece)
      then (take n piece, none, record c { pieces = drop n piece ∷ pieces })
      else (piece, none, record c { pieces = pieces })
]

-- The reads that fill n bytes, as far as the pieces go: what is read, and the pieces left.
abbrev pub fill : ℕ → List Bytes → Bytes × List Bytes
fill zero pieces = ([], pieces)
fill (suc n) [] = ([], [])
fill (suc n) (piece ∷ pieces) =
    let (more, left) = fill (suc n - length piece) pieces in
    if ltb (suc n) (length piece)
    then (take (suc n) piece, drop (suc n) piece ∷ pieces)
    else (piece ++ more, left)

-- The error of `io.ReadFull` where the reads ended early.
abbrev pub early : Bytes → NetError → NetError
early [] e = e
early (x ∷ got) eof = unexpected_eof
early (x ∷ got) e = e

-- `io.ReadFull` of n bytes.
abbrev pub read_full : ℕ → Conn → Bytes × Option NetError × Conn
read_full n c =
    let (got, left) = fill n c.pieces in
    let c' = record c { pieces = left } in
    if ltb (length got) n then (got, some (early got c.ending), c') else (got, none, c')

-- `if err == io.EOF { return 0, io.ErrUnexpectedEOF }`
abbrev pub header_error : NetError → NetError
header_error eof = unexpected_eof
header_error e = e

-- The end of `ReadHeader`, with the bytes of its two-byte buffer.
abbrev pub header_of : Bytes → Option NetError → Conn → Option ((NetError ⊎ ℕ) × Conn)
header_of b (some e) c = some (inl (header_error e), c)
header_of b none c = do n ← read_uint16 b; some (inr n, c)

-- `ReadHeader` after its first read.
abbrev pub after_read : Bytes × Option NetError × Conn → Option ((NetError ⊎ ℕ) × Conn)
after_read (b, some e, c) = header_of b (some e) c
after_read (b, none, c) =
    let (more, err, c') = read_full (2 - length b) c in
    if ltb (length b) 2 then header_of (b ++ more) err c' else header_of b none c

-- `ReadHeader`
unfoldable pub read_header : Conn → Option ((NetError ⊎ ℕ) × Conn)
read_header c = after_read (read 2 c)

-- A `[]byte` from its start: the bytes up to its capacity, and its length.
pub record Buffer : Type 0 where
  pub array : Bytes
  pub len : ℕ

-- `(*b)[:n]`, which panics beyond the capacity.
abbrev pub reslice : ℕ → Buffer → Option Buffer
reslice n b = if ltb (length b.array) n then none else some (record b { len = n })

-- `make([]byte, n)`
abbrev pub make : ℕ → Buffer
make n = record { array = replicate n 0; len = n }

-- `BytesPool`, with the buffers that `sync.Pool` keeps.
pub record BytesPool : Type 0 where
  pub size : ℕ
  pub kept : List Buffer

abbrev pub new_bytes_pool : ℕ → BytesPool
new_bytes_pool size = record { size = size; kept = [] }

-- `Get`: the buffer that `sync.Pool` returns is the first of those kept, or a new one.
unfoldable pub get_buffer : BytesPool → Option (Buffer × BytesPool)
get_buffer p = elim p.kept [
  | [] ↦ some (make p.size, p)
  | b ∷ kept ↦ do b' ← reslice p.size b; some (b', record p { kept = kept })
]

-- `Put`
unfoldable pub put_buffer : Buffer → BytesPool → Option BytesPool
put_buffer b p =
    if ltb (p.size * 4) (length b.array)
    then some p
    else do b' ← reslice p.size b; some (record p { kept = b' ∷ p.kept })

abbrev pub max_packet_size : ℕ
max_packet_size = 4096

-- The buffer for a packet of some length.
abbrev pub room_for : ℕ → Buffer → Option Buffer
room_for n b = if ltb b.len n then some (make n) else reslice n b

-- A buffer after bytes were read into it.
abbrev pub overwrite : Bytes → Buffer → Buffer
overwrite got b = record b { array = got ++ drop (length got) b.array }

-- The end of `ReadPayload`.
abbrev pub payload_of :
    Buffer
    → BytesPool
    → Bytes × Option NetError × Conn
    → Option ((NetError ⊎ Buffer) × Conn × BytesPool)
payload_of b p (got, some e, c) = do p' ← put_buffer (overwrite got b) p; some (inl e, c, p')
payload_of b p (got, none, c) = some (inr (overwrite got b), c, p)

-- `ReadPayload`
unfoldable pub read_payload : Conn → BytesPool → ℕ → Option ((NetError ⊎ Buffer) × Conn × BytesPool)
unfolding get_buffer
read_payload c p n =
    if n == 0
    then some (inl empty_packet, c, p)
    else if ltb max_packet_size n
    then some (inl packet_too_large, c, p)
    else do (b, p') ← get_buffer p; b' ← room_for n b; payload_of b' p' (read_full n c)

-- One `conn.Write`: how many bytes it takes, and its error.
pub record Answer : Type 0 where
  pub taken : ℕ
  pub error : Option NetError

-- `WritePacket`: the bytes sent, and the error. Writes with no answer given take all bytes.
unfoldable pub write_packet : List Answer → Bytes → Bytes × Option NetError
write_packet [] frame = (frame, none)
write_packet (a ∷ answers) [] = ([], none)
write_packet (a ∷ answers) (x ∷ frame) =
    let sent = take a.taken (x ∷ frame) in
    let (more, err) = write_packet answers (drop a.taken (x ∷ frame)) in
    elim a.error [ some e ↦ (sent, some e) | none ↦ (sent ++ more, err) ]
