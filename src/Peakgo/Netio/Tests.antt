-- ===== src/Peakgo/Netio/Tests.antt =====
-- Runs of the packet framing (server/peakgo/netio/packet.go).
use minnsun_s_adventure.Common.{◌≡◌, refl, inl, [], ◌∷◌, none, some}
use minnsun_s_adventure.Peakgo.Netio.{
  Conn, broken, eof, unexpected_eof, empty_packet, packet_too_large, new_bytes_pool, read_header,
  read_payload, write_packet, get_buffer, put_buffer,
}

abbrev cut_off : Conn
cut_off = record { pieces = (1 ∷ []) ∷ []; ending = eof }

header_is_cut_off :
    read_header cut_off ≡ some (inl unexpected_eof, record { pieces = []; ending = eof })
unfolding read_header
header_is_cut_off = refl

zero_length_is_refused :
    read_payload cut_off (new_bytes_pool 4) 0 ≡ some (inl empty_packet, cut_off, new_bytes_pool 4)
unfolding read_payload
zero_length_is_refused = refl

large_length_is_refused :
    read_payload cut_off (new_bytes_pool 4) 4097
    ≡ some (inl packet_too_large, cut_off, new_bytes_pool 4)
unfolding read_payload
large_length_is_refused = refl

-- A buffer that is larger than the pool's is given back.
cut_off_payload :
    read_payload cut_off (new_bytes_pool 2) 3
    ≡ some (
      inl unexpected_eof,
      record { pieces = []; ending = eof },
      record { size = 2; kept = record { array = 1 ∷ 0 ∷ 0 ∷ []; len = 2 } ∷ [] },
    )
unfolding read_payload get_buffer put_buffer
cut_off_payload = refl

partial_writes :
    write_packet
      (record { taken = 2; error = none } ∷ record { taken = 1; error = some broken } ∷ [])
      (5 ∷ 6 ∷ 7 ∷ 8 ∷ [])
    ≡ (5 ∷ 6 ∷ 7 ∷ [], some broken)
unfolding write_packet
partial_writes = refl
