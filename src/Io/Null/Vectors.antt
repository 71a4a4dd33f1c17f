-- ===== src/Io/Null/Vectors.antt =====
-- A vector of packets is written as the packets are, one after the other.
use qproto.Common.{List, [], ◌∷◌}
use qproto.Fifo.{AvtPktd}
use qproto.Io.Null.{NullCtx, null_write_pkt}

-- The packets one by one, with the positions that are returned.
abbrev pub write_each : NullCtx → List AvtPktd → NullCtx
write_each io [] = io
write_each io (p ∷ iov) = write_each (null_write_pkt io p).1 iov
