-- ===== src/Packet/Tests.antt =====
-- A packet at a concrete input.
use qproto.Common.{◌≡◌, refl, arith, true, false, some}
use qproto.Common.Int.{pos}
use qproto.Packet.{
  AvtPacketData, StreamData, Body, no_compression, packet_change_size, packet_series,
}
use qproto.Packet.Series.{description, packet_series-packet_change_size}

abbrev frame : StreamData
frame = record {
  data_length = 5000;
  pkt_segmented = false;
  pkt_compression = no_compression;
  pts = pos 7;
  duration = pos 1;
}

abbrev packet : AvtPacketData
packet = record { seq = 3; stream_id = 1; body = Body.stream_data frame }

abbrev first_part : AvtPacketData
first_part = record packet {
  body = Body.stream_data (record frame { data_length = 1200; pkt_segmented = true });
}

cut : packet_change_size packet 0 1200 5000 ≡ some first_part
unfolding packet_change_size
cut = refl

packet_series-packet_change_size_example :
    (packet_series first_part ≡ description 0 1200 5000 packet.body)
    × (first_part.seq ≡ packet.seq)
    × (first_part.stream_id ≡ packet.stream_id)
packet_series-packet_change_size_example =
    packet_series-packet_change_size packet first_part 0 1200 5000 (omega arith) cut
