-- ===== src/Lib.antt =====
-- A verification library of libavtransport, the C library of the AVTransport protocol.
--
-- The program: a sender puts packets of media into buffers, splits them and hands them to a protocol; a
-- receiver does the reverse. Everything goes through a few parts, which are modelled here.
--
-- - Common: the shared names, lists under native indices, machine words, errors and integers.
-- - Memory (libavtransport/bytestream.h, AVT_WB8 to AVT_RL64): words in a list of bytes. A pointer is an
--   index. Memory/Loads, Memory/Stores and Memory/Writes are what a load gives of a store, and what a
--   store leaves alone.
-- - Bytestream (libavtransport/bytestream.h, AVTBytestream and avt_bs*): a reader and writer between two
--   pointers. The functions that macros make for each width are one function of the width and the byte
--   order; a failed assertion is `none`, in builds that have them (CONFIG_ASSERT_LEVEL 1 or 2).
-- - Rational (libavtransport/rational.c, include/avtransport/rational.h): rescaling and comparison of
--   timestamps. The 128-bit integers are integers, since no product of the code leaves 128 bits.
--   Rational/Gcd and Rational/Reduce have gcd_ab, reduce_rational and avt_add_stable.
-- - Packet (libavtransport/utils_packet_template.h, packet_common.h): packets. The union of all packets
--   is generated from the specification, so the model has the members and the fields that the code names.
-- - Buffer (libavtransport/buffer.h, buffer.c): views of reference counted memory. Addresses are numbers;
--   the counters are a heap that every operation takes and returns, and a use of a freed counter or a
--   failed assertion is `none`. Results of malloc and realloc are arguments.
-- - Fifo (libavtransport/utils.c, utils_internal.h): the queue of packets. Its slots go to the end of the
--   allocation, since the code reads what departed packets left there.
-- - SlidingWin (libavtransport/utils.c, avt_sliding_win): the window of the bandwidth that was used.
-- - Encode (libavtransport/utils_packet.h): avt_packet_create_segment and avt_packet_encode_header. The
--   generated avt_encode_* are a parameter.
-- - Scheduler (libavtransport/scheduler.c, scheduler.h): the accounts, Scheduler/Streams for
--   the top packet of a stream, and Scheduler/Push for scheduler_push_internal, which splits a packet.
--   The generated avt_pkt_hdr_size is a parameter.
-- - Strings (the C library's strcmp, strtok_r, strtoul and strtol): strings are lists of character codes.
-- - Address (libavtransport/address.c, address.h, include/avtransport/connection.h): UUIDs; Address/Host,
--   Address/Settings and Address/Url for the parts of a URL, and Address/Info for the other descriptions of
--   a connection. What the system answers is the record `System`. A use of NULL is a fault.
-- - Io (libavtransport/io_common.c, io_null.c): the choice of an implementation, which may go on for ever
--   and so is counted in rounds, and Io/Null for the one that takes everything.
-- - Protocol (libavtransport/protocol_common.c, protocol_datagram.c, protocol_stream.c): sending over any
--   implementation of AVTIO, and the index of a stream. The functions that both protocols have alike
--   are one.
-- - Merger (libavtransport/merger.c, merger.h): which segments are let pass (Merger/Checks) and which bytes
--   of a payload its ranges cover (Merger/Cover). Moves of memory are by bytes.
-- - Output (libavtransport/output_packet.c, output.c): the compression of payloads, packets for all
--   connections of a sender (Output/Packets) and its streams (Output/Streams). Compressors, the hash and
--   avt_connection_send are parameters.
--
-- The scheduler calls Encode, Fifo and SlidingWin; Fifo calls Buffer; SlidingWin calls
-- Rational. Output calls Buffer, Protocol calls Io, and an address decides on both.
--
-- Loops are recursions on the number of rounds, which the code has before the loop begins: the count
-- of entries, the bits of a word, the sum of the numbers in gcd_ab, the denominator in
-- reduce_rational, and the bytes that are left and the limit of output in scheduler_push_internal,
-- whose model says when it runs out of rounds, which the theorems exclude.
--
-- Not modelled: the interleavings of threads that share a counter, input and output through the
-- operating system, the connection, the joining of segments itself (avt_pkt_merge_seg), receiving, the
-- scheduler's choice between streams, and code that the build generates.
pub mod Common
pub mod Memory
pub mod Rational
pub mod Bytestream
pub mod Packet
pub mod Buffer
pub mod Fifo
pub mod SlidingWin
pub mod Encode
pub mod Scheduler
pub mod Address
pub mod Strings
pub mod Io
pub mod Protocol
pub mod Output
pub mod Merger
