-- ===== src/Lib.antt =====
-- libaribtlv, a demultiplexer for ARIB TLV/MMT streams: a verification of its core.
--
-- The program: TlvParser finds packets in a byte stream and passes those of compressed IP on,
-- context by context, to an MmtpParser, and those of the transport itself to a TlvTransportParser,
-- which collects the sections of the TLV-SI into tables and reads the NTP clock; MmtpParser reads
-- each packet's header and hands its payload to the reassembly of signalling messages or of media
-- units; RecordingIndex watches the access units of a recording and answers queries on its duration
-- and seek points; DurationProbe finds the length of a recording from ranges of its two ends, which
-- it asks for one by one.
--
-- What is modelled:
--   Base.antt       the lists, words, integers and Boolean tests that all files use
--   Reader.antt     src/parser_common.hpp, the big-endian numbers
--   ByteReader.antt src/byte_reader.hpp: class ByteReader
--   Types.antt      include/aribtlv/types.hpp, the types that the modelled parts share
--   Tlv.antt        src/tlv_parser.hpp, src/tlv_parser.cpp: class TlvParser
--   Transport.antt  src/tlv_transport_parser.hpp, src/tlv_transport_parser.cpp: class
--                   TlvTransportParser; Crc the checksum, Sections the loop over the buffer, Data,
--                   Descriptors, Nit and AddressMaps the tables, Assembly their sections by number,
--                   Flows the IPv6 packets, Session the state and the packets
--   CompressedIp.antt
--                   src/compressed_ip_parser.hpp, src/compressed_ip_parser.cpp: class
--                   CompressedIpParser; PacketStates the number of packet states it shares
--   Mmtp/Packet     src/mmtp_parser.cpp: parse_packet_extensions and MmtpParser::push
--   Mmtp/Signalling src/mmtp_signalling_parser.cpp: append and parse_signalling, the reassembly
--   Mmtp/Data.antt  src/mmtp_media_parser.cpp: emit_data_unit and consume_data_piece, the items of
--                   data assets
--   AssetLayers.antt src/asset_layers.cpp, the layers of asset groups
--   Timeline.antt   the helpers on time stamps of src/recording.cpp and src/duration_probe.cpp
--   Recording.antt, Recording/Lifecycle.antt
--                   include/aribtlv/recording.hpp, src/recording.cpp: class RecordingIndex
--   DurationProbe.antt
--                   include/aribtlv/duration_probe.hpp, src/duration_probe.cpp,
--                   src/duration_probe_range.hpp: class DurationProbe; Range the union of ranges,
--                   Candidates the video tracks, State the members, Callbacks what the demuxer calls,
--                   Requests the end of a request, Machine the public functions
--
-- How the code corresponds: a member function is a function of the same name, in snake case, from the
-- object's state to its new state, with its result where it has one. A call of a callback is an event,
-- appended to the state's log or returned by the step. A byte is a number, a std::uint64_t offset
-- wraps at 2 ^ 64, a sequence number at 2 ^ 32, and a std::int64_t is the integer it stands for with
-- the code's range tests written out.
--
-- Fuel: the loop of `TlvParser::process` runs on one round more than the unread bytes, since every
-- round that goes on consumes one; the loops of `push` on the bytes of the input; the loops over
-- aggregated units and over extension entries on one round more than the bytes, since a round takes
-- two or four; the loop over the TLV-SI buffer on one round more than its bytes. The loops over
-- descriptors and streams recur on the bytes, the bytes of a payload being passed over one by one.
-- The reader of a duration probe answers a number of requests that the source's size bounds.
-- Running out is `none`, and the theorems say that it does not happen.
--
-- The callbacks that the demuxer makes while a duration probe pushes bytes into it are arguments of
-- the push, so that what is shown holds whatever the demuxer does; the probe's calls of the demuxer
-- are kept in its state, the last one first. So are what the MMTP parser of a context calls back and
-- the calls it is given, in CompressedIp, and the packet states that the units of a signalling
-- payload take and give back, in Mmtp/Signalling.
--
-- The two places of the duration probe that add or subtract std::int64_t without a test wrap around
-- here, as two's complement does; the C++ standard leaves them undefined.
--
-- Not modelled: the long double interpolation of `estimateOffset`, the recording scanner, the C
-- interface, the demuxer that joins the parsers, the tables inside signalling
-- messages, the application resources, and the reassembly of timed media.
pub mod Base
pub mod Reader
pub mod ByteReader
pub mod Types
pub mod PacketStates
pub mod Tlv
pub mod Transport
pub mod CompressedIp
pub mod Timeline
pub mod Recording
pub mod DurationProbe
pub mod Mmtp
pub mod AssetLayers
