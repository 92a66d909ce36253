-- ===== src/Lib.antt =====
-- tzsp_server: a model of the TZSP server and the theorems that make it correct.
--
-- The program receives TZSP datagrams over UDP, takes the sniffed frame out of each, and hands the
-- frame to its outputs: a PCAP file, a NetFlow v5 exporter and the QingPing exporter, which finds a
-- sensor's JSON text in the frame and posts it to an HTTP server.
--
-- The parts, the files that model them, and how they interact:
-- * Tzsp (internal/tzsp/decoder.go): `decode` is Decoder.Decode, `get_tag`, `get_timestamp`,
--   `get_rssi` and `protocol_name` are the methods of Packet. A Go function that may fail or panic
--   returns a Result (Prelude/Results), whose `panic` is an index or a slice out of range and whose
--   `stuck` is a loop that runs out of fuel. Tzsp/Grammar states the format with no offsets.
-- * Decoder (internal/decoder/decoder.go): `decode` is Decoder.Decode, which describes a frame in a
--   PacketInfo by the layers that the package gopacket finds. Gopacket is an argument of the model.
-- * Netflow (internal/netflow/exporter.go): the record Exporter is the exporter's state with the
--   datagrams that it handed to its socket; `process_packet`, `expire_flows` (one tick of the ticker)
--   and `close` are its methods. All three hold the mutex, so each is one step; Netflow/Steps has
--   them as a step relation, in any order, and Netflow/Ops runs a list of packets and ticks. It takes
--   the PacketInfo of the packet decoder.
-- * Qingping (internal/qingping/exporter.go): `matches_filter` and `extract_json` are the methods of
--   these names; Qingping/Export has `export`, `submit_to_upstream` and `new_exporter`. What a call
--   does is an Effect: the outcomes it logs, the requests it makes, and its error.
-- * Pcap (internal/pcap/writer.go): a directory is a function from names to files; `rotate`,
--   `write_packet`, `new_writer` and `close` are the functions of the writer. Pcap/Store states what
--   they implement with no file names: a log in a bounded number of segments, and Pcap/Segments and
--   Pcap/Log what of the log is on the disk.
-- * Output (internal/output/filewriter.go): `new_file_writer` and `write_packet` over the entries of
--   the metadata file.
-- * Server (internal/server/server.go): `start`, `receive_loop` and `process_packet` take a datagram
--   through the decoders to the four outputs. A round of the loop is an Event, and what the world
--   answers while a datagram is processed is its Surroundings; a tick of the NetFlow sweeper between
--   two rounds is an Event too (`sweep_netflow`). Server/Streams says, with no server, which frames
--   each output is to see, and Server/Sent what of them was sent;
--   Server/Statistics reads the counters at a tick of `reportStats`, between two rounds.
-- * Config (internal/config/config.go): `load` gives the configuration; the YAML parser is an argument.
-- * Main (cmd/tzsp_server/main.go): `Entry.enter` is the function main, from what flag.Parse finds through the
--   configuration and the logger to the exit code; `wire` makes the outputs that the configuration
--   enables, and `run` is the program from there to the exit; the deferred closes are `shut_down`.
--   The children follow each output to that end: Whole the NetFlow exporter, Capture the PCAP files,
--   Records the metadata file and the uploads, Delivery what sensors send to the PCAP files, and
--   Overtaken a packet that is still in work at the signal.
-- * Logger (internal/logger/logger.go): `new_logger`, `log` (Info, Warn, Error and Debug, by their
--   level) and `parse_fields`. Main/Entry writes the first entries by it; the log entries of the
--   other parts are not modelled.
-- * Net models what the program uses of Go's package net: the text of addresses and its parser, with
--   the round trip of an IPv4 address (Net/RoundTrip).
-- * Prelude has the shared types, tests, lemmas on lists, Go's integers and decimal texts.
--
-- Numbers: the numbers of a record are natural numbers, and the code's wrap-around at 32 and 64 bits
-- is written out where it can occur. An int that can be negative is an integer. A time is its
-- nanoseconds since the Unix epoch, and a duration saturates as Go's `Sub` does.
--
-- Fuel: the tag loop of `Tzsp.decode` runs on the length of the packet, since each round moves its
-- offset by one at least; that this is enough is part of the theorems. Every other loop is recursion
-- on a list or on a counter.
--
-- What is left to arguments: the clock, the order in which Go iterates over a map, the errors of the
-- operating system, of the socket, of the HTTP client and of the PCAP library, and JSON validation.
-- The errors of os.Stat, os.Rename and os.Remove in a rotation, which the code drops, are not among
-- them: the model takes these calls to succeed, and a record that the PCAP library refuses to leave
-- nothing in the file.
-- The mutexes make each method one step; the ticker and the receive loop are sequences of such steps.
-- In `run` the rounds of the receive loop come before the closes, and ticks come between the rounds
-- and behind them; a datagram that is still processed at the signal, whose outputs come behind the
-- closes, is `overtaken`.
--
-- The receive buffer is at most 2 ^ 48 bytes, the largest allocation of Go on a 64-bit machine; `make`
-- panics above it, as it does on a negative length. That the memory is enough is not modelled. Letters
-- are lowered as ASCII letters, which the names of protocols are.
--
-- What is not modelled: the log messages beyond their outcome, what logrus prints, the parsing of
-- the command line, the delivery of signals, the timeouts of the HTTP client, and the bytes of the
-- PCAP format.
pub mod Prelude
pub mod Net
pub mod Tzsp
pub mod Decoder
pub mod Netflow
pub mod Qingping
pub mod Pcap
pub mod Output
pub mod Server
pub mod Config
pub mod Logger
pub mod Main
