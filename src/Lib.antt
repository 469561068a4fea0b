-- ===== src/Lib.antt =====
-- A verification of the core of KeyDrop, a library for compact binary packets.
--
-- The program's parts. A packet is a message id of 16 bits and then the fields of a schema, in
-- order: numbers in little-endian bytes, strings and byte vectors behind a size of 16 bits. An
-- encoder (src/core/encoder.cpp) appends such bytes to a buffer through a builder, and a reader
-- (src/core/packet_reader.cpp) takes them off by a cursor. A registry holds schemas with what is
-- computed from them. A validator tests a schema before it is registered, and the values of a
-- payload before they are written. A field mapper turns a payload by name into values in the order
-- of the schema and back, and a fast codec writes and reads such values along the layout. A stream
-- optimizer puts packets together in a batch and sends, in place of a packet, what changed since
-- the last one. A runtime optimizer leaves out the fields that are zero. A corruption detector says
-- whether bytes are a packet, and a synchronizer finds packets in a stream, by asking the registry
-- for a schema, the optimizer to restore the packet and the detector to accept it. The schema
-- runtime (src/schema/schema_runtime.cpp) is what a client uses: it holds a registry, a dictionary
-- of strings, a stream optimizer, pools of buffers and of payloads, and a profiler that turns the
-- dictionary and the delta packets on and off, and sends and receives payloads by calling all of
-- the parts above. A scheduler keeps packets until a transport takes them.
--
-- Which file models which part:
--   Base              lists, bytes, bits, bitmaps, maps, texts and integers that the parts share.
--   Core.View         `BufferView` of src/core/buffer.cpp
--   Core.Buffer       `Buffer` of src/core/buffer.cpp
--   Core.Endian       include/keydrop/core/endian.hpp, src/core/endian.cpp
--   Core.Builder      src/core/packet_builder.cpp
--   Core.Encoder      src/core/encoder.cpp
--   Core.Reader       src/core/packet_reader.cpp
--   Core.Packet       sequences of calls of the encoder and of the reader, as a client makes them
--   Schema.Types      src/schema/schema_types.cpp and its header
--   Schema.Layout     src/schema/packet_layout.cpp
--   Schema.Optimizer  src/schema/runtime_optimizer.cpp
--   Schema.Registry   src/schema/schema_registry.cpp, and the constructor of src/schema/fast_codec.cpp
--   Schema.Values     `FieldValue` of include/keydrop/schema/field_mapper.hpp
--   Schema.Mapper     src/schema/field_mapper.cpp
--   Schema.Validator  src/schema/schema_validator.cpp
--   Schema.Fast       src/schema/fast_codec.cpp
--   Schema.Stream.Batch, Schema.Stream.Delta, Schema.Stream.Changes, Schema.Stream.Frames,
--   Schema.Stream.Sender
--                     src/schema/stream_optimizer.cpp: batches, the deltas of numbers, what changed,
--                     delta packets, and the state with what is sent and received
--   Schema.Dictionary src/schema/adaptive_dictionary.cpp
--   Core.BufferPool, Schema.PayloadPool
--                     src/core/buffer_pool.cpp, src/schema/payload_pool.cpp
--   Schema.Profiler   src/schema/adaptive_profiler.cpp
--   Schema.Runtime.Codec, Schema.Runtime.Packets, Schema.Runtime.State, Schema.Runtime.Send,
--   Schema.Runtime.Receive, Schema.Runtime.Streams, Schema.Runtime.Json
--                     src/schema/schema_runtime.cpp: the values of a packet, the packet, the state
--                     with its cache and its settings, and the methods by what they do
--   Transport.Scheduler  src/transport/transport_scheduler.cpp
--   Reliability.Crc, Reliability.Check, Reliability.Envelope, Reliability.Keydrop
--                     src/reliability/corruption_detector.cpp: the checksum, the results,
--                     `check_packet` and `check_keydrop_packet`
--   Reliability.Synchronizer  src/reliability/packet_synchronizer.cpp
--   Examples          runs on concrete values
-- A definition has the name of the function or type that it models. A child module holds what is
-- proved of its parent's definitions.
--
-- How the code is modelled. A method that changes its object takes the object and gives the new
-- one; a method that may throw `std::out_of_range` gives a `Result`. A method of the reader is a
-- function of the reader, composed in do blocks. A raw pointer is null, or the bytes from its
-- target on, and a read past its object, which C++ leaves undefined, is told apart from an
-- exception. `bool` with an out parameter is an `Option`. A loop over a vector is a recursion over
-- the list, its body a definition of its own where it is long. The body of a loop that returns
-- early gives what is returned. A map of the standard library is an association list over a test of
-- keys. A float is its bit pattern, a string its bytes, and a `FieldValue` the slot that its type
-- selects. Widening a float, comparing floats, comparing a ratio of counts with a threshold and
-- converting numbers of JSON are functions that are parameters. The machine (its byte order, and
-- whether its compiler tells it) is a parameter, and so are the options' validator, the `send` of
-- a transport and all configuration. A method of the runtime takes the whole state and gives it
-- back, with an `Outcome`: a code of failure, or what is put into the out parameters. A lease is
-- the object that it holds, taken from the pool where the lease begins and given back where its
-- scope ends, on every path. The pointers of the runtime's cache are the schema and the layout that
-- they lead to.
--
-- Bounds. A number of the code is a natural number with the wrap-around written out: 32 bits in the
-- checksum, 16 bits in the prefix of a string, 64 bits in the reader's cursor, in the sums of the
-- offsets that a client gives to `check_packet`, and in the savings that the deoptimizer reports. A
-- vector holds fewer than 2 ^ 63 bytes, so that sums of a cursor and the size of a field do not
-- wrap, and these are written without it. The capacity of a vector is the least that the standard
-- allows. `recover_all_packets` runs on fuel of the size of the stream and one more, which is
-- enough, since a recovered packet has a byte. The dictionary's `configure` runs on fuel of the
-- length of the order of insertion, of which each round takes one id.
--
-- Not modelled: the texts of messages; memory and time; the transports and their sockets; the JSON
-- of schema files, which a library parses; the table of profiles; benchmarks and tests.
pub mod Base
pub mod Core
pub mod Schema
pub mod Reliability
pub mod Transport
mod Examples
