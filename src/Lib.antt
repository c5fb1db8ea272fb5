-- ===== src/Lib.antt =====
-- A model of the Rust crate `mcap` (rust/mcap/src), which reads and writes MCAP files, with the
-- theorems that its parts promise. The command line tool and the libraries in other languages are
-- not modelled.
--
-- The format. Error is the crate's error type (lib.rs). A call returns a `Result`, which also has
-- the outcomes `panic` (a failed assertion or `expect`, a slice out of range) and `stuck` (a loop
-- that used up the fuel of its model). Bytes has the integers and strings that binrw and
-- byteorder read and write; a byte is a number and a string its UTF-8 bytes. Records has the
-- record types of records.rs; Records.Encode and Records.Decode have a `put_x` and a `get_x` for
-- the layout of each, which the source derives, and Records.Maps has `parse_vec`, `write_vec` and
-- the maps. A map is a list of entries in the order of its keys. Records.Fits says what the types
-- of the fields guarantee.
--
-- Reading. Read is `parse_record` (read.rs). Channels is `ChannelAccumulator`, and Messages the
-- `RawMessageStream` and `MessageStream` on top of it, over the list of what the records below
-- return. Summary has `Summary` and `footer` of read.rs. SummaryReader is the state machine of
-- sans_io/summary_reader.rs; its inner linear reader is the interface in LinearEvents, with the
-- operations that it calls, and two hypotheses: a reader returns finitely many records between
-- two inserts, and its `next_event` returns.
--
-- The linear reader (sans_io/linear_reader.rs). RwBuf is its buffer: RwBuf.Laws has what each
-- operation does to a buffer in order, and RwBuf.Queue the queue of its bytes. LinearReader has
-- the state and the calls between two events, LinearReader.Options the options. A state of
-- `next_event` is a computation that can leave the function early, as the macros `load!`,
-- `consume!`, `decompress!` and `check!` do: Step has these computations, LinearReader.Moves the
-- macros, and there is a module for the states outside chunks (Records), for `ChunkHeader`
-- (Header), `ValidatingChunkCrc` (Validating), `ChunkRecord` (Chunks) and `PaddingAfterChunk`
-- (Padding); LinearReader.Event puts them together. LinearReader.Decompress is
-- `decompress_inner`, over the trait of sans_io/decompressor.rs, a parameter (Decompressor). The
-- flag `checks` says whether the build has overflow checks. LinearReader.Returns goes through the
-- states with one rule for each move, and LinearReader.Stream follows the bytes of records
-- through them.
--
-- The indexed reader (sans_io/indexed_reader.rs). IndexedReader has the state, the options, the
-- choice and the order of the chunks and the slots; IndexedReader.Indexing is `index_messages`,
-- with the sort that it skips where it can, and IndexedReader.Events `next_event` and
-- `insert_chunk_record_data`. Sorting has the sort and the order of keys. IndexedReader.Found
-- reads the messages of a chunk by themselves, without the flags of the loop, and
-- IndexedReader.Ordered compares the two; IndexedReader.Invariant and IndexedReader.Insertion are
-- about the order in which a reader keeps its messages and chunks, IndexedReader.Topics is about
-- topics that no channel has, and IndexedReader.Earliest has the readers that calls lead to and
-- the message that comes next.
--
-- Mapped has the iterators of read.rs over a mapped file: `LinearReader`, `ChunkReader` and
-- `ChunkFlattener`, which serve the requests of the linear reader from the file and parse its
-- records.
--
-- Writing. Write is `write_record` (write.rs); Write.Attachment is `AttachmentWriter`. Io is
-- `CountingCrcWriter` (io_utils.rs), and the streams: a stream accepts all that is written to it.
-- Cursor and ChunkSink are the buffer of a chunk (chunk_sink.rs). Registry is the part of
-- `Writer` that gives out the ids of schemas and channels, in the same way for both; Writer is
-- what `add_schema`, `add_channel`, `write`, `write_to_known_channel`, `write_private_record`,
-- `write_metadata` and the calls for attachments do on top of it, with the write mode
-- (Writer.Closing) and the statistics of `take_summary`. The records go to a list, in the order
-- in which the source hands them to the chunk or the file.
--
-- Other parameters: crc32fast (Io.Crc32, or the function of `parse_record`) and bimap (BiMap,
-- with an implementation in BiMap.Entries), each with laws from its documentation. HashMap has
-- the maps of the standard library that are never iterated here. Examples applies the theorems to
-- data.
--
-- Bounds. Numbers are natural numbers; a wrap is written out (`% 2 ^ 32` for a cast to u32, and
-- the addition to an id in Registry.bump, with and without overflow checks). Positions and
-- lengths stay below 2^64, as those of files do, and `usize` has 64 bits. Loops are structural,
-- or on fuel with a theorem that it is enough: the loop over a length in bytes has a round for
-- each byte that is left, and reads one at least; the search for an id has 2^16 rounds, one for
-- each id; `next_event_inner` has the rounds that SummaryReader.Total.rounds counts; `next_event`
-- of the linear reader those of LinearReader.Returns.Rules.rounds_left, one for each unread byte
-- and at most some for its state; `decompress_inner` one for each byte that there is to read or
-- write; the iterators over a mapped file one for each byte; `index_messages` one for each byte
-- of the chunk.
--
-- Not modelled: what an indexed reader holds after an insertion has failed, the chunks, the end
-- of a file and its CRCs in the writer, the compression libraries, the async reader, and errors
-- of the stream below a writer.
pub mod BiMap
pub mod Bytes
pub mod Channels
pub mod ChunkSink
pub mod Cursor
pub mod Decompressor
pub mod Error
pub mod Examples
pub mod HashMap
pub mod IndexedReader
pub mod Io
pub mod LinearEvents
pub mod LinearReader
pub mod Mapped
pub mod Messages
pub mod Prelude
pub mod Read
pub mod Records
pub mod Registry
pub mod RwBuf
pub mod Sorting
pub mod Step
pub mod Summary
pub mod SummaryReader
pub mod Write
pub mod Writer
