-- ===== src/Lib.antt =====
-- Verification of data-diode, which sends files and UDP datagrams over a one-way link.
--
-- The sender cuts a file into chunks of 940 bytes, puts each into a packet with a header of fixed
-- width, and adds Reed-Solomon parity packets after every batch of 1000 chunks. The receiver
-- treats every packet as hostile: it checks the path of a START packet, buffers one batch, restores
-- lost chunks, writes the batch to a partial file, and renames it when the END packet comes. A
-- second thread of the receiver puts forwarded UDP datagrams together again.
--
-- Which file models which part:
--   Proto            diode_common/src/proto.rs and hash.rs: constants, encoders, the MD5 text
--   SafePath         is_safe_rel_path, with the Unix rules of Path::components and Path::join
--   Utf8, Decimal    what the source uses of str::from_utf8, from_utf8_lossy, parse and format!
--   BTreeMap         the map type of the buffers, as a list in key order
--   FileSystem       what the programs use of std::fs
--   Receive.Packet   decode_packet of diode_receive/src/main.rs
--   Receive.State    ReceiveState and Stats; Receiver joins them with the files and the UDP queue
--   Receive.Chunk    is_chunk_valid and the batch arithmetic
--   Receive.Buffer   buffer_data, buffer_parity
--   Receive.Finalize finalize_current_batch, advance_to_batch
--   Receive.Transfer reset_transfer, mark_failure, open_output_file, new_file, finish_file
--   Receive.Worker   the worker loop of main, from a received datagram to its handler
--   Receive.Session  a file on its way through the worker loop: its packets and the invariant
--   Forward          forward_udp_packets
--   Send             the packets of a UDP datagram, spawn_udp_forwarder of diode_send/src/main.rs
--   Send.Forwarder   the threads of spawn_udp_forwarder, and the listener thread of the receiver
--   Send.Pacer       Pacer of the same file: the slots that both sending threads share
--   Send.Link        send_to_blocking, send_with_retry and the packets of a file
--   Send.Reader      read_chunk
--   Send.Parity      send_parity_packets
--   Send.File        send_file_chunks
--   Send.Scan        walk_files, is_file_stable, send_files
--   Crossing         send_file_chunks and the worker loop together, with a link that loses packets
--   Receive.Display  Display of diode_receive/src/main.rs, and the worker loop with it
--   Receive.LogSafe  log_safe of diode_receive/src/main.rs
--   Digest           sha256_file of the same file, and diode_receive/src/sha256.rs
--   Logging          fmt_now of diode_common/src/logging.rs, and DualLogger in Logging.Dual
-- A module below one of these holds proofs about it: Confinement (which files are touched), Bounds
-- (how much is held), Counting (how transfers are counted), RoundTrip and Header (what survives
-- the wire), Frame and Laws (what the operations leave alone). Below Receive.Finalize, Contents,
-- Chunks, Codec, Recovery and Batch are about the bytes that a batch writes and the decoder's part
-- in it, Progress about its loop. Below Receive.Session, Gather and Step are about one packet, Run
-- about the batches, Start and Finish about the first and the last packet, and Whole and Wire
-- about all of them. Receive.Worker.Keeping is about the files that a transfer leaves alone.
-- Receive.Display.Screens and Feed say what is written to the display. Below Send, Chunks, Flow and Delivery
-- follow a datagram to the receiver's target, Send.Forwarder.Order takes the sends into account,
-- and Receive.Worker.Queue is the part of the worker thread in it. Send.Pacer.Threads has any number
-- of threads in wait at the same time, as moves on the shared deadline. Send.Pacer.Spacing,
-- Send.Link.Calm and Backoff, Send.Reader.Exact and Failing, and Send.File.Emission, Complete and
-- Removal are proofs about the file sender, with Send.File.Regime for what they take of the calls;
-- Send.File.Packets says which packets a file is to be sent as. SafePath.Split, Inside and Pieces
-- are about where an accepted path leads and which paths those are, and SafePath.Prefix is the
-- rule of Path::strip_prefix with what it leaves of a path that was put together by joining names.
-- Send.Scan.Walk, Accepted and Attempted follow a file from the directory to the wire.
-- Crossing.Keep is the lossy link, Cut and Codec say that both sides cut and encode alike, Pieces,
-- Batches and Arrival follow the packets of a batch, and File puts the two programs together.
-- Tests has runs at concrete inputs.
--
-- A text is the list of its bytes. Handlers take a state and return the new one. Numbers of type
-- u64 and usize are natural numbers; where the source adds or multiplies without a check the model
-- reduces modulo 2 ^ 64, and saturating_add is cut at 2 ^ 64 - 1. usize has 64 bits.
--
-- Parameters: the MD5 digest is any function on bytes, of 16 bytes where the wire format needs it.
-- The Reed-Solomon crate is a record of the decoder's operations, which may answer anything; where
-- lost shards must come back, Receive.Finalize.Codec.Restores states the promise of the decoder,
-- and Crossing.Codec.Encodes the promise of the encoder. What floating point arithmetic gives the
-- display is a parameter. SHA-256 is a record of the operations of a running digest, with the law
-- that portions are digested as what they make together. The file system is a map from file names
-- (lists of path components) to contents, with a list that says which of the calls to come are
-- refused. Directories and symbolic links are not kept: making a directory changes no file, and
-- where a directory stands in the way of a call the call is refused. A handle names its file;
-- nothing is written through one after the file was removed. The scan of the sender does keep
-- directories and links: a tree of what the calls on each name answer, which is finite, since
-- links are followed only where symlink_metadata fails.
--
-- Bounds and fuel: the loop of advance_to_batch gets one round for each batch up to its target. A
-- number is printed with fuel for 20 digits, which hold every u64. A datagram is cut with as many
-- rounds as it has bytes, since each piece takes one at least. Each round of read_chunk reads a
-- byte or uses up an answer of the reader, and each round of send_file_chunks reads a byte or is
-- the last. A send ends with the list of answers; a list without end of busy answers would never
-- end. The other loops recur on the list or on the count that they run over.
--
-- Not modelled: the calls of the logger, which nothing depends on (the logger itself and what is
-- put into its lines are modelled: the time, the filtered texts and the digest); sockets,
-- channels, threads and the clock, which enter as lists of datagrams and times; the repetition of
-- the scan and its pauses; the serial port of the display; process start and socket options; the
-- scripts. A year is taken to fit an i32. The recovery of a poisoned lock is taken at any round,
-- though a panic ends the thread it runs in.
pub mod Prelude
pub mod Utf8
pub mod Decimal
pub mod Proto
pub mod Receive
pub mod BTreeMap
pub mod SafePath
pub mod FileSystem
pub mod Forward
pub mod Send
pub mod Logging
pub mod Digest
mod Tests
pub mod Crossing
