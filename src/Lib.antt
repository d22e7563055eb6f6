-- ===== src/Lib.antt =====
-- A model of the platform-independent core of EarthRise, a single-shard space game: the
-- encrypted-datagram transport, the replication and persistence of the simulation and the
-- durable economy under NeuronCore and ERServer, and the parts of NeuronAudio that need no
-- device, with the theorems that make its parts correct.
--
-- The program is a client, a server (ERServer) and a headless bot host over the shared library
-- NeuronCore. A datagram is routed to its connection, its packet number is checked against the
-- replay window, its payload is split into messages, and each reliable channel acknowledges its
-- messages by 16-bit sequence numbers. Every economy mutation is an event of the outbox, which
-- is drained into the wallets and the ledger; queues carry the work from the simulation to the
-- persistence thread. The simulation keeps its entities in an entity component store, sends them
-- to the clients as snapshots, and saves itself as a blob for a warm restart.
--
-- Which file models which part:
--   * Net/Sequence: NeuronCore/SequenceMath.h. seq_greater, seq_less and seq_diff are
--     SeqGreater, SeqLess and SeqDiff.
--   * Net/Replay: NeuronCore/ReplayWindow.h. check_and_update is CheckAndUpdate, slide_forward
--     is SlideForward with its two in-place loops; Net/Replay/History is the abstract memory of
--     accepted numbers.
--   * Net/Codec: NeuronCore/PacketCodec.h, with PacketHeader of NeuronCore/Protocol.h. A read
--     outside the span, undefined in C++, is the outcome out_of_bounds.
--   * Net/Handshake: NeuronCore/HandshakeMessages.h, with the sizes of NeuronCore/ICrypto.h. The
--     pairs encode_… and decode_… are Encode and Decode of the bodies.
--   * Net/Routing: NeuronCore/ConnectionTable.h. open_connection, find, validate and
--     close_connection are Open, Find, Validate and Close, peek_connection_token is
--     PeekConnectionToken; the unordered map from tokens to slots is an association list, and
--     the back of the vector of free slots is the head of a list.
--   * Net/Reliable: NeuronCore/Reliability.h. on_receive and ack_bits are those of
--     ReliableReceiver; Net/Reliable/Sender has ReliableSender, over any arithmetic of seconds
--     (Seconds).
--   * Persist/Outbox: NeuronCore/Outbox.h. apply is EconomyState::Apply, append, drain,
--     replay_all and confirm_drained are those of the Outbox; Persist/Outbox/History and
--     Persist/Outbox/Reachable have the histories of calls and crashes. AllCovered is what
--     ConfirmDrained asks of its callers: that a committed drain has covered what they confirm.
--   * Persist/Queue: ERServer/persist/PersistQueue.h. Each operation is one step under the
--     mutex; ZeroLoss is MpscZeroLossQueue and Bounded is MpscBoundedQueue.
--   * Serde/BitStream: NeuronCore/BitStream.h. write is BitWriter::Write and read is
--     BitReader::Read, with their loops over chunks of a byte.
--   * Serde/Buffer: NeuronCore/Serde.h. new_write_buffer and new_read_buffer are the
--     constructors, which write and read the version; a WriteBuffer is the writer inside it.
--   * Serde/Parser: the reads of NeuronCore/Serde.h in sequence, as the decoders below make
--     them; Serde/Parser/Sequence has what a decoder reads back of a list of fields.
--   * Persist/Restart: NeuronCore/WarmRestart.h. encode_state and decode_state are EncodeState
--     and DecodeState, and state_hash of Persist/Restart/StateHash is StateHash; the bodies of
--     their loops have functions of their own.
--   * Sim/Snapshot: NeuronCore/Snapshot.h. encode_snapshot and decode_snapshot are
--     EncodeSnapshot and DecodeSnapshot; Sim/Snapshot/Delta has the delta records with zig_zag32
--     and delta_record_bits, and Sim/Snapshot/Delta/Budget has BuildBudgetedSnapshot.
--   * Sim/Known: NeuronCore/SnapshotScheduler.h. ClientKnownState is the class of that name;
--     record_sent, ack and forget are RecordSent, Ack and Forget.
--   * Ecs: NeuronCore/Ecs.h. Ecs has EntityHandle, Ecs/Storage is ComponentStorage, a sparse
--     set, and Ecs/World is World; an assertion of the source is a hypothesis where a theorem
--     needs it. for_each gives the indices that ForEach visits, and for_each_calls is ForEach
--     with the calls of its function.
--   * Economy/Keys: NeuronCore/EconomyOutbox.h. outbox_idem_key is OutboxIdemKey; fold_event is
--     the word that it scrambles; map_econ_event is MapEconEvent.
--   * Audio/Wav: NeuronAudio/WavParse.h. parse_wav is parseWav and walk its loop over the
--     chunks, with as many rounds as the file has bytes.
--   * Audio/Voices: NeuronAudio/VoicePool.cpp with VoiceHandle.h. acquire, resolve, release and
--     reclaim_finished are those of VoicePool; what the audio device answers (SetOutputVoices,
--     CreateSourceVoice, GetState) is an argument.
--
-- Prelude holds what the parts share: Boolean tests and lists over the native numbers, the bits
-- of a number under the bit operations (Prelude/Bits, Prelude/Mask, Prelude/Xor) and signed
-- integers (Prelude/Int), chunks of bits (Prelude/Chunks), maps and sets as lists (Prelude/Maps,
-- Prelude/Sets), and vectors (Prelude/Vectors).
--
-- A float that the source copies bit by bit is its 32 bits. Numbers are naturals; a w-bit word
-- keeps its wrap-around written out where the source can wrap. The loop of ReadMessages runs on
-- rounds, one for each byte and one more, that of the WAV parser on one for each byte of the
-- file, and those of Write and Read of the bit stream on one for each bit, which are shown to be
-- enough. Examples modules hold runs on concrete inputs.
--
-- Not modelled: sockets, threads, the database, rendering and audio devices, and what the code
-- does with floating point: the quantization of positions and DeltaDecodeState, the priorities
-- of the snapshot scheduler, and ClockSyncBody. A reserve of memory, which can fail, is not
-- modelled either.
pub mod Prelude
pub mod Net
pub mod Persist
pub mod Economy
pub mod Serde
pub mod Sim
pub mod Ecs
pub mod Audio
