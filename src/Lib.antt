-- ===== src/Lib.antt =====
-- Frog game framework: a verification library for its C core.
--
-- The framework is an event driven server core. A connection reads into a ring buffer, the byte
-- queue; a codec (tpack, or web socket frames) splits the bytes into packets; services exchange
-- the packets as events.
--
-- The modules and the code that they are about:
--
-- - Base: shared names, list and number lemmas, the fault monad. It models no code.
-- - Memory: src/core/include/utility_t.h. mem_malloc and mem_realloc are the record Memory,
--   align_size is align_size. load and store are reads and writes of a block with its bounds.
-- - ByteQueue: byteQueue_t of src/core/include/byteQueue_t.h and
--   src/core/source/detail/byteQueue_t.c. byteQueue_getBytesReadable is get_bytes_readable,
--   byteQueue_writeBytes is write_bytes, and so on. The code that the three write functions repeat
--   is relocate, first_block, fill and advance.
-- - Tpack: src/core/include/codec/tpack_t.h and src/core/source/codec/tpack_t.c. tpack_decodeHead
--   is decode_head, tpack_decode is decode, tpack_encode is encode with its branches
--   encode_single, encode_middle and encode_last, tpack_encodeVec is encode_vec of
--   Tpack.EncodeVec. Tpack.Wire describes the wire format on its own.
-- - Fragments: what the encoders of both codecs share: the offset of a fragment, and the loop of
--   tpack_encodeVec and webSocket_encodeVec that gathers a block from several source buffers.
-- - WebSocket: src/core/include/codec/webSocket_t.h and src/core/source/codec/webSocket_t.c.
--   webSocket_decodeHead is decode_head, webSocket_decode is decode, unMask is unmask,
--   webSocket_encode is encode and webSocket_encodeVec is encode_vec. WebSocket.Wire describes
--   what the decoder reads on its own.
-- - Msgpack: src/core/include/msgpack and src/core/source/msgpack. msgpackEncode_writeInteger is
--   write_integer, msgpackDecode_readInteger is read_integer, and so on; an int64_t is its word of
--   64 bits. The callback fnExpand, or mem_realloc in its place, is the record Expander.
-- - RwSpinLock: src/core/include/rwSpinLock_t.h. Each atomic operation is a function on the bits,
--   tryrdlock is try_rdlock and so on; the threads are a list of phases, and Step lets any one of
--   them do its next operation.
-- - HandleTable: what src/service/source/serviceCenter_t.c and
--   src/service/source/channel/channelCenter_t.c have in common: the slots and the stack of free
--   indices. make_table is the code of both init functions, insert with grow and take_slot that of
--   both register functions, find_slot the search of a slot, give_slot its return. Objects are
--   addresses with what stands there.
-- - ServiceCenter: src/service/source/serviceCenter_t.c with service_addref, service_release and
--   service_getID of src/service/source/service_t.c. serviceCenter_register is register, and so
--   on; ServiceCenter.Names has the nodes of the tree of names in the order of strcmp, with the
--   loop of serviceCenter_removeName; RB_INSERT and RB_FIND are the record NameTree, a parameter.
-- - ChannelCenter: src/service/source/channel/channelCenter_t.c with createChannel,
--   channel_addref, channel_release and eventConnection_onUserFree of
--   src/service/source/channel/channel_t.c. ChannelCenter.History lets a program make these calls
--   in any order, with the references that it holds.
-- - Streams: the receive and send callbacks of src/service/source/stream/tpackStream_t.c and
--   src/service/source/stream/webSocketStream_t.c, with service_enqueue of
--   src/service/include/internal/service-inl.h. Streams.Loop has the loop for any codec, which
--   composes the decoder, the byte queue and the event queue.
-- - Service: the event loop of src/service/source/service_t.c with service_stop and
--   service_enqueue. Each access to a field that threads share is a step; Step lets any caller, or
--   the thread of the service, do its next one. take_pending, handle, end_batch, reset and recheck
--   are the parts of doPendingFunctors, which the watcher of
--   src/core/source/eventIO/posix/eventWatcher_t.c calls where it has been notified.
--   Service.Callback has service_eventCallback, service_send and service_sendMove, with the list
--   of what the function does to the other components.
--
-- Buffers are lists of numbers, and a theorem asks for bytes (below 256) where the code computes
-- with them. A result none is a fault: an access outside a block, a failed assert, a division by
-- zero, or an int that overflows; only the signed shift in msgpackDecode_readInteger is taken as
-- GCC defines it. size_t arithmetic is modulo 2^64; the validity of a queue bounds its capacity
-- by 2^62, below which nothing wraps. Each function of the two centres holds their lock and is
-- one step. Fuel or a count stands in three places: the rounds of the receive loops, where the
-- number of readable bytes is enough since every round takes bytes out, the count of fragments
-- in the encode loops, which is that of the code, and 64 rounds of the loop that doubles the
-- length of an msgpack buffer, after which the length is 0 on 64 bits and the code does not end
-- either.
--
-- Not modelled: failed allocations, which the code does not test for; services that are stopped
-- by another thread while a receive callback runs; the scheduling of the service threads; the
-- event loop, threads, sockets, TLS and the Lua bindings.
pub mod Base
pub mod ByteQueue
pub mod ChannelCenter
pub mod Fragments
pub mod HandleTable
pub mod Memory
pub mod Msgpack
pub mod RwSpinLock
pub mod Service
pub mod ServiceCenter
pub mod Streams
pub mod Tpack
pub mod WebSocket
