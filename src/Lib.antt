-- ===== src/Lib.antt =====
-- A verification of the WebSocket client library for macOS: the byte rings between a socket and the
-- connection, the frame codec, the transfers, opening and closing a connection, what it sends and
-- receives, its metrics, the extraction of JSON fields, and the example client.
--
-- The program. A connection (`WebSocket`, src/websocket.c) owns two rings (src/ringbuffer.c). io_read
-- and io_write (src/io_kqueue.c), or ssl_read and ssl_write (src/ssl.c), move bytes between a ring and
-- the socket. websocket_send writes a frame into the transmit ring and starts a transfer.
-- process_frames parses the bytes in the receive ring (src/parser_neon.c), hands messages to a
-- callback, answers pings and moves the ring's read position. websocket_connect
-- parses the URL, makes the rings, the I/O context, the socket and the TLS context,
-- and sends the HTTP upgrade; parse_handshake_response takes the answer out of the receive ring.
-- websocket_process waits for events, reads, and calls either of the two.
--
-- The files.
-- - Prelude and its children: tests, lists, size_t arithmetic, memory and memcpy, bits, C strings
--   and <string.h>.
-- - Ring: `RingBuffer` and its operations, named after the C functions without the prefix
--   ringbuffer_. Ring/Setup: ringbuffer_init and ringbuffer_cleanup. Ring/Invariant: what a
--   well-formed ring is. Ring/Copy, Ring/Stored, Ring/Refine: the bytes that a ring holds and what the
--   operations do to them. Ring/Queue: the bounded queue. Ring/Batch, Ring/BatchRead: the batch
--   operations. Ring/Inline: the inline ones. Ring/Spsc: one producer and one consumer thread.
-- - Frame: `WSFrame`, neon_parse_ws_frame and scalar_parse_ws_frame. Frame/Build: the headers that
--   websocket_send and websocket_send_pong fill in. Frame/Mask: the masking loops. Frame/Bounds,
--   Frame/Stream, Frame/Roundtrip, Frame/Partial, Frame/Pong: what the parser makes of a buffer.
-- - Io: `IOContext` and the registry of sockets. Io/Registry: the registry against the kqueue.
-- - Transfer: io_read, io_write, ssl_read, ssl_write. Transfer/Plain and Transfer/Secure: what they
--   do to a ring. Transfer/Session: ssl_init, ssl_connect, ssl_cleanup. Transfer/Callbacks:
--   ssl_read_func, ssl_write_func. Transfer/OpenSsl: src/ssl.c as compiled with HAVE_OPENSSL;
--   Transfer/OpenSsl/Reads, Transfer/OpenSsl/Writes, Transfer/OpenSsl/Handles: reads and writes
--   with either backend, and the objects of the TLS libraries that are made and freed.
-- - Client: `struct WebSocket`, with the calls of callbacks as a list of events, the calls of
--   close() as a list of descriptors, what is given back to free and vm_deallocate, and the bytes
--   that writev took.
-- - Client/Send: websocket_send, websocket_send_pong. Client/Samples: update_latency_sample, and
--   Client/Samples/Window: the samples that it keeps. Client/Pings: the heartbeat, check_heartbeat.
-- - Client/Receive: process_frames; Client/Receive/Rounds and Client/Receive/Delivery: what it does
--   with whole frames, Client/Receive/Partial, Client/Receive/Prefix and Client/Receive/Stream: with a
--   stream of which the last frame has not wholly arrived, Client/Receive/Same,
--   Client/Receive/Robust: what it does to the ring on any bytes.
-- - Client/Link: two connections, one that sends and one that receives, by io_read and
--   process_frames or by websocket_process, as a step relation;
--   Client/Link/Kept and Client/Link/Ordered: the stream of frames between them.
-- - Client/Url: parse_url. Client/Handshake: send_handshake, parse_handshake_response.
-- - Client/Lifecycle: websocket_create, websocket_close, websocket_destroy. Client/Connect:
--   tcp_connect, websocket_connect. Client/Lifecycle/Destroy, Client/Connect/Release: what they leave
--   behind. Client/Connect/Opened: what a connection has opened.
-- - Client/Process: the calls that websocket_process makes, and io_poll. Client/Process/Turn: the
--   handling of events and websocket_process. Client/Process/Drained, Client/Process/Lost: the loop
--   that empties the receive ring, and broken connections. Client/Process/Onward,
--   Client/Process/Unheard, Client/Process/Hands: what the loops, the periodic checks and a turn do
--   with a stream of frames. Client/Process/Stays: connections that are closing.
--   Client/Process/Sound, Client/Process/Robust: the receive ring on any bytes.
-- - Client/Observe: metrics, percentiles, health and the state of reconnection.
-- - Json: neon_parse_json_market_data, scalar_parse_json_market_data, neon_extract_json_fields.
--   Json/First, Json/Search: the search for a name. Json/Value, Json/Extract: the value behind it.
-- - Ticker: on_message and main of examples/binance_ticker.c. Ticker/Wrapped: what it prints.
-- - Tests and its children: the theorems at concrete inputs.
--
-- Numbers are natural numbers; a size_t sum or difference that can wrap is taken modulo 2 ^ 64. A
-- ring's size is at most 2 ^ 62, which the 8 MB of ringbuffer_init meet. process_frames runs at most
-- 1000 rounds, as in the source; the chunk loop of the Neon search runs on the text's length as fuel,
-- the loop that empties the receive ring runs on the number of its bytes, and no other loop has a bound
-- that is not the source's or the length of its data. A double is known by its bits: its
-- arithmetic is a parameter.
--
-- What the kernel, the TLS library, the clock and the random device return is an argument of the
-- operation that asks for it. The callbacks do not call back into the library.
--
-- Not modelled: the inline assembly, thread policies and system tuning of src/os_macos.h, the test
-- programs, and what examples/binance_ticker.c prints besides trades.
pub mod Prelude
pub mod Ring
pub mod Frame
pub mod Io
pub mod Transfer
pub mod Client
pub mod Json
pub mod Ticker
pub mod Tests
