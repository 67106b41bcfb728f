-- ===== src/Lib.antt =====
-- A verification library for the repository: a WebSocket protocol (http-ws), an HTTP server
-- (actix-http-alt, actix-server-alt) and web plumbing over them (actix-service-alt,
-- actix-web-alt, http-encoding).
--
-- Parts and files:
--
-- - Ws/Proto, Ws/Mask, Ws/Frame, Ws/Codec, Ws/Stream: http-ws/src/proto.rs, mask.rs, frame.rs,
--   codec.rs and stream.rs. DecodeStream::poll_next (poll_decode) collects chunks and calls
--   Codec::decode (decode), which calls Parser::parse (parse), which unmasks by apply_mask;
--   EncodeStream::poll_next (poll_encode) calls Codec::encode (encode), which calls
--   Parser::write_message. The modules below them hold the lemmas, named for what they prove;
--   Ws/FrameRuns and Ws/Runs hold tests and examples.
-- - Ws/Handshake: the handshake of http-ws/src/lib.rs, over a header map as a lookup function.
-- - Util/Buf, Util/BufList: the trait Buf of the crate bytes as an interface with laws, and
--   actix-http-alt/src/util/buf_list.rs over it.
-- - Util/KeepAlive: the timer of actix-http-alt/src/util/keep_alive.rs, with the timer of the
--   runtime as a parameter.
-- - H1/Kind, H1/Chunked, H1/Decode: the states of actix-http-alt/src/h1/proto/codec.rs and the
--   body decoder of h1/proto/decode.rs. H1/Decode/Reference reads the same language byte by byte,
--   and is what the decoder is compared with.
-- - H1/Header, H1/Head: decode_head of h1/proto/decode.rs (Head/Read, with the indices of
--   Head/Index) and encode_head of h1/proto/encode.rs (Head/Write), over the types of the crate
--   http. Head/Framing says what the headers tell of the body, Head/Entries, Head/Written and
--   Head/Answer what encode_head makes of its entries, Head/Layout and Head/Rendered what a head
--   looks like, and Head/Announce relates it to the encoder of H1/Encode.
-- - H1/Dispatcher: poll_read_decode_body of h1/proto/dispatcher.rs, which reads from the socket,
--   runs the decoder and feeds the handler.
-- - H1/Dispatcher/Incoming: the method decode_head of h1/proto/dispatcher.rs over Head/Read, and
--   the handle of the body that a request gets.
-- - H1/Dispatcher/Serve: RequestHandler of h1/proto/dispatcher.rs, which waits for the handler of
--   a request and feeds it the body.
-- - H1/Dispatcher/Exchange: the part of run in h1/proto/dispatcher.rs that answers a request,
--   from encode_head to the end of the response, over Head/Write, Encode and Dispatcher/Respond.
-- - H1/Dispatcher/Expect: request_handler of h1/proto/dispatcher.rs, with the answer to a header
--   Expect in front of Dispatcher/Serve.
-- - H1/Dispatcher/Respond: ResponseHandler, drain_write and the loop of run around them, in
--   h1/proto/dispatcher.rs. What is answered in each round of the loop is listed, a poll that is
--   pending ends its list, and Respond/Delivers and Respond/Finishes say what the client gets.
-- - H1/Socket, H1/Body, H1/Context: try_read and try_write of h1/proto/dispatcher.rs, the queue
--   of h1/body.rs that carries a body to the handler, and the marks of h1/proto/context.rs.
--   H1/Runs, H1/HeadRuns, H1/RespondRuns and H1/IoRuns hold tests and examples.
-- - Encoding/Coding, Encoding/Coder, Encoding/Compress, Encoding/Negotiate:
--   http-encoding/src/coding.rs, the stream Coder of coder.rs, its macro async_code_impl with
--   writer.rs, and the choice of a coder and its headers in encoder.rs and decoder.rs. Codecs of
--   other crates are given by what they make of bytes, of a flush and of the end.
-- - Server/Limit: actix-server-alt/src/worker/limit.rs, as a step relation over its shared cells.
-- - H1/Buf, H1/Encode: h1/proto/buf.rs, and the body encoder of h1/proto/encode.rs, which writes
--   into a buffer that is flat or a list.
-- - Prelude: lists and Boolean tests over the native numbers, results, bytes, bits and UTF-8.
--
-- Conventions: a byte is a number below 256, a BytesMut, Bytes or slice is the list of its bytes,
-- and a machine integer keeps its wrap-around written out. A call that changes its receiver
-- returns the new value with its result. A Cell is a field of the state. Answers of sockets,
-- streams and channels are listed beforehand and are arguments, as are the random mask of a
-- frame, the byte order of the machine and the alignment of a buffer.
--
-- A debug_assert! holds or panics only in a debug build. Head/Write is told whether it is one.
-- Util/BufList is that of a release build, where the assertion of push, that a buffer is not
-- empty, is dropped; that the buffers pushed are not empty, and their sum fits usize, are
-- hypotheses of what is proved of push, and are proved where it is called.
--
-- Bounds: usize has 64 bits. The loop over the chunked states takes a byte in every round that
-- goes on, so its fuel is one more than the bytes there are, and the loop over the decoder has
-- the same fuel for the same reason. The size of a chunk is written with 16 digits at most, which
-- are enough for 64 bits.
--
-- A panic, such as unreachable!(), is none, or a failure of its own, and never an error that the
-- code returns.
--
-- Not modelled: SHA-1, base64, httparse, TLS, HTTP/2 and HTTP/3, compression, threads, signals
-- and timers, which other crates or the system provide; the outer loop of run, services and
-- extractors.
pub mod Prelude
pub mod Ws
pub mod Util
pub mod H1
pub mod Encoding
pub mod Server
