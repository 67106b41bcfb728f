-- ===== src/Ws/Codec/Progress.antt =====
-- `decode` of http-ws/src/codec.rs on a buffer that is still growing.
use actix_server_alt.Prelude.{
  ℕ, ◌+◌, ◌≤◌, ◌≡◌, ◌≢◌, refl, ap, Option, none, some, List, ◌++◌, length, Result, ok, err,
}
use actix_server_alt.Ws.Proto.{ProtocolError}
use actix_server_alt.Ws.Mask.{Layout}
use actix_server_alt.Ws.Frame.{Frame, parse}
use actix_server_alt.Ws.Frame.Parse.{FitsUsize, parse-append, parse_progress}
use actix_server_alt.Ws.Codec.{Message, server_flag, contains, Codec, decode_parsed, decode}

parsed_progress :
    (c : Codec) (p : List ℕ × Result ProtocolError (Option Frame)) (n : ℕ) (message : Message)
    → ((frame : Frame) → p.1 ≡ ok (some frame) → length p.0 + 2 ≤ n)
    → (decode_parsed c p).2 ≡ ok (some message)
    → length (decode_parsed c p).1 + 2 ≤ n
unfolding decode_parsed
parsed_progress c (src, ok none) n message h e = cc
parsed_progress c (src, ok (some frame)) n message h e = h frame refl
parsed_progress c (src, err x) n message h e = cc

-- A decoded message takes two bytes at least.
pub decode_progress :
    (l : Layout) (c : Codec) (src : List ℕ) (message : Message)
    → FitsUsize c.max_size
    → (decode l c src).2 ≡ ok (some message)
    → length (decode l c src).1 + 2 ≤ length src
unfolding decode
decode_progress l c src message f e =
    let server = contains c.flags server_flag in
    parsed_progress c (parse l src server c.max_size) (length src) message
      (parse_progress l src server c.max_size f).1 e

parsed-append :
    (c : Codec) (p q : List ℕ × Result ProtocolError (Option Frame)) (more : List ℕ)
    → (p.1 ≢ ok none → q ≡ (p.0 ++ more, p.1))
    → (decode_parsed c p).2 ≢ ok none
    → decode_parsed c q
      ≡ ((decode_parsed c p).0, (decode_parsed c p).1 ++ more, (decode_parsed c p).2)
unfolding decode_parsed
parsed-append c (src, ok none) q more h e = absurd (e refl)
parsed-append c (src, ok (some frame)) q more h e = ap (decode_parsed c) (h (λ r. cc))
parsed-append c (src, err x) q more h e = ap (decode_parsed c) (h (λ r. cc))

-- Once `decode` has answered with a message or an error, more input changes neither the answer nor
-- the codec, and stays behind what was left of the buffer, where `max_size` + 14 is below 2 ^ 64. So
-- the answer does not depend on how the bytes are cut into chunks.
pub decode-append :
    (l : Layout) (c : Codec) (src more : List ℕ)
    → FitsUsize c.max_size
    → (decode l c src).2 ≢ ok none
    → decode l c (src ++ more)
      ≡ ((decode l c src).0, (decode l c src).1 ++ more, (decode l c src).2)
unfolding decode
decode-append l c src more f e =
    let server = contains c.flags server_flag in
    parsed-append c (parse l src server c.max_size) (parse l (src ++ more) server c.max_size) more
      (parse-append l src more server c.max_size f) e
