-- ===== src/H1/RespondRuns.antt =====
-- Runs of the loops that wait for a handler and that write a response.
use actix_server_alt.Prelude.{
  ℕ, ◌≡◌, refl, true, false, none, some, List, [], ◌∷◌, ◌++◌, arith, ok, pending, ready, replicate,
}
use actix_server_alt.H1.Kind.{Kind, decode_chunked, encode_chunked}
use actix_server_alt.H1.Decode.{chunk}
use actix_server_alt.H1.Buf.{flat}
use actix_server_alt.H1.Socket.{Outgoing, accepted}
use actix_server_alt.H1.Dispatcher.{got}
use actix_server_alt.H1.Chunked.{ChunkedState}
use actix_server_alt.H1.Dispatcher.Total.{IsReadable}
use actix_server_alt.H1.Dispatcher.Serve.{
  Service, responded, answered, waits as waits_for, serve_polls,
}
use actix_server_alt.H1.Dispatcher.Serve.Feeds as Feeds
use actix_server_alt.H1.Dispatcher.Serve.Feeds.{start, serve_polls-Goes}
use actix_server_alt.H1.Context.{Context, init, expect_mark}
use actix_server_alt.H1.Dispatcher.Expect.{request_handler}
use actix_server_alt.H1.Dispatcher.Expect.Continues.{Continues, request_handler-Continues}
use actix_server_alt.H1.Dispatcher.Respond.{
  writable, Responding, goes_on, waits, Round, finished, respond, respond_polls,
}
use actix_server_alt.H1.Dispatcher.Respond.Kept.{all_bytes, IsLive, Goes}
use actix_server_alt.H1.Dispatcher.Respond.Delivers.{respond_polls-Goes}
use actix_server_alt.H1.Dispatcher.Respond.Finishes.{steady, chunked_to, Ends, respond-Ends}

abbrev hello : List ℕ
hello = 104 ∷ 101 ∷ 108 ∷ 108 ∷ 111 ∷ []

-- Two messages, with the bytes of a head still in the buffer, while the request's body is not read yet.
abbrev two_messages : Responding
two_messages = record {
  body = hello ∷ hello ∷ [];
  kind = encode_chunked false;
  buf = flat (72 ∷ []);
  handle = some (Kind.length 3);
  read_buf = [];
  fed = [];
  force_close = false;
  sent = [];
}

two_messages-IsLive : IsLive two_messages
two_messages-IsLive = record {
  sound = tt;
  writes = tt;
  fits = (omega arith, (omega arith, tt));
  handle = tt;
}

-- A round in which the body waits for a byte of the request.
abbrev waiting : Round
waiting = record {
  asked = waits (record {
    write_ready = ok true;
    writes = accepted 2 ∷ Outgoing.blocked ∷ [];
    sender = ready (ok tt);
    reads = got (97 ∷ []) ∷ [];
  });
  writes = [];
  wakes = [];
  flushed = true;
}

-- A round in which the socket takes two bytes, blocks, and then takes the rest.
abbrev pushing : Round
pushing = record {
  asked = goes_on;
  writes = accepted 2 ∷ Outgoing.blocked ∷ [];
  wakes = writable (accepted 90 ∷ []) ∷ [];
  flushed = true;
}

abbrev polls : List (List Round)
polls = (pushing ∷ pushing ∷ waiting ∷ []) ∷ (pushing ∷ pushing ∷ pushing ∷ []) ∷ []

respond_polls-Goes_example : Goes (all_bytes two_messages) (respond_polls 8 polls two_messages)
respond_polls-Goes_example =
    respond_polls-Goes 8 polls two_messages (omega arith) two_messages-IsLive

respond-Ends_example :
    Ends
      (respond 8 (replicate 6 (steady 31)) (chunked_to two_messages (hello ∷ hello ∷ []) false []))
unfolding actix_server_alt.H1.Encode.RoundTrip.bytes_in actix_server_alt.H1.Encode.encode_all
    actix_server_alt.H1.Encode.upper_hex
respond-Ends_example =
    respond-Ends 8 31 (hello ∷ hello ∷ []) 6 false [] two_messages (omega arith) (omega arith)
      (omega arith)

-- Both messages are sent, with a byte of the request read in between, and the end is in the buffer.
both_sent :
    respond_polls 8 polls two_messages
    ≡ some (
      record {
        body = [];
        kind = encode_chunked true;
        buf = flat (48 ∷ 13 ∷ 10 ∷ 13 ∷ 10 ∷ []);
        handle = some (Kind.length 2);
        read_buf = [];
        fed = chunk (97 ∷ []) ∷ [];
        force_close = false;
        sent =
            72 ∷ 53 ∷ 13 ∷ 10 ∷ (hello ++ 13 ∷ 10 ∷ []) ++ 53 ∷ 13 ∷ 10 ∷ (hello ++ 13 ∷ 10 ∷ []);
      },
      finished,
    )
unfolding respond_polls actix_server_alt.H1.Encode.upper_hex actix_server_alt.H1.Dispatcher.drain
    actix_server_alt.H1.Decode.decode
both_sent = refl

-- A handler that waits for the body twice, and whose poll is pending in between, gets both chunks.
abbrev two_polls : List (List (Service ℕ ℕ))
two_polls =
    (waits_for (ready (ok tt)) (got (51 ∷ 13 ∷ 10 ∷ 97 ∷ []) ∷ []) ∷ waits_for pending [] ∷ [])
    ∷ (waits_for (ready (ok tt)) (got (98 ∷ 99 ∷ 13 ∷ 10 ∷ []) ∷ []) ∷ answered (ok 200) ∷ [])
    ∷ []

size_IsReadable : IsReadable (decode_chunked ChunkedState.size 0)
size_IsReadable = (tt, λ e. cc)

serve_polls-Goes_example :
    Feeds.Goes
      (λ e. e)
      (decode_chunked ChunkedState.size 0)
      []
      (serve_polls (λ e. e) two_polls (start (decode_chunked ChunkedState.size 0) []))
serve_polls-Goes_example =
    serve_polls-Goes (λ (e : ℕ). e) (decode_chunked ChunkedState.size 0) [] two_polls
      size_IsReadable

-- Its items, and the response
got_both :
    serve_polls (λ (e : ℕ). e) two_polls (start (decode_chunked ChunkedState.size 0) [])
    ≡ some (
      record {
        handle = some (decode_chunked ChunkedState.size 0);
        read_buf = [];
        fed = chunk (97 ∷ []) ∷ chunk (98 ∷ 99 ∷ []) ∷ [];
        force_close = false;
        taken = got (51 ∷ 13 ∷ 10 ∷ 97 ∷ []) ∷ got (98 ∷ 99 ∷ 13 ∷ 10 ∷ []) ∷ [];
      },
      responded 200,
    )
unfolding serve_polls actix_server_alt.H1.Dispatcher.drain actix_server_alt.H1.Decode.decode
    actix_server_alt.H1.Chunked.step actix_server_alt.H1.Chunked.push_digit
got_both = refl

-- A client that expects to be told to go on, and takes ten bytes before it blocks.
abbrev expecting : Context
expecting = record { state = expect_mark; ctype = init; header_cache = none }

request_handler-Continues_example : Continues (decode_chunked ChunkedState.size 0) [] (flat []) (
    request_handler
      (λ (e : ℕ). e)
      (λ (e : ℕ). e)
      expecting
      (ok tt)
      (accepted 10 ∷ Outgoing.blocked ∷ [])
      (writable (accepted 90 ∷ []) ∷ [])
      true
      two_polls
      (flat [])
      (start (decode_chunked ChunkedState.size 0) []))
unfolding actix_server_alt.H1.Context.is_expect_header
request_handler-Continues_example =
    request_handler-Continues (λ (e : ℕ). e) (λ (e : ℕ). e) (decode_chunked ChunkedState.size 0) []
      two_polls (flat []) expecting (accepted 10 ∷ Outgoing.blocked ∷ [])
      (writable (accepted 90 ∷ []) ∷ []) true refl tt tt size_IsReadable
