-- ===== src/Ws/Codec/Parts.antt =====
-- The parts of a longer message between two codecs (http-ws/src/codec.rs).
use actix_server_alt.Prelude.{
  ℕ, ◌≡◌, true, false, not, List, [], ◌++◌, arith, ok, Bool-cases, inl, inr,
}
use actix_server_alt.Ws.Proto.{OpCode}
use actix_server_alt.Ws.Mask.{Mask, Layout}
use actix_server_alt.Ws.Mask.Words.{IsMask}
use actix_server_alt.Ws.Frame.{write_message}
use actix_server_alt.Ws.Frame.Parse.{FitsUsize}
use actix_server_alt.Ws.Frame.RoundTrip.{IsSendable}
use actix_server_alt.Ws.Codec.{
  Item, continuation, server_flag, insert, remove, contains, continuation_flag, w_continuation_flag,
  Codec, encode_item, decode_unfinished, decode_finished, decode_frame,
}
use actix_server_alt.Ws.Codec.Flags.{marks, flag_laws}
use actix_server_alt.Ws.Codec.InStep.{
  InStep, payload_of, op_code_of, or_empty-non_empty, Answer, part_message,
}

started_text :
    (l k : Layout) (key : Mask) (c d : Codec) (payload rest : List ℕ)
    → InStep c d
    → FitsUsize d.max_size
    → IsMask key
    → IsSendable OpCode.text payload d.max_size
    → contains c.flags w_continuation_flag ≡ false
    → Answer k d
        (write_message l key [] payload OpCode.text false
            (not (contains (insert c.flags w_continuation_flag) server_flag))
          ++ rest)
        rest
        (continuation (Item.first_text payload))
        (record c { flags = insert c.flags w_continuation_flag })
unfolding decode_frame decode_unfinished marks
started_text l k key c d payload rest s f m can e =
    let laws = flag_laws c.flags s.writer_fits in
    let laws' = flag_laws d.flags s.reader_fits in
    part_message l k key (record c { flags = insert c.flags w_continuation_flag }) d OpCode.text
      false payload rest (Item.first_text payload) (insert d.flags continuation_flag) f m can
      (ground (arith, laws.insert_w_continuation)) (ground (arith, or_empty-non_empty payload))
      (ground (arith, laws.insert_w_continuation, laws'.insert_continuation))

started_binary :
    (l k : Layout) (key : Mask) (c d : Codec) (payload rest : List ℕ)
    → InStep c d
    → FitsUsize d.max_size
    → IsMask key
    → IsSendable OpCode.binary payload d.max_size
    → contains c.flags w_continuation_flag ≡ false
    → Answer k d
        (write_message l key [] payload OpCode.binary false
            (not (contains (insert c.flags w_continuation_flag) server_flag))
          ++ rest)
        rest
        (continuation (Item.first_binary payload))
        (record c { flags = insert c.flags w_continuation_flag })
unfolding decode_frame decode_unfinished marks
started_binary l k key c d payload rest s f m can e =
    let laws = flag_laws c.flags s.writer_fits in
    let laws' = flag_laws d.flags s.reader_fits in
    part_message l k key (record c { flags = insert c.flags w_continuation_flag }) d OpCode.binary
      false payload rest (Item.first_binary payload) (insert d.flags continuation_flag) f m can
      (ground (arith, laws.insert_w_continuation)) (ground (arith, or_empty-non_empty payload))
      (ground (arith, laws.insert_w_continuation, laws'.insert_continuation))

continued :
    (l k : Layout) (key : Mask) (c d : Codec) (payload rest : List ℕ)
    → InStep c d
    → FitsUsize d.max_size
    → IsMask key
    → IsSendable OpCode.continue payload d.max_size
    → contains c.flags w_continuation_flag ≡ true
    → Answer k d
        (write_message l key [] payload OpCode.continue false (not (contains c.flags server_flag))
          ++ rest)
        rest
        (continuation (Item.continue payload))
        c
unfolding decode_frame decode_unfinished marks
continued l k key c d payload rest s f m can e =
    part_message l k key c d OpCode.continue false payload rest (Item.continue payload) d.flags f m
      can s.opposite (ground (arith, or_empty-non_empty payload)) s

ended :
    (l k : Layout) (key : Mask) (c d : Codec) (payload rest : List ℕ)
    → InStep c d
    → FitsUsize d.max_size
    → IsMask key
    → IsSendable OpCode.continue payload d.max_size
    → contains c.flags w_continuation_flag ≡ true
    → Answer k d
        (write_message l key [] payload OpCode.continue true
            (not (contains (remove c.flags w_continuation_flag) server_flag))
          ++ rest)
        rest
        (continuation (Item.last payload))
        (record c { flags = remove c.flags w_continuation_flag })
unfolding decode_frame decode_finished marks
ended l k key c d payload rest s f m can e =
    let laws = flag_laws c.flags s.writer_fits in
    let laws' = flag_laws d.flags s.reader_fits in
    part_message l k key (record c { flags = remove c.flags w_continuation_flag }) d OpCode.continue
      true payload rest (Item.last payload) (remove d.flags continuation_flag) f m can
      (ground (arith, laws.remove_w_continuation)) (ground (arith, or_empty-non_empty payload))
      (ground (arith, laws.remove_w_continuation, laws'.remove_continuation))

pub item_message :
    (l k : Layout) (key : Mask) (c d : Codec) (item : Item) (rest : List ℕ)
    → InStep c d
    → FitsUsize d.max_size
    → IsMask key
    → IsSendable (op_code_of item) (payload_of item) d.max_size
    → (encode_item l key c item []).result ≡ ok tt
    → Answer k d
        ((encode_item l key c item []).dst ++ rest)
        rest
        (continuation item)
        (encode_item l key c item []).codec
unfolding encode_item
item_message l k key c d (Item.first_text payload) rest s f m can e =
    elim (Bool-cases (contains c.flags w_continuation_flag)) [
      | inl busy ↦ ground arith
      | inr free ↦ rw free (started_text l k key c d payload rest s f m can free)
    ]
item_message l k key c d (Item.first_binary payload) rest s f m can e =
    elim (Bool-cases (contains c.flags w_continuation_flag)) [
      | inl busy ↦ ground arith
      | inr free ↦ rw free (started_binary l k key c d payload rest s f m can free)
    ]
item_message l k key c d (Item.continue payload) rest s f m can e =
    elim (Bool-cases (contains c.flags w_continuation_flag)) [
      | inl busy ↦ rw busy (continued l k key c d payload rest s f m can busy)
      | inr free ↦ ground arith
    ]
item_message l k key c d (Item.last payload) rest s f m can e =
    elim (Bool-cases (contains c.flags w_continuation_flag)) [
      | inl busy ↦ rw busy (ended l k key c d payload rest s f m can busy)
      | inr free ↦ ground arith
    ]
