-- ===== src/H1/Buf.antt =====
-- actix-http-alt/src/h1/proto/buf.rs. `Bytes` and `BytesMut` are lists of bytes.
use mathlib.Core.List.{flatten}
use actix_server_alt.Prelude.{
  ℕ, ◌≤◌, ◌<◌, ◌≡◌, refl, if◌then◌else◌, Bool, false, List, [], ◌++◌, length, drop, take, leb,
}
use actix_server_alt.Util.Buf.{Buf, bytes_Buf}
use actix_server_alt.Util.BufList.{BufList, new, push}

-- `ReadBuf`, with the constant `READ_BUF_LIMIT` as an argument
pub record ReadBuf : Type 0 where
  pub advanced : Bool
  pub buf : List ℕ

unfoldable pub new_read_buf : ReadBuf
new_read_buf = record { advanced = false; buf = [] }

unfoldable pub read_backpressure : ℕ → ReadBuf → Bool
read_backpressure limit b = leb limit (length b.buf)

unfoldable pub set_advanced : ReadBuf → Bool → ReadBuf
set_advanced b advanced = record b { advanced = advanced }

-- `EncodedBuf`
pub data EncodedBuf (B : Type 0) : Type 0 where
  buf : B → EncodedBuf B
  static : List ℕ → EncodedBuf B

module _ {B : Type 0} (ops : Buf B) where
  unfoldable pub remaining : EncodedBuf B → ℕ
  remaining (buf b) = ops.remaining b
  remaining (static bytes) = length bytes

  unfoldable pub chunk : EncodedBuf B → List ℕ
  chunk (buf b) = ops.chunk b
  chunk (static bytes) = bytes

  unfoldable pub chunks : EncodedBuf B → ℕ → List (List ℕ)
  chunks (buf b) n = ops.chunks_vectored b n
  chunks (static bytes) n = bytes_Buf.chunks_vectored bytes n

  unfoldable pub advance_buf : EncodedBuf B → ℕ → EncodedBuf B
  advance_buf (buf b) n = buf (ops.advance b n)
  advance_buf (static bytes) n = static (drop n bytes)

  unfoldable pub view : EncodedBuf B → List ℕ
  view (buf b) = ops.view b
  view (static bytes) = bytes

  -- The default method of the trait, which `EncodedBuf` has: the bytes come off the front.
  unfoldable pub copy : EncodedBuf B → ℕ → List ℕ × EncodedBuf B
  unfolding advance_buf view
  copy b n = (take n (view b), advance_buf b n)

  -- `impl Buf for EncodedBuf`: each method keeps to what the trait documents if those of `B` do.
  unfoldable pub encoded_Buf : Buf (EncodedBuf B)
  unfolding remaining chunk chunks advance_buf copy view bytes_Buf
  encoded_Buf = record {
    view = view;
    remaining = remaining;
    chunk = chunk;
    chunks_vectored = chunks;
    advance = advance_buf;
    copy_to_bytes = copy;
    remaining_view = remaining_view;
    chunk_front = chunk_front;
    chunk_some = chunk_some;
    chunks_count = chunks_count;
    chunks_front = chunks_front;
    advance_view = advance_view;
    copy_view = copy_view;
  }
    where
      remaining_view : (b : EncodedBuf B) → remaining b ≡ length (view b)
      remaining_view (buf b) = ops.remaining_view b
      remaining_view (static bytes) = refl

      chunk_front : (b : EncodedBuf B) → take (length (chunk b)) (view b) ≡ chunk b
      chunk_front (buf b) = ops.chunk_front b
      chunk_front (static bytes) = bytes_Buf.chunk_front bytes

      chunk_some : (b : EncodedBuf B) → 0 < remaining b → 0 < length (chunk b)
      chunk_some (buf b) h = ops.chunk_some b h
      chunk_some (static bytes) h = h

      chunks_count : (b : EncodedBuf B) (n : ℕ) → length (chunks b n) ≤ n
      chunks_count (buf b) n = ops.chunks_count b n
      chunks_count (static bytes) n = bytes_Buf.chunks_count bytes n

      chunks_front :
          (b : EncodedBuf B) (n : ℕ)
          → (rest : List ℕ) × (flatten (chunks b n) ++ rest ≡ view b)
            × (length (chunks b n) < n → rest ≡ [])
      chunks_front (buf b) n = ops.chunks_front b n
      chunks_front (static bytes) n = bytes_Buf.chunks_front bytes n

      advance_view :
          (b : EncodedBuf B) (n : ℕ) → n ≤ remaining b → view (advance_buf b n) ≡ drop n (view b)
      advance_view (buf b) n h = ops.advance_view b n h
      advance_view (static bytes) n h = refl

      copy_view :
          (b : EncodedBuf B) (n : ℕ)
          → n ≤ remaining b
          → ((copy b n).0 ≡ take n (view b)) × (view (copy b n).1 ≡ drop n (view b))
      copy_view b n h = (refl, advance_view b n h)

-- `WriteListBuf` and `WriteBuf`
pub record WriteListBuf : Type 0 where
  pub buf : List ℕ
  pub list : BufList (EncodedBuf (List ℕ))

pub data WriteBuf : Type 0 where
  flat : List ℕ → WriteBuf
  queue : WriteListBuf → WriteBuf

abbrev pub bytes_ops : Buf (EncodedBuf (List ℕ))
bytes_ops = encoded_Buf bytes_Buf

unfoldable pub new_write_buf : Bool → WriteBuf
new_write_buf is_vectored =
    if is_vectored then queue (record { buf = []; list = new bytes_ops }) else flat []

-- `WriteListBuf::buffer`
unfoldable pub buffer : WriteListBuf → EncodedBuf (List ℕ) → WriteListBuf
buffer w b = record w { list = push bytes_ops w.list b }

-- `WriteBuf::backpressure`, with the constant `WRITE_BUF_LIMIT` as an argument
unfoldable pub write_backpressure : ℕ → WriteBuf → Bool
write_backpressure limit (flat bytes) = leb limit (length bytes)
write_backpressure limit (queue w) = leb limit w.list.remaining
