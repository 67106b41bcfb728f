-- ===== src/Ws/Proto/RoundTrip.antt =====
-- The numbers of op codes and close codes (http-ws/src/proto.rs), there and back.
use actix_server_alt.Prelude.{ℕ, ◌<◌, ◌≡◌, refl, subst, ◌≢◌, ◌↔◌, arith}
use actix_server_alt.Ws.Proto.{
  OpCode, continue, text, binary, close, ping, pong, bad, to_u8, of_u8, CloseCode, normal, other,
  to_u16, of_u16,
}

-- Every op code but `Bad` is read back from its number, and every number that stands for an op code
-- is written back. `Bad` is written as the number of a close frame.
pub of_u8-to_u8 :
    ((op : OpCode) → op ≢ bad → of_u8 (to_u8 op) ≡ op)
    × ((byte : ℕ) → of_u8 byte ≢ bad → to_u8 (of_u8 byte) ≡ byte)
    × (of_u8 (to_u8 bad) ≡ close)
unfolding to_u8 of_u8
of_u8-to_u8 = (read_back, λ byte h. ground arith, refl)
  where
    read_back : (op : OpCode) → op ≢ bad → of_u8 (to_u8 op) ≡ op
    read_back continue h = refl
    read_back text h = refl
    read_back binary h = refl
    read_back close h = refl
    read_back ping h = refl
    read_back pong h = refl
    read_back bad h = absurd (h refl)

pub to_u8-lt : (op : OpCode) → to_u8 op < 16
unfolding to_u8
to_u8-lt op = ground arith

pub to_u16-of_u16 : (code : ℕ) → to_u16 (of_u16 code) ≡ code
unfolding to_u16 of_u16
to_u16-of_u16 code = ground arith

-- Every number is a close code, which is written back as that number. A close code is read back
-- exactly if it is not `Other` over a number that has a name.
pub close_code_round_trip :
    ((code : ℕ) → to_u16 (of_u16 code) ≡ code)
    × ((c : CloseCode) → (of_u16 (to_u16 c) ≡ c) ↔ ((n : ℕ) → c ≡ other n → of_u16 n ≡ other n))
unfolding to_u16 of_u16
close_code_round_trip =
    (to_u16-of_u16, λ c. (λ e n q. subst (λ t. of_u16 (to_u16 t) ≡ t) q e, read_back c))
  where
    read_back :
        (c : CloseCode) → ((n : ℕ) → c ≡ other n → of_u16 n ≡ other n) → of_u16 (to_u16 c) ≡ c
    read_back (other n) h = h n refl
    read_back normal h = refl
    read_back _ h = refl
