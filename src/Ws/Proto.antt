-- ===== src/Ws/Proto.antt =====
-- http-ws/src/proto.rs and the protocol errors of http-ws/src/error.rs. A `u8` or `u16` is a number
-- below 256 or 65536, and a `String` is the list of its UTF-8 bytes.
pub mod RoundTrip
use Prim.Native.String.{String}
use actix_server_alt.Prelude.{ℕ, Option, none, some, List, ◌==◌, if◌then◌else◌}

pub data OpCode : Type 0 where
  continue text binary close ping pong bad : OpCode

-- `impl Display for OpCode`
unfoldable pub display : OpCode → String
display continue = "CONTINUE"
display text = "TEXT"
display binary = "BINARY"
display close = "CLOSE"
display ping = "PING"
display pong = "PONG"
display bad = "BAD"

-- `impl From<OpCode> for u8`
unfoldable pub to_u8 : OpCode → ℕ
to_u8 continue = 0
to_u8 text = 1
to_u8 binary = 2
to_u8 close = 8
to_u8 ping = 9
to_u8 pong = 10
to_u8 bad = 8

-- `impl From<u8> for OpCode`
unfoldable pub of_u8 : ℕ → OpCode
of_u8 byte =
    if byte == 0
    then continue
    else if byte == 1
    then text
    else if byte == 2
    then binary
    else if byte == 8
    then close
    else if byte == 9
    then ping
    else if byte == 10
    then pong
    else bad

pub data CloseCode : Type 0 where
  normal away protocol unsupported abnormal invalid policy size : CloseCode
  extension error restart again tls : CloseCode
  other : ℕ → CloseCode

-- `impl From<CloseCode> for u16`
unfoldable pub to_u16 : CloseCode → ℕ
to_u16 normal = 1000
to_u16 away = 1001
to_u16 protocol = 1002
to_u16 unsupported = 1003
to_u16 abnormal = 1006
to_u16 invalid = 1007
to_u16 policy = 1008
to_u16 size = 1009
to_u16 extension = 1010
to_u16 error = 1011
to_u16 restart = 1012
to_u16 again = 1013
to_u16 tls = 1015
to_u16 (other code) = code

-- `impl From<u16> for CloseCode`
unfoldable pub of_u16 : ℕ → CloseCode
of_u16 code =
    if code == 1000
    then normal
    else if code == 1001
    then away
    else if code == 1002
    then protocol
    else if code == 1003
    then unsupported
    else if code == 1006
    then abnormal
    else if code == 1007
    then invalid
    else if code == 1008
    then policy
    else if code == 1009
    then size
    else if code == 1010
    then extension
    else if code == 1011
    then error
    else if code == 1012
    then restart
    else if code == 1013
    then again
    else if code == 1015
    then tls
    else other code

pub record CloseReason : Type 0 where
  pub code : CloseCode
  pub description : Option (List ℕ)

-- `impl From<CloseCode> for CloseReason`
unfoldable pub reason_of_code : CloseCode → CloseReason
reason_of_code code = record { code = code; description = none }

-- `impl From<(CloseCode, T)> for CloseReason`
unfoldable pub reason_of_pair : CloseCode × List ℕ → CloseReason
reason_of_pair info = record { code = info.0; description = some info.1 }

-- `Io` wraps an error of the standard library, and the codec never builds it.
pub data ProtocolError : Type 0 where
  unmasked_frame masked_frame bad_op_code overflow : ProtocolError
  continuation_not_started continuation_started : ProtocolError
  invalid_opcode invalid_length : ℕ → ProtocolError
  continuation_fragment : OpCode → ProtocolError
