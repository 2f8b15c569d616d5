-- ===== src/Protocol/Header.antt =====
-- The 8-byte header of protocol.go, the 16-byte push header, and the frame of `newMessage`.
-- encoding/binary in little-endian order is `le_bytes` and `le_value`.
pub mod LittleEndian
pub mod RoundTrip
mod Tests
use gateway_lite.Common.{
  Bytes, Option, [], bytes_eq, drop, if◌then◌else◌, length, ltb, nat_eq, none, some, suc, take,
  zero, ℕ, ◌%◌, ◌*◌, ◌++◌, ◌+◌, ◌/◌, ◌^◌, ◌∷◌,
}

-- A number as k bytes, the lowest first.
pub le_bytes : ℕ → ℕ → Bytes
le_bytes zero n = []
le_bytes (suc k) n = n % 256 ∷ le_bytes k (n / 256)

unfoldable pub le_value : Bytes → ℕ
le_value [] = 0
le_value (b ∷ bs) = b + 256 * le_value bs

pub record Header : Type 0 where
  pub data_len : ℕ
  pub main_type : ℕ
  pub sub_type : ℕ

abbrev pub header_size : ℕ
header_size = 8

pub record PushHeader : Type 0 where
  pub from : ℕ
  pub to : ℕ

abbrev pub push_header_size : ℕ
push_header_size = 16

unfoldable pub decode_header : Bytes → Option Header
unfolding le_value
decode_header bs =
    if ltb (length bs) header_size
    then none
    else some (record {
      data_len = le_value (take 4 bs);
      main_type = le_value (take 2 (drop 4 bs));
      sub_type = le_value (take 2 (drop 6 bs));
    })

unfoldable pub encode_header : ℕ → ℕ → ℕ → Bytes
unfolding le_bytes
encode_header main_type sub_type data_len =
    le_bytes 4 data_len ++ (le_bytes 2 main_type ++ le_bytes 2 sub_type)

-- binary.Read into a PushHeader
unfoldable pub decode_push_header : Bytes → Option PushHeader
unfolding le_value
decode_push_header bs =
    if ltb (length bs) push_header_size
    then none
    else some (record { from = le_value (take 8 bs); to = le_value (take 8 (drop 8 bs)) })

-- binary.Write of a PushHeader
unfoldable pub encode_push_header : PushHeader → Bytes
unfolding le_bytes
encode_push_header h = le_bytes 8 h.from ++ le_bytes 8 h.to

-- The frame of a packet that json.Marshal has turned into bytes: its length is cut to 32 bits.
-- `none` is the error of json.Marshal.
unfoldable pub new_message : ℕ → ℕ → Option Bytes → Option Bytes
unfolding encode_header
new_message main_type sub_type none = none
new_message main_type sub_type (some body) =
    some (encode_header main_type sub_type (length body % 2 ^ 32) ++ body)
