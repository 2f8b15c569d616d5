-- ===== src/Protocol/NodeId.antt =====
-- `nodeNameToID`: the CRC-64 of hash/crc64 over the ISO polynomial, by its table.
use Prim.Native.Nat.{bit_xor}
use gateway_lite.Common.{
  Bytes, [], bytes_eq, if◌then◌else◌, nat_eq, refl, suc, utf8, zero, ℕ, ◌%◌, ◌-◌, ◌/◌, ◌==◌, ◌^◌,
  ◌∷◌, ◌≡◌, ◌<◌, arith,
}

abbrev iso_poly : ℕ
iso_poly = 0xd8000000_00000000

abbrev max_uint64 : ℕ
max_uint64 = 2 ^ 64 - 1

-- The rounds of crc64.MakeTable for one entry.
shift_out : ℕ → ℕ → ℕ
shift_out zero crc = crc
shift_out (suc k) crc = shift_out k (if crc % 2 == 1 then bit_xor (crc / 2) iso_poly else crc / 2)

table_entry : ℕ → ℕ
table_entry b = shift_out 8 b

update : ℕ → Bytes → ℕ
update crc [] = crc
update crc (b ∷ bs) = update (bit_xor (table_entry (bit_xor (crc % 256) b)) (crc / 256)) bs

unfoldable pub node_name_to_id : Bytes → ℕ
unfolding shift_out table_entry update
node_name_to_id name = max_uint64 - update max_uint64 name

-- The check value of CRC-64/GO-ISO.
check_value : node_name_to_id (utf8 "123456789") ≡ 0xb909_56c7_75a4_1001
unfolding node_name_to_id
check_value = refl

-- A node's number has 64 bits.
pub node_name_to_id-lt : (name : Bytes) → node_name_to_id name < 2 ^ 64
unfolding node_name_to_id
node_name_to_id-lt name = omega arith
