-- ===== src/Crypto.antt =====
-- common.go: PKCS#7 padding in place, and `encryptBytes` and `decryptBytes` over it. A buffer is its
-- whole array; `panic` is a slice or index out of range.
pub mod RoundTrip
mod Tests
use gateway_lite.Common.{
  Bool, Bytes, Option, [], bytes_eq, drop, get_or, if◌then◌else◌, leb, length, ltb, nat_eq, none,
  replicate, some, take, ℕ, ◌%◌, ◌&&◌, ◌++◌, ◌+◌, ◌-◌, ◌==◌, ◌||◌, ◌∷◌, ◌≡◌,
}

pub data Result (A : Type 0) : Type 0 where
  ok : A → Result A
  err : Result A
  panic : Result A

abbrev pub block_size : ℕ
block_size = 16

-- paddingArray[i]: row 0 is one zero, row i is sixteen times i, and there are seventeen rows.
padding_row : ℕ → Option Bytes
padding_row i = if ltb 16 i then none else if i == 0 then some (0 ∷ []) else some (replicate 16 i)

-- copy(dst, src) where both have that many bytes, at an offset of the buffer
abbrev overwrite : ℕ → Bytes → Bytes → Bytes
overwrite offset new buf = take offset buf ++ (new ++ drop (offset + length new) buf)

-- The padding of a length that is known.
pad_with : Bytes → ℕ → ℕ → Result (Bytes × ℕ)
unfolding padding_row
pad_with buf data_len pad_len =
    if ltb (length buf) (data_len + pad_len) then panic else elim (padding_row pad_len) [
      | none ↦ panic
      | some row ↦ ok (overwrite data_len (take pad_len row) buf, pad_len)
    ]

-- The buffer after the padding, and the length of the padding.
unfoldable pub pkcs7_padding : Bytes → ℕ → ℕ → Result (Bytes × ℕ)
unfolding pad_with
pkcs7_padding buf data_len block = pad_with buf data_len (block - data_len % block)

unfoldable pub pkcs7_un_padding : Bytes → ℕ → Result Bytes
pkcs7_un_padding orig data_len =
    if ltb 0 data_len && leb data_len (length orig)
    then (let un_pad_len = get_or orig (data_len - 1) 0 in
        if leb un_pad_len 0 || ltb 16 un_pad_len
        then err
        else if ltb data_len un_pad_len
        then panic
        else ok (take (data_len - un_pad_len) orig))
    else panic

-- AES in CBC mode under the fixed initial vector, for a key of the right length: crypto/aes and
-- crypto/cipher. Decryption undoes encryption, and both keep the length.
pub record Cipher : Type 0 where
  pub accepts : Bytes → Bool
  pub encrypt : Bytes → Bytes → Bytes
  pub decrypt : Bytes → Bytes → Bytes

pub record IsCipher (c : Cipher) : Type 0 where
  pub keeps_length : (key text : Bytes) → length (c.encrypt key text) ≡ length text
  pub inverse :
      (key text : Bytes) → length text % block_size ≡ 0 → c.decrypt key (c.encrypt key text) ≡ text

module _ (c : Cipher) where
  -- CryptBlocks panics on a text that is not whole blocks.
  -- The result is out[:total]; out has room for `room` bytes.
  encrypt_padded : Bytes → ℕ → ℕ → Result (Bytes × ℕ) → Result Bytes
  encrypt_padded key room plain_len (ok (buf, pad_len)) =
      let total = pad_len + plain_len in
      if ltb room total || ltb (length buf) total
      then panic
      else if total % block_size == 0
      then ok (c.encrypt key (take total buf))
      else panic
  encrypt_padded key room plain_len err = err
  encrypt_padded key room plain_len panic = panic

  unfoldable pub encrypt_bytes : Bytes → ℕ → Bytes → ℕ → Result Bytes
  unfolding encrypt_padded
  encrypt_bytes key room buf plain_len =
      if length key == 0
      then (if ltb (length buf) plain_len then panic else ok (take plain_len buf))
      else if c.accepts key
      then encrypt_padded key room plain_len (pkcs7_padding buf plain_len block_size)
      else err

  -- `out` holds the plain text in its first `data_len` bytes, then what it held before.
  unfoldable pub decrypt_bytes : Bytes → Bytes → Bytes → ℕ → Result Bytes
  decrypt_bytes key out buf data_len =
      if length key == 0
      then (if ltb (length buf) data_len then panic else ok (take data_len buf))
      else if c.accepts key
      then (if ltb (length out) data_len || ltb (length buf) data_len
          then panic
          else if data_len % block_size == 0
          then pkcs7_un_padding (c.decrypt key (take data_len buf) ++ drop data_len out) data_len
          else panic)
      else err
