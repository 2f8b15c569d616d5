-- ===== src/Crypto/Tests.antt =====
-- The properties of the padding and of the two routines over it, with a cipher that changes
-- nothing.
use gateway_lite.Common.{
  Bytes, [], arith, bytes_eq, length, nat_eq, refl, replicate, true, utf8, ◌%◌, ◌++◌, ◌≡◌,
}
use gateway_lite.Crypto.{
  Cipher, IsCipher, ok, pkcs7_padding, pkcs7_un_padding, encrypt_bytes, decrypt_bytes, block_size,
}
use gateway_lite.Crypto.RoundTrip.{un_padding-padding, decrypt_bytes-encrypt_bytes}

abbrev plain : Cipher
plain = record { accepts = λ key. true; encrypt = λ key text. text; decrypt = λ key text. text }

plain-IsCipher : IsCipher plain
plain-IsCipher = record { keeps_length = λ key text. refl; inverse = λ key text h. refl }

abbrev spare : Bytes
spare = replicate 11 0

un_padding-padding_case :
    (buf : Bytes) × (pkcs7_padding (utf8 "hello" ++ (spare ++ [])) 5 block_size ≡ ok (buf, 11))
    × (length buf ≡ 16)
    × (16 % block_size ≡ 0)
    × (pkcs7_un_padding buf 16 ≡ ok (utf8 "hello"))
un_padding-padding_case = un_padding-padding (utf8 "hello") spare [] refl

decrypt_bytes-encrypt_bytes_example :
    (text : Bytes) × (encrypt_bytes plain
        (utf8 "0123456789abcdef")
        16
        (utf8 "hello" ++ (spare ++ []))
        5
      ≡ ok text)
    × (length text ≡ 16)
    × (decrypt_bytes plain (utf8 "0123456789abcdef") (replicate 16 0) (text ++ []) (length text)
        ≡ ok (utf8 "hello"))
decrypt_bytes-encrypt_bytes_example =
    decrypt_bytes-encrypt_bytes plain (utf8 "0123456789abcdef") 16 (utf8 "hello") spare []
      (replicate 16 0) [] plain-IsCipher (omega arith) refl refl (omega arith) (omega arith)
