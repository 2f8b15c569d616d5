-- ===== src/Crypto/RoundTrip.antt =====
-- Padding and its removal, and the round trip through both.
use mathlib.Core.List.{append_assoc}
use gateway_lite.Common.{
  Bytes, arith, bytes_eq, drop, drop-append, drop-append_add, get_or, get_or-append,
  get_or-replicate, length, length-append, length-replicate, nat_eq, replicate, some, take,
  take-append, take-replicate, true, ℕ, ◌%◌, ◌++◌, ◌+◌, ◌-◌, ◌<◌, ◌∙◌, ◌≡◌, ◌≤◌,
}
use gateway_lite.Crypto.{
  ok, block_size, pkcs7_padding, pkcs7_un_padding, Cipher, IsCipher, encrypt_bytes, decrypt_bytes,
  padding_row, pad_with, encrypt_padded,
}

padding_row-some : (i : ℕ) → 0 < i → i ≤ 16 → padding_row i ≡ some (replicate 16 i)
unfolding padding_row
padding_row-some i h k = ground arith

pad_with-append :
    (xs ys zs : Bytes) (p : ℕ)
    → 0 < p
    → p ≤ 16
    → length ys ≡ p
    → pad_with (xs ++ (ys ++ zs)) (length xs) p ≡ ok (xs ++ (replicate p p ++ zs), p)
unfolding pad_with
pad_with-append xs ys zs p pos fits room =
    rw (padding_row-some p pos fits, pad_with)
      (ground (
        arith,
        length-append xs (ys ++ zs),
        length-append ys zs,
        take-append xs (ys ++ zs),
        take-replicate p 16 p fits,
        length-replicate p p,
        drop-append_add p xs (ys ++ zs),
        drop-append ys zs,
      ))

un_padding-append :
    (xs zs : Bytes) (p : ℕ)
    → 0 < p
    → p ≤ 16
    → pkcs7_un_padding (xs ++ (replicate p p ++ zs)) (length xs + p) ≡ ok xs
unfolding pkcs7_un_padding
un_padding-append xs zs p pos fits =
    let last : get_or (xs ++ (replicate p p ++ zs)) (length xs + p - 1) 0 ≡ p =
      rw (let e : length xs + p - 1 ≡ length xs + (p - 1) = omega arith in e) (
        get_or-append (p - 1) xs (replicate p p ++ zs) 0
        ∙ get_or-replicate p (p - 1) p zs 0 (omega arith)) in
    let start : length xs + p - p ≡ length xs = omega arith in
    rw (last, pkcs7_un_padding)
      (ground (
        arith,
        start,
        length-append xs (replicate p p ++ zs),
        length-append (replicate p p) zs,
        length-replicate p p,
        take-append xs (replicate p p ++ zs),
      ))

-- The length of the padding behind so much data.
abbrev pub pad : ℕ → ℕ
pad n = block_size - n % block_size

-- With room for it, the padding brings the data to whole blocks, one at least, and its removal
-- gives the data back, whatever follows in the buffer.
pub un_padding-padding :
    (xs ys zs : Bytes)
    → length ys ≡ pad (length xs)
    → (buf : Bytes) × (pkcs7_padding (xs ++ (ys ++ zs)) (length xs) block_size
        ≡ ok (buf, pad (length xs)))
      × (length buf ≡ length (xs ++ (ys ++ zs)))
      × ((length xs + pad (length xs)) % block_size ≡ 0)
      × (pkcs7_un_padding buf (length xs + pad (length xs)) ≡ ok xs)
unfolding pkcs7_padding
un_padding-padding xs ys zs h = (
  xs ++ (replicate (pad (length xs)) (pad (length xs)) ++ zs),
  pad_with-append xs ys zs (pad (length xs)) (omega arith) (omega arith) h,
  omega (
    arith,
    length-append xs (replicate (pad (length xs)) (pad (length xs)) ++ zs),
    length-append xs (ys ++ zs),
    length-append (replicate (pad (length xs)) (pad (length xs))) zs,
    length-append ys zs,
    length-replicate (pad (length xs)) (pad (length xs)),
    h,
  ),
  omega arith,
  un_padding-append xs zs (pad (length xs)) (omega arith) (omega arith),
)

-- The text that is encrypted: the data and its padding.
plain : Bytes → Bytes
plain xs = xs ++ replicate (pad (length xs)) (pad (length xs))

length-plain : (xs : Bytes) → length (plain xs) ≡ length xs + pad (length xs)
unfolding plain
length-plain xs = omega (
  arith,
  length-append xs (replicate (pad (length xs)) (pad (length xs))),
  length-replicate (pad (length xs)) (pad (length xs)),
)

unplain : (xs zs : Bytes) → pkcs7_un_padding (plain xs ++ zs) (length xs + pad (length xs)) ≡ ok xs
unfolding plain
unplain xs zs =
    rw (append_assoc xs (replicate (pad (length xs)) (pad (length xs))) zs)
      (un_padding-append xs zs (pad (length xs)) (omega arith) (omega arith))

encrypt_padded-ok :
    (c : Cipher) (key : Bytes) (room n p : ℕ) (text rest : Bytes)
    → length text ≡ n + p
    → (n + p) % block_size ≡ 0
    → n + p ≤ room
    → encrypt_padded c key room n (ok (text ++ rest, p)) ≡ ok (c.encrypt key text)
unfolding encrypt_padded
encrypt_padded-ok c key room n p text rest h m r =
    let e : p + n ≡ length text = omega arith in
    let f : take (p + n) (text ++ rest) ≡ text = rw e (take-append text rest) in
    ground (arith, e, length-append text rest, f)

encrypt_bytes-eq :
    (c : Cipher) (key : Bytes) (room : ℕ) (xs ys zs : Bytes)
    → 0 < length key
    → c.accepts key ≡ true
    → length ys ≡ pad (length xs)
    → length xs + pad (length xs) ≤ room
    → encrypt_bytes c key room (xs ++ (ys ++ zs)) (length xs) ≡ ok (c.encrypt key (plain xs))
unfolding encrypt_bytes plain pkcs7_padding
encrypt_bytes-eq c key room xs ys zs hk ha hy hr =
    let padded = pad_with-append xs ys zs (pad (length xs)) (omega arith) (omega arith) hy in
    let whole =
      encrypt_padded-ok c key room (length xs) (pad (length xs)) (plain xs) zs (length-plain xs)
        (omega arith) hr in
    ground
      (arith, padded, whole, append_assoc xs (replicate (pad (length xs)) (pad (length xs))) zs)

decrypt_bytes-eq :
    (c : Cipher) (key out text rest xs : Bytes)
    → 0 < length key
    → c.accepts key ≡ true
    → length text % block_size ≡ 0
    → length text ≤ length out
    → ((after : Bytes) → pkcs7_un_padding (c.decrypt key text ++ after) (length text) ≡ ok xs)
    → decrypt_bytes c key out (text ++ rest) (length text) ≡ ok xs
unfolding decrypt_bytes
decrypt_bytes-eq c key out text rest xs hk ha hm hr hu =
    ground (arith, length-append text rest, take-append text rest, hu (drop (length text) out))

-- What is encrypted in a buffer with room for the padding is decrypted to the data, for every
-- cipher that the key fits: the encrypted text may have more behind it, and the output buffer may
-- hold anything.
pub decrypt_bytes-encrypt_bytes :
    (c : Cipher) (key : Bytes) (room : ℕ) (xs ys zs out rest : Bytes)
    → IsCipher c
    → 0 < length key
    → c.accepts key ≡ true
    → length ys ≡ pad (length xs)
    → length xs + pad (length xs) ≤ room
    → length xs + pad (length xs) ≤ length out
    → (text : Bytes) × (encrypt_bytes c key room (xs ++ (ys ++ zs)) (length xs) ≡ ok text)
      × (length text ≡ length xs + pad (length xs))
      × (decrypt_bytes c key out (text ++ rest) (length text) ≡ ok xs)
decrypt_bytes-encrypt_bytes c key room xs ys zs out rest lawful hk ha hy hr ho = (
  c.encrypt key (plain xs),
  encrypt_bytes-eq c key room xs ys zs hk ha hy hr,
  size,
  decrypt_bytes-eq c key out (c.encrypt key (plain xs)) rest xs hk ha (rw size (omega arith))
      (rw size ho) (λ after. unpad after),
)
  where
    size : length (c.encrypt key (plain xs)) ≡ length xs + pad (length xs)
    size = lawful.keeps_length key (plain xs) ∙ length-plain xs

    back : c.decrypt key (c.encrypt key (plain xs)) ≡ plain xs
    back = lawful.inverse key (plain xs) (rw (length-plain xs) (omega arith))

    unpad :
        (after : Bytes)
        → pkcs7_un_padding
            (c.decrypt key (c.encrypt key (plain xs)) ++ after)
            (length (c.encrypt key (plain xs)))
          ≡ ok xs
    unpad after = rw (back, size) (unplain xs after)
