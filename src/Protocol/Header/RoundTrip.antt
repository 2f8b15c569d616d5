-- ===== src/Protocol/Header/RoundTrip.antt =====
-- Decoding undoes encoding, and encoding undoes decoding.
use gateway_lite.Common.{
  AllBytes, Bytes, [], arith, drop, length, none, refl, some, ℕ, ◌++◌, ◌<◌, ◌^◌, ◌↔◌, ◌∷◌, ◌≡◌,
}
use gateway_lite.Protocol.Header

-- A header in the range of its fields comes back, whatever follows it.
pub decode_header-encode_header :
    (main_type sub_type data_len : ℕ) (rest : Bytes)
    → main_type < 2 ^ 16
    → sub_type < 2 ^ 16
    → data_len < 2 ^ 32
    → Header.decode_header (Header.encode_header main_type sub_type data_len ++ rest)
      ≡ some (record { data_len = data_len; main_type = main_type; sub_type = sub_type })
unfolding Header.decode_header Header.encode_header
decode_header-encode_header main_type sub_type data_len rest hm hs hd = ground arith

-- The other way: eight bytes decode, and their encoding is what stood there.
pub encode_header-decode_header :
    (b0 b1 b2 b3 b4 b5 b6 b7 : ℕ) (rest : Bytes)
    → AllBytes (b0 ∷ b1 ∷ b2 ∷ b3 ∷ b4 ∷ b5 ∷ b6 ∷ b7 ∷ [])
    → (h : Header.Header) × (Header.decode_header (b0 ∷ b1 ∷ b2 ∷ b3 ∷ b4 ∷ b5 ∷ b6 ∷ b7 ∷ rest)
        ≡ some h)
      × (Header.encode_header h.main_type h.sub_type h.data_len
          ≡ b0 ∷ b1 ∷ b2 ∷ b3 ∷ b4 ∷ b5 ∷ b6 ∷ b7 ∷ [])
unfolding Header.decode_header Header.encode_header
encode_header-decode_header b0 b1 b2 b3 b4 b5 b6 b7 rest h = (
  record {
    data_len = Header.le_value (b0 ∷ b1 ∷ b2 ∷ b3 ∷ []);
    main_type = Header.le_value (b4 ∷ b5 ∷ []);
    sub_type = Header.le_value (b6 ∷ b7 ∷ []);
  },
  ground arith,
  ground arith,
)

pub decode_header-eq-none : (bs : Bytes) → (Header.decode_header bs ≡ none) ↔ (length bs < 8)
unfolding Header.decode_header
decode_header-eq-none bs = ground arith

pub decode_push_header-encode_push_header :
    (h : Header.PushHeader) (rest : Bytes)
    → h.from < 2 ^ 64
    → h.to < 2 ^ 64
    → Header.decode_push_header (Header.encode_push_header h ++ rest) ≡ some h
unfolding Header.decode_push_header Header.encode_push_header
decode_push_header-encode_push_header h rest hf ht = ground arith

-- A frame carries its types, the length of its body, and the body.
pub decode_header-new_message :
    (main_type sub_type : ℕ) (body : Bytes)
    → main_type < 2 ^ 16
    → sub_type < 2 ^ 16
    → length body < 2 ^ 32
    → (frame : Bytes) × (Header.new_message main_type sub_type (some body) ≡ some frame)
      × (Header.decode_header frame
          ≡ some (record { data_len = length body; main_type = main_type; sub_type = sub_type }))
      × (drop 8 frame ≡ body)
unfolding Header.new_message
decode_header-new_message main_type sub_type body hm hs hd = (
  Header.encode_header main_type sub_type (length body) ++ body,
  ground (arith),
  decode_header-encode_header main_type sub_type (length body) body hm hs hd,
  unfold Header.encode_header in refl,
)
