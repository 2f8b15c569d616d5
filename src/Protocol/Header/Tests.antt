-- ===== src/Protocol/Header/Tests.antt =====
-- The properties of the headers and of the frame at concrete values: a heartbeat's header, and a
-- frame with a body of two bytes.
use gateway_lite.Common.{Bytes, [], arith, bytes_eq, drop, nat_eq, some, utf8, ◌++◌, ◌^◌, ◌∷◌, ◌≡◌}
use gateway_lite.Protocol.Header
use gateway_lite.Protocol.Header.RoundTrip

decode_header-encode_header_case :
    Header.decode_header (Header.encode_header 4 0 8 ++ (1 ∷ 2 ∷ []))
    ≡ some (record { data_len = 8; main_type = 4; sub_type = 0 })
decode_header-encode_header_case =
    RoundTrip.decode_header-encode_header 4 0 8 (1 ∷ 2 ∷ []) (omega arith) (omega arith)
      (omega arith)

encode_header-decode_header_case :
    (h : Header.Header) × (Header.decode_header (44 ∷ 1 ∷ 0 ∷ 0 ∷ 2 ∷ 0 ∷ 1 ∷ 2 ∷ 9 ∷ []) ≡ some h)
    × (Header.encode_header h.main_type h.sub_type h.data_len ≡ 44 ∷ 1 ∷ 0 ∷ 0 ∷ 2 ∷ 0 ∷ 1 ∷ 2 ∷ [])
encode_header-decode_header_case =
    RoundTrip.encode_header-decode_header 44 1 0 0 2 0 1 2 (9 ∷ []) (ground arith)

decode_push_header-encode_push_header_case :
    Header.decode_push_header (Header.encode_push_header (record { from = 2 ^ 63; to = 7 }) ++ [])
    ≡ some (record { from = 2 ^ 63; to = 7 })
decode_push_header-encode_push_header_case =
    RoundTrip.decode_push_header-encode_push_header (record { from = 2 ^ 63; to = 7 }) []
      (omega arith) (omega arith)

decode_header-new_message_example :
    (frame : Bytes) × (Header.new_message 6 3 (some (utf8 "{}")) ≡ some frame)
    × (Header.decode_header frame ≡ some (record { data_len = 2; main_type = 6; sub_type = 3 }))
    × (drop 8 frame ≡ utf8 "{}")
decode_header-new_message_example =
    RoundTrip.decode_header-new_message 6 3 (utf8 "{}") (omega arith) (omega arith) (omega arith)
