-- ===== src/Tests/Endian.antt =====
-- Tests of the model of thirdpart/libwebsocket/private/Endian.h.
use cppserver.Prelude.{◌≡◌, refl, [], ◌∷◌, some, arith}
use cppserver.Endian.{
  be16_big_endian, be16_little_endian, be32_big_endian, be32_little_endian, shift_left,
}
use cppserver.Endian.Order.{endian_bytes}

endian_bytes_example :
    (be32_big_endian (0xC0 ∷ 0xA8 ∷ 0 ∷ 1 ∷ 7 ∷ []) ≡ some 0xC0A80001)
    × (be32_little_endian (1 ∷ 0 ∷ 0xA8 ∷ 0xC0 ∷ 7 ∷ []) ≡ some 0xC0A80001)
    × (be16_little_endian (0x90 ∷ 0x1F ∷ 7 ∷ []) ≡ some 8080)
endian_bytes_example = endian_bytes 8080 0xC0A80001 (7 ∷ []) (omega arith) (omega arith)

-- Two bytes in the other order are read only where two more follow.
two_more : be16_big_endian (0x1F ∷ 0x90 ∷ 0 ∷ 0 ∷ []) ≡ some 8080
unfolding be16_big_endian shift_left
two_more = refl
