-- ===== src/Varint/Tests.antt =====
-- Runs of the functions of source/bee/common/varint.h, and examples of their properties.
use cassobee.Base.{◌≡◌, arith, refl, none, some, [], ◌∷◌, ◌++◌}
use cassobee.Varint.{
  encode_zigzag, decode_zigzag, write_varint, read_varint, read_loop, bit_length, countl_zero,
  get_compact_int_size,
}
use cassobee.Varint.ZigZag.{zigzag_inverse}
use cassobee.Varint.Read.{read_varint-write_varint}

encode_minus_three : encode_zigzag 16 65533 ≡ 5
unfolding encode_zigzag
encode_minus_three = refl

read_three_hundred : read_varint (0xac ∷ 0x02 ∷ 9 ∷ []) ≡ (some (9 ∷ []), 300)
unfolding read_varint read_loop
read_three_hundred = refl

read_cut : read_varint (0xac ∷ []) ≡ (none, 44)
unfolding read_varint read_loop
read_cut = refl

size_of_16384 : get_compact_int_size 64 16384 ≡ 2
unfolding get_compact_int_size bit_length countl_zero
size_of_16384 = refl

-- Of a type of 32 bits the zeros are counted in 32 bits, but taken from 64.
size_of_one_at_32 : get_compact_int_size 32 1 ≡ 5
unfolding get_compact_int_size bit_length countl_zero
size_of_one_at_32 = refl

zigzag_inverse_example :
    (decode_zigzag 16 (encode_zigzag 16 65533) ≡ 65533)
    × (encode_zigzag 16 (decode_zigzag 16 65533) ≡ 65533)
zigzag_inverse_example = zigzag_inverse 15 65533 (omega arith)

read_varint-write_varint_example :
    read_varint (write_varint 300 [] ++ (9 ∷ [])) ≡ (some (9 ∷ []), 300)
read_varint-write_varint_example = read_varint-write_varint 300 (9 ∷ []) (omega arith)
