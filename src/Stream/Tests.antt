-- ===== src/Stream/Tests.antt =====
-- Runs of the calls of source/bee/common/marshal.h, and examples of their properties.
use cassobee.Base.{ℕ, none, List, ◌^◌, ◌≡◌, arith, refl, some, [], ◌∷◌, length}
use cassobee.Varint.Write.{write_varint-small}
use cassobee.Octets.Samples.{zeros, three, three-IsValid}
use cassobee.Stream.{
  Stream, transact, begin, rollback, pop_compactu16, pop_compactu32, pop_compactu64, pop_compact16,
  pop_compact32, pop_compact64, push_compactu16, push_compactu32, push_compactu64, push_compact16,
  push_compact32, push_compact64, push_string, pop_string, push_container, pop_container, Layout,
  one_by_one, block, push_pair, pop_pair,
}
use cassobee.Stream.Integers.{u16}
use cassobee.Stream.Containers.{all_bytes}
use cassobee.Stream.Codecs.{string, pair}
use cassobee.Stream.RoundTrip.{ReadBack, integers_round_trip, container_round_trip}
use cassobee.Stream.Transactions.{begin-rollback, pop_string-Reads}

-- The three bytes, all of them read, and none of them.
abbrev at_end : Stream
at_end = record { content = three; pos = 3; transpos = 0 }

abbrev at_begin : Stream
at_begin = record { content = three; pos = 0; transpos = 0 }

integers_round_trip_example :
    ReadBack (push_compactu16 zeros) pop_compactu16 300 at_end
    × ReadBack (push_compact16 zeros) pop_compact16 300 at_end
    × ReadBack (push_compactu32 zeros) pop_compactu32 70000 at_end
    × ReadBack (push_compact32 zeros) pop_compact32 70000 at_end
    × ReadBack (push_compactu64 zeros) pop_compactu64 (2 ^ 40) at_end
    × ReadBack (push_compact64 zeros) pop_compact64 (2 ^ 40) at_end
integers_round_trip_example =
    integers_round_trip zeros at_end three-IsValid refl 300 70000 (2 ^ 40) (omega arith)
      (omega arith) (omega arith) (omega arith)

entry_bytes : length (all_bytes (pair string u16) (((1 ∷ []), 7) ∷ [])) ≡ 3
entry_bytes = rw (write_varint-small 1 (omega arith), write_varint-small 7 (omega arith)) refl

-- The entries of a map from strings to 16-bit numbers.
container_round_trip_example :
    ReadBack
      (push_container zeros one_by_one
        (push_pair zeros (push_string zeros) (push_compactu16 zeros)))
      (pop_container none one_by_one (pop_pair pop_string pop_compactu16))
      (((1 ∷ []), 7) ∷ [])
      at_end
container_round_trip_example =
    container_round_trip zeros at_end three-IsValid refl (pair string u16) none one_by_one
      (((1 ∷ []), 7) ∷ []) (omega arith) (omega arith) (omega (arith, entry_bytes))

-- A vector of two 16-bit numbers, which is one block of four bytes.
abbrev halves : Layout (List ℕ)
halves = block 2 (λ bytes. bytes) (λ bytes. bytes)

vector_read_back :
    ReadBack
      (push_container zeros halves (string.push zeros))
      (pop_container (some 4611686018427387903) halves string.pop)
      ((1 ∷ 2 ∷ []) ∷ (3 ∷ 4 ∷ []) ∷ [])
      at_end
vector_read_back =
    container_round_trip zeros at_end three-IsValid refl string (some 4611686018427387903) halves
      ((1 ∷ 2 ∷ []) ∷ (3 ∷ 4 ∷ []) ∷ []) (((refl, refl), ((refl, refl), tt)), omega arith)
      (omega arith, omega arith) (omega arith)

begin-rollback_example :
    transact rollback (pop_string (transact begin at_begin).1).1
    ≡ (some tt, record at_begin { transpos = 0 })
begin-rollback_example = begin-rollback pop_string at_begin pop_string-Reads (omega arith)
