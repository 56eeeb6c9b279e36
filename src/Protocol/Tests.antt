-- ===== src/Protocol/Tests.antt =====
-- A protocol whose body is raw bytes, runs of it through source/bee/io/protocol.cpp, and examples of the properties.
use cassobee.Base.{ℕ, ◌+◌, ◌≡◌, arith, refl, sym, none, some, List, [], ◌∷◌, ◌++◌, length}
use cassobee.Octets.Samples.{zeros, three, three-IsValid}
use cassobee.Varint.{write_varint}
use cassobee.Varint.Write.{write_varint-small}
use cassobee.Stream.{Stream, size, append_data, pop_raw, throw}
use cassobee.Stream.Effects.{append_data-Pushes, Wrote}
use cassobee.Stream.Sequences.{pop_raw-Pops}
use cassobee.SessionState.{Status, active, no_reason}
use cassobee.Protocol.{Kind, Protocol, Stubs, get_protocol, init_session, encode, decode}
use cassobee.Protocol.Frame.{frame, encode-frame}
use cassobee.Protocol.Decode.{decode_waits}
use cassobee.Protocol.Framing.{size_whole, decode-frame, decode-encode}

-- The stub says how many bytes a body has.
abbrev ping : Kind (List ℕ)
ping = record {
  get_type = λ b. 7;
  maxsize = λ b. 1024;
  pack = λ m b. append_data m b;
  unpack = λ b. pop_raw (length b);
}

abbrev stub : Protocol (List ℕ)
stub = record { sid = 0; manager = 0; body = 0 ∷ 0 ∷ 0 ∷ [] }

abbrev stubs : Stubs (List ℕ)
stubs = (7, stub) ∷ []

abbrev ses : Status
ses = record { sid = 5; manager = 1; state = active; close_reason = no_reason }

abbrev at_end : Stream
at_end = record { content = three; pos = 3; transpos = 0 }

-- A buffer that holds these bytes and no more, from the first one on.
abbrev holding : List ℕ → Stream
holding bytes = record {
  content = record { buf = bytes; len = length bytes; cap = length bytes };
  pos = 0;
  transpos = 0;
}

registered : get_protocol 7 stubs ≡ some stub
unfolding get_protocol
registered = refl

encode-frame_example :
    Wrote at_end (encode ping zeros (1 ∷ 2 ∷ 3 ∷ []) at_end) (frame 7 (1 ∷ 2 ∷ 3 ∷ []))
encode-frame_example =
    encode-frame ping zeros (1 ∷ 2 ∷ 3 ∷ []) (1 ∷ 2 ∷ 3 ∷ [])
      (append_data-Pushes zeros (1 ∷ 2 ∷ 3 ∷ [])) (omega arith) at_end three-IsValid (omega arith)

decode-encode_example : decode ping stubs (encode ping zeros (1 ∷ 2 ∷ 3 ∷ []) at_end) ses ≡ (
  some (some (record (init_session (some ses) stub) { body = 1 ∷ 2 ∷ 3 ∷ [] })),
  record (encode ping zeros (1 ∷ 2 ∷ 3 ∷ []) at_end) {
    pos = size (encode ping zeros (1 ∷ 2 ∷ 3 ∷ []) at_end);
    transpos = 3;
  },
  ses,
)
decode-encode_example =
    decode-encode ping stubs ses 7 stub (1 ∷ 2 ∷ 3 ∷ []) (1 ∷ 2 ∷ 3 ∷ []) (omega arith) registered
      (omega arith) (pop_raw-Pops (1 ∷ 2 ∷ 3 ∷ [])) zeros at_end
      (append_data-Pushes zeros (1 ∷ 2 ∷ 3 ∷ [])) refl three-IsValid refl (omega arith)

-- The header of a body of three bytes.
header_bytes : (rest : List ℕ) → (write_varint 7 []) ++ (write_varint 3 [] ++ rest) ≡ 7 ∷ 3 ∷ rest
header_bytes rest = rw (write_varint-small 7 (omega arith), write_varint-small 3 (omega arith)) refl

decode_waits_example :
    decode ping stubs (holding (7 ∷ 3 ∷ 1 ∷ [])) ses ≡ (some none, holding (7 ∷ 3 ∷ 1 ∷ []), ses)
decode_waits_example =
    decode_waits ping stubs ses (holding (7 ∷ 3 ∷ 1 ∷ []))
      (record { block = refl; within = omega arith; small = omega arith }) (omega arith) 7 3
      (1 ∷ []) (omega arith) (omega arith) (sym (header_bytes (1 ∷ []))) (omega arith)

-- The same protocol, where `unpack` throws at once.
abbrev refusing : Kind (List ℕ)
refusing = record ping { unpack = λ b. throw }

decode-frame_example : decode ping stubs (holding (7 ∷ 3 ∷ 1 ∷ 2 ∷ 3 ∷ 9 ∷ [])) ses ≡ (
  some (some (record (init_session (some ses) stub) { body = 1 ∷ 2 ∷ 3 ∷ [] })),
  record (holding (7 ∷ 3 ∷ 1 ∷ 2 ∷ 3 ∷ 9 ∷ [])) { pos = 0 + length (frame 7 (1 ∷ 2 ∷ 3 ∷ [])) },
  ses,
)
decode-frame_example =
    decode-frame ping stubs ses 7 stub (1 ∷ 2 ∷ 3 ∷ []) (1 ∷ 2 ∷ 3 ∷ []) (omega arith) registered
      (omega arith) (pop_raw-Pops (1 ∷ 2 ∷ 3 ∷ [])) (holding (7 ∷ 3 ∷ 1 ∷ 2 ∷ 3 ∷ 9 ∷ [])) (9 ∷ [])
      (record { block = refl; within = omega arith; small = omega arith }) (omega arith)
      (rw
        (
          size_whole 3 (omega arith),
          write_varint-small 7 (omega arith),
          write_varint-small 3 (omega arith),
        )
        refl)
