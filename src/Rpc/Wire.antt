-- ===== src/Rpc/Wire.antt =====
-- io/rpc.cpp: an rpc goes over the wire and comes back with its roles exchanged.
use cassobee.Base.{
  ℕ, ◌≡◌, ◌<◌, refl, sym, Bool, true, false, Option, none, some, List, [], ◌∷◌, ◌++◌, word, not,
}
use cassobee.Octets.{Memory}
use cassobee.Varint.{write_varint}
use mathlib.Core.Path.{subst}
use cassobee.Stream.{Stream, ◌>>=◌, return, pop_byte, pop_compactu64}
use cassobee.Stream.Effects.{Pushes, Pops, append_data-Pushes, >>-Pushes, >>=-Pops, map-Pops}
use cassobee.Stream.Integers.{Codec, push_compactu64-Pushes, pop_compactu64-Pops}
use cassobee.Stream.Sequences.{pop_byte-Pops}
use cassobee.Rpc.{Rpc, DataKind, pack, unpack, unpack_data, dup, flag}

-- A class of rpcdata whose `unpack` reads what its `pack` writes.
abbrev pub kind : {Data : Type 0} → Codec Data → DataKind Data
kind c = record { pack = c.push; unpack = c.pop }

module _ {Data : Type 0} (arguments results : Codec Data) where
  -- What the receiver of an rpc makes of its own object: the rpc's result at the caller, its argument at the server.
  abbrev pub received : Rpc Data → ℕ → Bool → Data → Rpc Data
  received stub id true d = record stub {
    traceid = id;
    is_server = false;
    argument = none;
    result = some d;
  }
  received stub id false d = record stub { traceid = id; is_server = true; argument = some d }

  -- The pointers of the receiver's object that unpack copies from are not null.
  abbrev pub Usable : Rpc Data → Bool → Type 0
  Usable stub true = (e : Data) × (stub.result ≡ some e)
  Usable stub false =
      ((e : Data) × (stub.argument ≡ some e)) × ((e : Data) × (stub.result ≡ some e))

  abbrev pub sent_data : Rpc Data → Bool → Option Data
  sent_data r true = r.result
  sent_data r false = r.argument

  abbrev pub codec : Bool → Codec Data
  codec true = results
  codec false = arguments

  wire : Rpc Data → Data → List ℕ
  wire r d = write_varint r.traceid [] ++ (flag r.is_server ++ (codec r.is_server).bytes d)

  pack-Pushes :
      (m : Memory) (r : Rpc Data) (server : Bool) (d : Data)
      → r.is_server ≡ server
      → sent_data r server ≡ some d
      → (codec server).Fits d
      → Pushes
          (pack (kind arguments) (kind results) m r)
          (write_varint r.traceid [] ++ (flag server ++ (codec server).bytes d))
  unfolding pack
  pack-Pushes m r true d e f fits =
      rw (e, f)
        (>>-Pushes (write_varint r.traceid []) (1 ∷ results.bytes d)
          (push_compactu64-Pushes m r.traceid)
          (>>-Pushes (1 ∷ []) (results.bytes d) (append_data-Pushes m (1 ∷ []))
            (results.pushes m d fits)))
  pack-Pushes m r false d e f fits =
      rw (e, f)
        (>>-Pushes (write_varint r.traceid []) (0 ∷ arguments.bytes d)
          (push_compactu64-Pushes m r.traceid)
          (>>-Pushes (0 ∷ []) (arguments.bytes d) (append_data-Pushes m (0 ∷ []))
            (arguments.pushes m d fits)))

  abbrev served : Rpc Data → ℕ → Data → Option Data → Rpc Data
  served stub id d result = record stub {
    traceid = id;
    is_server = true;
    argument = some d;
    result = result;
  }

  -- What unpack reads behind the role.
  unpack_data-Pops :
      (stub : Rpc Data) (id : ℕ) (server : Bool) (d : Data)
      → Usable stub server
      → (codec server).Fits d
      → Pops
          (unpack_data (kind arguments) (kind results) stub id (not server))
          ((codec server).bytes d)
          (received stub id server d)
  unpack_data-Pops stub id true d (e, there) fits = rw there (
      map-Pops results.pop (λ x. received stub id true x) (results.bytes d) d (results.pops d fits))
  unpack_data-Pops stub id false d ((a, argued), (e, there)) fits = rw argued (
      subst
        (λ (o : Option Data).
          Pops (arguments.pop >>= λ x. dup o >>= λ copy. return (served stub id x (some copy)))
            (arguments.bytes d) (served stub id d o))
        (sym there)
        (map-Pops arguments.pop (λ x. served stub id x (some e)) (arguments.bytes d) d
          (arguments.pops d fits)))

  unpack-Pops :
      (stub : Rpc Data) (id : ℕ) (server : Bool) (d : Data)
      → Usable stub server
      → id < word
      → (codec server).Fits d
      → Pops
          (unpack (kind arguments) (kind results) stub)
          (write_varint id [] ++ (flag server ++ (codec server).bytes d))
          (received stub id server d)
  unfolding unpack
  unpack-Pops stub id true d usable b fits =
      >>=-Pops pop_compactu64 _ (write_varint id []) (1 ∷ results.bytes d) id
        (received stub id true d) (pop_compactu64-Pops id b)
        (>>=-Pops pop_byte _ (1 ∷ []) (results.bytes d) (1 ∷ []) (received stub id true d)
          (pop_byte-Pops 1) (unpack_data-Pops stub id true d usable fits))
  unpack-Pops stub id false d usable b fits =
      >>=-Pops pop_compactu64 _ (write_varint id []) (0 ∷ arguments.bytes d) id
        (received stub id false d) (pop_compactu64-Pops id b)
        (>>=-Pops pop_byte _ (0 ∷ []) (arguments.bytes d) (0 ∷ []) (received stub id false d)
          (pop_byte-Pops 0) (unpack_data-Pops stub id false d usable fits))

  -- If an rpc has the data that its role sends, which fit their codec, and a trace id below 2 ^ 64, then pack writes bytes
  -- from which unpack reads the same trace id, the other role, and the data in their place, whatever follows them; a
  -- result comes with no argument. The receiver's object has a result, and an argument if it is the server.
  pub unpack-pack :
      (m : Memory) (r stub : Rpc Data) (d : Data)
      → r.traceid < word
      → sent_data r r.is_server ≡ some d
      → (codec r.is_server).Fits d
      → Usable stub r.is_server
      → (bytes : List ℕ) × Pushes (pack (kind arguments) (kind results) m r) bytes
        × Pops
            (unpack (kind arguments) (kind results) stub)
            bytes
            (received stub r.traceid r.is_server d)
  unpack-pack m r stub d b e fits usable = (
    write_varint r.traceid [] ++ (flag r.is_server ++ (codec r.is_server).bytes d),
    pack-Pushes m r r.is_server d refl e fits,
    unpack-Pops stub r.traceid r.is_server d usable b fits,
  )

  -- A receiver without a result faults, whatever stands in the stream behind the role.
  pub unpack_data-null :
      (stub : Rpc Data) (id : ℕ) (d : Data) (s : Stream)
      → stub.result ≡ none
      → unpack_data (kind arguments) (kind results) stub id false s ≡ (none, s)
  unpack_data-null stub id d s gone = rw gone refl
