-- ===== src/Stream/Codecs.antt =====
-- Strings, pairs and containers of source/bee/common/marshal.h as codecs, so that containers nest.
use cassobee.Base.{ℕ, Option, ◌≤◌, List, [], ◌++◌, length}
use cassobee.Octets.{Memory}
use cassobee.Varint.{write_varint}
use cassobee.Stream.{
  pop_string, pop_container, pop_pair, push_string, push_container, push_pair, max_size, Layout,
}
use cassobee.Stream.Effects.{Pushes, Pops, append_data-Pushes, >>-Pushes, >>=-Pops, map-Pops}
use cassobee.Stream.Integers.{Codec, push_compactu64-Pushes}
use cassobee.Stream.Sequences.{pop_string-Pops}
use cassobee.Stream.Containers.{
  pop_container-Pops, push_container-Pushes, container_bytes, ItemsFit, Room,
}

pub push_string-Pushes :
    (m : Memory) (bytes : List ℕ)
    → Pushes (push_string m bytes) (write_varint (length bytes) [] ++ bytes)
unfolding push_string
push_string-Pushes m bytes =
    >>-Pushes (write_varint (length bytes) []) bytes (push_compactu64-Pushes m (length bytes))
      (append_data-Pushes m bytes)

abbrev pub string : Codec (List ℕ)
string = record {
  Fits = λ bytes. length bytes ≤ max_size;
  bytes = λ bytes. write_varint (length bytes) [] ++ bytes;
  push = push_string;
  pop = pop_string;
  pushes = λ m bytes h. push_string-Pushes m bytes;
  pops = pop_string-Pops;
}

module _ {A B : Type 0} (c : Codec A) (d : Codec B) where
  pub push_pair-Pushes :
      (m : Memory) (p : A × B)
      → c.Fits p.0 × d.Fits p.1
      → Pushes (push_pair m (c.push m) (d.push m) p) (c.bytes p.0 ++ d.bytes p.1)
  unfolding push_pair
  push_pair-Pushes m (a, b) (ha, hb) =
      >>-Pushes (c.bytes a) (d.bytes b) (c.pushes m a ha) (d.pushes m b hb)

  pub pop_pair-Pops :
      (p : A × B)
      → c.Fits p.0 × d.Fits p.1
      → Pops (pop_pair c.pop d.pop) (c.bytes p.0 ++ d.bytes p.1) p
  unfolding pop_pair
  pop_pair-Pops (a, b) (ha, hb) =
      >>=-Pops c.pop _ (c.bytes a) (d.bytes b) a (a, b) (c.pops a ha)
        (map-Pops d.pop (λ (y : B). (a, y)) (d.bytes b) b (d.pops b hb))

  -- Two values behind one another, such as an entry of a map.
  abbrev pub pair : Codec (A × B)
  pair = record {
    Fits = λ p. c.Fits p.0 × d.Fits p.1;
    bytes = λ p. c.bytes p.0 ++ d.bytes p.1;
    push = λ m. push_pair m (c.push m) (d.push m);
    pop = pop_pair c.pop d.pop;
    pushes = push_pair-Pushes;
    pops = pop_pair-Pops;
  }

-- A container as a value, so that containers nest.
abbrev pub container : {A : Type 0} → Option ℕ → Layout A → Codec A → Codec (List A)
container limit layout c = record {
  Fits = λ xs. ItemsFit c layout xs × Room c limit (length xs);
  bytes = container_bytes c layout;
  push = λ m. push_container m layout (c.push m);
  pop = pop_container limit layout c.pop;
  pushes = λ m xs h. push_container-Pushes c m layout xs h.0;
  pops = λ xs h. pop_container-Pops c limit layout xs h.0 h.1;
}
