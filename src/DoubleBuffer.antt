-- ===== src/DoubleBuffer.antt =====
-- source/bee/thread/double_buffer.h: one_reader_double_buffer, with any number of writers and one reader.
pub mod Delivery
mod Tests
use cassobee.Base.{ℕ, zero, suc, ◌-◌, List, [], ◌∷◌, ◌++◌}

pub record DoubleBuffer {ℓ} (A : Type ℓ) : Type ℓ where
  pub write_idx : ℕ
  pub first : List A
  pub second : List A

-- The array of two buffers, at an index that is zero or one.
abbrev pub buffer_at {ℓ} : {A : Type ℓ} → ℕ → DoubleBuffer A → List A
buffer_at zero d = d.first
buffer_at (suc i) d = d.second

abbrev pub set_buffer {ℓ} : {A : Type ℓ} → ℕ → List A → DoubleBuffer A → DoubleBuffer A
set_buffer zero xs d = record d { first = xs }
set_buffer (suc i) xs d = record d { second = xs }

-- The whole of `write`, which holds the lock.
unfoldable pub write {ℓ} : {A : Type ℓ} → A → DoubleBuffer A → DoubleBuffer A
write value d = set_buffer d.write_idx (buffer_at d.write_idx d ++ (value ∷ [])) d

-- The part of `read` that holds the lock: the index that the reader keeps, and the buffers after it.
unfoldable pub swap {ℓ} : {A : Type ℓ} → DoubleBuffer A → ℕ × DoubleBuffer A
swap d = (d.write_idx, record d { write_idx = 1 - d.write_idx })

-- Where the reader is: outside `read`, before the callback and before the call of clear, with its old_writeidx.
pub data Reader : Type 0 where
  idle : Reader
  swapped : ℕ → Reader
  called : ℕ → Reader

-- The buffers and the reader, with all values that were written and all that callbacks were given.
pub record System {ℓ} (A : Type ℓ) : Type ℓ where
  pub buffers : DoubleBuffer A
  pub reader : Reader
  pub written : List A
  pub delivered : List A

-- What the reader does next. A callback gets the list itself, and `leave` is what it makes of it.
abbrev pub read_from {ℓ} : {A : Type ℓ} → (List A → List A) → Reader → System A → System A
read_from leave idle s = record s {
  buffers = (swap s.buffers).1;
  reader = swapped (swap s.buffers).0;
}
read_from leave (swapped i) s = record s {
  buffers = set_buffer i (leave (buffer_at i s.buffers)) s.buffers;
  reader = called i;
  delivered = s.delivered ++ buffer_at i s.buffers;
}
read_from leave (called i) s = record s { buffers = set_buffer i [] s.buffers; reader = idle }

-- One step: a writer calls `write`, or the reader goes on.
pub data Action {ℓ} (A : Type ℓ) : Type ℓ where
  writes : A → Action A
  reads : Action A

unfoldable pub step {ℓ} : {A : Type ℓ} → (List A → List A) → Action A → System A → System A
step leave (writes value) s = record s {
  buffers = write value s.buffers;
  written = s.written ++ (value ∷ []);
}
step leave reads s = read_from leave s.reader s

unfoldable pub steps {ℓ} : {A : Type ℓ} → (List A → List A) → List (Action A) → System A → System A
steps leave [] s = s
steps leave (a ∷ actions) s = steps leave actions (step leave a s)

abbrev pub initial {ℓ} : {A : Type ℓ} → System A
initial = record {
  buffers = record { write_idx = 0; first = []; second = [] };
  reader = idle;
  written = [];
  delivered = [];
}
