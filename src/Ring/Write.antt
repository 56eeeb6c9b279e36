-- ===== src/Ring/Write.antt =====
-- utility/ring_buffer.h: `write` adds at the end of the queue.
use cassobee.Base.{
  ℕ, ◌+◌, ◌-◌, ◌%◌, ◌≤◌, ◌<◌, ◌≡◌, refl, ap, sym, ◌∙◌, min, arith, List, [], ◌∷◌, ◌++◌, length,
  take, set, append_assoc, append-nil, length-set, length-take, add64,
}
use native.Mathlib.Nat.{mod-lt, mod-add-mod}
use cassobee.Ring.{Ring, write, free_space}
use cassobee.Ring.Bytewise.{push_all, write_loop-push_all}
use cassobee.Ring.Window.{window, window-set}
use cassobee.Ring.Queue.{queue, IsValid}

-- What pushing bytes behind `k` held ones gives.
record Pushed (r r' : Ring) (k : ℕ) (xs : List ℕ) : Type 0 where
  same_capacity : r'.capacity ≡ r.capacity
  same_read : r'.read_cursor ≡ r.read_cursor
  same_size : r'.size ≡ r.size
  block : length r'.cells ≡ r.capacity
  moved : r'.write_cursor ≡ (r.read_cursor + (k + length xs)) % r.capacity
  bytes :
      window r'.cells r.capacity r.read_cursor (k + length xs)
      ≡ window r.cells r.capacity r.read_cursor k ++ xs

push_all_lem :
    (xs : List ℕ) (r : Ring) (k : ℕ)
    → length r.cells ≡ r.capacity
    → r.read_cursor < r.capacity
    → r.write_cursor ≡ (r.read_cursor + k) % r.capacity
    → k + length xs ≤ r.capacity
    → Pushed r (push_all xs r) k xs
unfolding push_all
push_all_lem [] r k b h w q = record {
  same_capacity = refl;
  same_read = refl;
  same_size = refl;
  block = b;
  moved = w ∙ ap (λ c. (r.read_cursor + c) % r.capacity) (omega arith);
  bytes =
      ap (λ c. window r.cells r.capacity r.read_cursor c) (omega arith)
      ∙ sym (append-nil (window r.cells r.capacity r.read_cursor k));
}
push_all_lem (x ∷ xs) r k b h w q =
    let rest =
      push_all_lem xs next (k + 1) (length-set r.cells r.write_cursor x ∙ b) h cursor
        (omega arith) in
    record {
      same_capacity = rest.same_capacity;
      same_read = rest.same_read;
      same_size = rest.same_size;
      block = rest.block;
      moved = rest.moved ∙ ap (λ c. (r.read_cursor + c) % r.capacity) count;
      bytes =
          ap (λ c. window (push_all xs next).cells r.capacity r.read_cursor c) (sym count)
          ∙ rest.bytes
          ∙ ap (λ l. l ++ xs)
              (ap (λ p. window (set r.cells p x) r.capacity r.read_cursor (k + 1)) w
                ∙ window-set r.cells r.capacity r.read_cursor k x b h (omega arith))
          ∙ append_assoc (window r.cells r.capacity r.read_cursor k) (x ∷ []) xs;
    }
  where
    next : Ring
    next = record r {
      cells = set r.cells r.write_cursor x;
      write_cursor = (r.write_cursor + 1) % r.capacity;
    }

    count : k + 1 + length xs ≡ k + length (x ∷ xs)
    count = omega arith

    cursor : next.write_cursor ≡ (r.read_cursor + (k + 1)) % r.capacity
    cursor =
        ap (λ c. (c + 1) % r.capacity) w
        ∙ mod-add-mod (r.read_cursor + k) r.capacity 1
        ∙ ap (λ c. c % r.capacity) (omega arith)

module _ (src : List ℕ) (r : Ring) (v : IsValid r) where
  room : ℕ
  room = min (free_space r) (length src)

  room_lem : room ≡ min (r.capacity - r.size) (length src)
  unfolding room free_space
  room_lem = omega (arith, v.within, v.fits.small)

  after : Ring
  after = push_all (take room src) r

  after-Pushed : Pushed r after r.size (take room src)
  unfolding after
  after-Pushed =
      push_all_lem (take room src) r r.size v.fits.block v.fits.reads v.behind
        (omega (arith, room_lem, length-take room src, v.within))

  count_lem : length (take room src) ≡ room
  count_lem = omega (arith, room_lem, length-take room src)

  total : ℕ
  total = r.size + room

  size_lem : add64 after.size room ≡ total
  unfolding total
  size_lem = omega (arith, room_lem, v.within, v.fits.small, after-Pushed.same_size)

  write-after : write src r ≡ (room, record after { size = total })
  unfolding write room after
  write-after =
      ap (λ q. (room, record q { size = add64 q.size room }))
        (write_loop-push_all room (take room src) r v.fits (omega (arith, count_lem)))
      ∙ ap (λ k. (room, record after { size = k })) size_lem

  after-IsValid : IsValid (record after { size = total })
  unfolding total
  after-IsValid = record {
    fits = record {
      block = after-Pushed.block ∙ sym after-Pushed.same_capacity;
      small = omega (arith, after-Pushed.same_capacity, v.fits.small);
      writes = omega (
        arith,
        after-Pushed.same_capacity,
        after-Pushed.moved,
        v.fits.reads,
        mod-lt (r.read_cursor + (r.size + length (take room src))) {m = r.capacity},
      );
      reads = omega (arith, after-Pushed.same_capacity, after-Pushed.same_read, v.fits.reads);
    };
    within = omega (arith, room_lem, v.within, after-Pushed.same_capacity);
    behind =
        after-Pushed.moved
        ∙ ap (λ k. (r.read_cursor + (r.size + k)) % r.capacity) count_lem
        ∙ ap (λ c. (c + (r.size + room)) % r.capacity) (sym after-Pushed.same_read)
        ∙ ap (λ m. (after.read_cursor + (r.size + room)) % m) (sym after-Pushed.same_capacity);
  }

  queue-after : queue (record after { size = total }) ≡ queue r ++ take room src
  unfolding queue total
  queue-after =
      ap (λ m. window after.cells m after.read_cursor (r.size + room)) after-Pushed.same_capacity
      ∙ ap (λ c. window after.cells r.capacity c (r.size + room)) after-Pushed.same_read
      ∙ ap (λ k. window after.cells r.capacity r.read_cursor (r.size + k)) (sym count_lem)
      ∙ after-Pushed.bytes

  -- A write to a valid ring takes as many of the bytes as fit, at the end of the queue, and leaves a
  -- valid ring.
  pub queue-write :
      ((write src r).0 ≡ min (r.capacity - r.size) (length src))
      × IsValid (write src r).1
      × (queue (write src r).1 ≡ queue r ++ take (write src r).0 src)
  queue-write = rw write-after (room_lem, after-IsValid, queue-after)
