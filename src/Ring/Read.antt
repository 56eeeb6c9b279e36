-- ===== src/Ring/Read.antt =====
-- utility/ring_buffer.h: `read` takes from the front of the queue.
use cassobee.Base.{
  ℕ, zero, suc, ◌+◌, ◌-◌, ◌%◌, ◌≤◌, ◌<◌, ◌≡◌, refl, ap, sym, ◌∙◌, min, arith, List, [], ◌∷◌, ◌++◌,
  length, take, drop, get_or, add64, sub64,
}
use native.Mathlib.Nat.{mod-lt, mod-eq_of_lt, mod-add-mod}
use cassobee.Ring.{Ring, read, read_loop}
use cassobee.Ring.Bytewise.{Fits}
use cassobee.Ring.Window.{window, window-add, take-window, drop-window, window-mod}
use cassobee.Ring.Queue.{queue, IsValid}

drop_step :
    (cells : List ℕ) (p n : ℕ)
    → p < length cells
    → take (suc n) (drop p cells) ≡ get_or cells p 0 ∷ take n (drop (p + 1) cells)
drop_step [] p n h = absurd (omega arith)
drop_step (c ∷ cs) zero n h = ap (λ k. c ∷ take n (drop k (c ∷ cs))) next
  where
    next : 1 ≡ 0 + 1
    next = omega arith
drop_step (c ∷ cs) (suc p) n h =
    drop_step cs p n (omega arith) ∙ ap (λ k. get_or cs p 0 ∷ take n (drop k (c ∷ cs))) next
  where
    next : suc (p + 1) ≡ suc p + 1
    next = omega arith

-- A chunk that ends within the block is a part of the window.
chunk-window :
    (cells : List ℕ) (m p n : ℕ)
    → length cells ≡ m
    → p + n ≤ m
    → take n (drop p cells) ≡ window cells m p n
unfolding window
chunk-window cells m p zero b h = refl
chunk-window cells m p (suc n) b h =
    drop_step cells p n (omega arith)
    ∙ ap (λ c. get_or cells c 0 ∷ take n (drop (p + 1) cells)) (sym (mod-eq_of_lt (omega arith)))
    ∙ ap (λ l. get_or cells (p % m) 0 ∷ l) (chunk-window cells m (p + 1) n b (omega arith))

-- A cursor that does not move.
stays : (r : Ring) → Fits r → r.read_cursor ≡ (r.read_cursor + 0) % r.capacity
stays r f = sym (mod-eq_of_lt f.reads) ∙ ap (λ c. c % r.capacity) (omega arith)

-- The loop of `read` gives the bytes of the window, with one round for each byte or more.
read_loop-window :
    (fuel left : ℕ) (r : Ring)
    → Fits r
    → left ≤ fuel
    → read_loop fuel left r ≡ (
      window r.cells r.capacity r.read_cursor left,
      record r { read_cursor = (r.read_cursor + left) % r.capacity },
    )
unfolding read_loop window
read_loop-window zero zero r f h = ap (λ c. ([], record r { read_cursor = c })) (stays r f)
read_loop-window zero (suc left) r f h = absurd (omega arith)
read_loop-window (suc fuel) zero r f h = ap (λ c. ([], record r { read_cursor = c })) (stays r f)
read_loop-window (suc fuel) (suc left) r f h =
    ap (λ q. (take n (drop r.read_cursor r.cells) ++ q.0, q.1))
      (read_loop-window fuel (suc left - n) next moved (omega arith))
    ∙ ap (λ l. (l, record r { read_cursor = (c + (suc left - n)) % r.capacity })) bytes
    ∙ ap (λ k. (window r.cells r.capacity r.read_cursor (suc left), record r { read_cursor = k }))
        cursor
  where
    n : ℕ
    n = min (sub64 r.capacity r.read_cursor) (suc left)

    whole : add64 r.read_cursor n ≡ r.read_cursor + n
    whole = omega (arith, f.small, f.reads)

    some_left : 0 < n
    some_left = omega (arith, f.small, f.reads)

    inside : r.read_cursor + n ≤ r.capacity
    inside = omega (arith, f.small, f.reads)

    total : n + (suc left - n) ≡ suc left
    total = omega arith

    c : ℕ
    c = add64 r.read_cursor n % r.capacity

    next : Ring
    next = record r { read_cursor = c }

    moved : Fits next
    moved = record {
      block = f.block;
      small = f.small;
      writes = f.writes;
      reads = mod-lt (add64 r.read_cursor n) (omega (arith, f.reads));
    }

    bytes :
        take n (drop r.read_cursor r.cells) ++ window r.cells r.capacity c (suc left - n)
        ≡ window r.cells r.capacity r.read_cursor (suc left)
    bytes =
        ap (λ l. l ++ window r.cells r.capacity c (suc left - n))
          (chunk-window r.cells r.capacity r.read_cursor n f.block inside)
        ∙ ap (λ l. window r.cells r.capacity r.read_cursor n ++ l)
            (window-mod r.cells r.capacity (add64 r.read_cursor n) (suc left - n)
              ∙ ap (λ k. window r.cells r.capacity k (suc left - n)) whole)
        ∙ sym (window-add r.cells r.capacity r.read_cursor n (suc left - n))
        ∙ ap (λ k. window r.cells r.capacity r.read_cursor k) total

    cursor : (c + (suc left - n)) % r.capacity ≡ (r.read_cursor + suc left) % r.capacity
    cursor =
        mod-add-mod (add64 r.read_cursor n) r.capacity (suc left - n)
        ∙ ap (λ k. k % r.capacity) (omega (arith, whole))

module _ (wanted : ℕ) (r : Ring) (v : IsValid r) where
  count : ℕ
  count = min r.size wanted

  after : Ring
  after = record r { read_cursor = (r.read_cursor + count) % r.capacity; size = r.size - count }

  read-after : read wanted r ≡ (window r.cells r.capacity r.read_cursor count, after)
  unfolding read count after
  read-after =
      ap (λ q. (q.0, record (q.1) { size = sub64 (q.1).size count }))
        (read_loop-window count count r v.fits (omega arith))
      ∙ ap (λ k. (window r.cells r.capacity r.read_cursor count, record after { size = k }))
          (omega (arith, v.within, v.fits.small))

  after-IsValid : IsValid after
  unfolding after count
  after-IsValid = record {
    fits = record {
      block = v.fits.block;
      small = v.fits.small;
      writes = v.fits.writes;
      reads = mod-lt (r.read_cursor + count) (omega (arith, v.fits.reads));
    };
    within = omega (arith, v.within);
    behind =
        v.behind
        ∙ ap (λ k. k % r.capacity) parts
        ∙ sym (mod-add-mod (r.read_cursor + count) r.capacity (r.size - count));
  }
    where
      parts : r.read_cursor + r.size ≡ r.read_cursor + count + (r.size - count)
      parts = omega arith

  queue-parts : queue r ≡ window r.cells r.capacity r.read_cursor (count + (r.size - count))
  unfolding queue count
  queue-parts = ap (λ k. window r.cells r.capacity r.read_cursor k) (omega arith)

  -- A read from a valid ring gives as many bytes from the front of the queue as are wanted and held,
  -- takes them off the queue, and leaves a valid ring.
  pub queue-read :
      ((read wanted r).0 ≡ take (min r.size wanted) (queue r))
      × IsValid (read wanted r).1
      × (queue (read wanted r).1 ≡ drop (min r.size wanted) (queue r))
  unfolding queue after count
  queue-read = rw read-after (
    sym (
        ap (λ l. take count l) queue-parts
        ∙ take-window r.cells r.capacity r.read_cursor count (r.size - count)),
    after-IsValid,
    window-mod r.cells r.capacity (r.read_cursor + count) (r.size - count)
        ∙ sym (
            ap (λ l. drop count l) queue-parts
            ∙ drop-window r.cells r.capacity r.read_cursor count (r.size - count)),
  )
