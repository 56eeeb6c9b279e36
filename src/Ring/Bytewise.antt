-- ===== src/Ring/Bytewise.antt =====
-- utility/ring_buffer.h: copying chunk by chunk is copying byte by byte.
use cassobee.Base.{
  ℕ, zero, suc, ◌+◌, ◌%◌, ◌^◌, ◌≤◌, ◌<◌, ◌≡◌, refl, ap, sym, ◌∙◌, min, arith, List, [], ◌∷◌, ◌++◌,
  length, take, drop, set, length-set, length-take, length-drop, take-append-drop, add64, sub64,
}
use native.Mathlib.Nat.{mod-lt, mod-eq_of_lt}
use cassobee.Octets.{blit}
use cassobee.Octets.Blocks.{length-blit}
use cassobee.Ring.{Ring, write_loop, write_chunk}

-- The block has its size, and the cursors stand in it.
pub record Fits (r : Ring) : Type 0 where
  pub block : length r.cells ≡ r.capacity
  pub small : r.capacity < 2 ^ 64
  pub writes : r.write_cursor < r.capacity
  pub reads : r.read_cursor < r.capacity

-- One byte is written at the cursor, which moves on.
unfoldable pub push_all : List ℕ → Ring → Ring
push_all [] r = r
push_all (x ∷ xs) r = push_all xs (record r {
  cells = set r.cells r.write_cursor x;
  write_cursor = (r.write_cursor + 1) % r.capacity;
})

push_all-append : (xs ys : List ℕ) (r : Ring) → push_all (xs ++ ys) r ≡ push_all ys (push_all xs r)
unfolding push_all
push_all-append [] ys r = refl
push_all-append (x ∷ xs) ys r = push_all-append xs ys (record r {
  cells = set r.cells r.write_cursor x;
  write_cursor = (r.write_cursor + 1) % r.capacity;
})

blit_nil : (cells : List ℕ) (p : ℕ) → blit cells p [] ≡ cells
blit_nil cells p = ap (λ k. take p cells ++ drop k cells) (omega arith) ∙ take-append-drop p cells

blit-suc :
    (c : ℕ) (cells : List ℕ) (p : ℕ) (xs : List ℕ)
    → blit (c ∷ cells) (suc p) xs ≡ c ∷ blit cells p xs
blit-suc c cells p xs = ap (λ k. c ∷ (take p cells ++ (xs ++ drop k (c ∷ cells)))) cut
  where
    cut : suc p + length xs ≡ suc (p + length xs)
    cut = omega arith

-- The first byte of a copy can be written by itself.
blit_cons :
    (cells : List ℕ) (p x : ℕ) (xs : List ℕ)
    → p < length cells
    → blit cells p (x ∷ xs) ≡ blit (set cells p x) (p + 1) xs
blit_cons [] p x xs h = absurd (omega arith)
blit_cons (c ∷ cs) zero x xs h =
    ap (λ k. x ∷ (xs ++ drop k (c ∷ cs))) start ∙ ap (λ k. x ∷ (xs ++ drop k (x ∷ cs))) step
  where
    start : 0 + suc (length xs) ≡ suc (length xs)
    start = omega arith

    step : suc (length xs) ≡ 0 + 1 + length xs
    step = omega arith
blit_cons (c ∷ cs) (suc p) x xs h =
    blit-suc c cs p (x ∷ xs)
    ∙ ap (λ l. c ∷ l) (blit_cons cs p x xs (omega arith))
    ∙ sym (blit-suc c (set cs p x) (p + 1) xs)
    ∙ ap (λ k. blit (c ∷ set cs p x) k xs) next
  where
    next : suc (p + 1) ≡ suc p + 1
    next = omega arith

-- A ring with another block and write cursor.
abbrev pub moved : Ring → List ℕ → ℕ → Ring
moved r cells cursor = record r { cells = cells; write_cursor = cursor }

-- A chunk that ends within the block.
push_all_chunk :
    (xs : List ℕ) (r : Ring) (p : ℕ) (cells : List ℕ)
    → length cells ≡ r.capacity
    → p < r.capacity
    → p + length xs ≤ r.capacity
    → push_all xs (moved r cells p) ≡ moved r (blit cells p xs) ((p + length xs) % r.capacity)
unfolding push_all
push_all_chunk [] r p cells b h k =
    ap (λ l. moved r l p) (sym (blit_nil cells p))
    ∙ ap (λ c. moved r (blit cells p []) c)
        (sym (mod-eq_of_lt h) ∙ ap (λ c. c % r.capacity) (omega arith))
push_all_chunk (x ∷ []) r p cells b h k =
    ap (λ l. moved r l ((p + 1) % r.capacity))
      (sym (blit_nil (set cells p x) (p + 1)) ∙ sym (blit_cons cells p x [] (omega arith)))
push_all_chunk (x ∷ y ∷ ys) r p cells b h k =
    ap (λ c. push_all (y ∷ ys) (moved r (set cells p x) c)) (mod-eq_of_lt (omega arith))
    ∙ push_all_chunk (y ∷ ys) r (p + 1) (set cells p x) (length-set cells p x ∙ b) (omega arith)
        (omega arith)
    ∙ ap (λ l. moved r l ((p + 1 + length (y ∷ ys)) % r.capacity))
        (sym (blit_cons cells p x (y ∷ ys) (omega arith)))
    ∙ ap (λ c. moved r (blit cells p (x ∷ y ∷ ys)) (c % r.capacity)) (omega arith)

-- A chunk keeps the block and the cursors in it.
chunk-Fits :
    (n : ℕ) (src : List ℕ) (r : Ring)
    → Fits r
    → n ≤ length src
    → r.write_cursor + n ≤ r.capacity
    → Fits (write_chunk n src r)
chunk-Fits n src r f h k = record {
  block =
      length-blit r.cells (take n src) r.write_cursor (omega (arith, length-take n src, f.block))
      ∙ f.block;
  small = f.small;
  writes = mod-lt (add64 r.write_cursor n) (omega (arith, f.writes));
  reads = f.reads;
}

write_chunk-push_all :
    (n : ℕ) (src : List ℕ) (r : Ring)
    → Fits r
    → n ≤ length src
    → r.write_cursor + n ≤ r.capacity
    → write_chunk n src r ≡ push_all (take n src) r
write_chunk-push_all n src r f h k =
    ap (λ c. moved r (blit r.cells r.write_cursor (take n src)) (c % r.capacity))
      (omega (arith, length-take n src, f.small))
    ∙ sym (
        push_all_chunk (take n src) r r.write_cursor r.cells f.block f.writes
          (omega (arith, length-take n src)))

-- The loop of `write` writes the bytes one behind the other, with one round for each byte or more.
pub write_loop-push_all :
    (fuel : ℕ) (src : List ℕ) (r : Ring)
    → Fits r
    → length src ≤ fuel
    → write_loop fuel src r ≡ push_all src r
unfolding write_loop push_all
write_loop-push_all zero [] r f h = refl
write_loop-push_all zero (x ∷ xs) r f h = absurd (omega arith)
write_loop-push_all (suc fuel) [] r f h = refl
write_loop-push_all (suc fuel) (x ∷ xs) r f h =
    write_loop-push_all fuel (drop n (x ∷ xs)) (write_chunk n (x ∷ xs) r)
      (chunk-Fits n (x ∷ xs) r f (omega arith) (omega (arith, f.writes, f.small)))
      (omega (arith, length-drop n (x ∷ xs), f.writes, f.small))
    ∙ ap (λ q. push_all (drop n (x ∷ xs)) q)
        (write_chunk-push_all n (x ∷ xs) r f (omega arith) (omega (arith, f.writes, f.small)))
    ∙ sym (push_all-append (take n (x ∷ xs)) (drop n (x ∷ xs)) r)
    ∙ ap (λ l. push_all l r) (take-append-drop n (x ∷ xs))
  where
    n : ℕ
    n = min (sub64 r.capacity r.write_cursor) (length (x ∷ xs))
