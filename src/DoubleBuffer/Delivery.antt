-- ===== src/DoubleBuffer/Delivery.antt =====
-- thread/double_buffer.h: what is written reaches the callbacks once and in order.
use cassobee.Base.{
  ℕ, zero, suc, ◌+◌, ◌-◌, ◌≤◌, ◌≡◌, ◌∙◌, refl, sym, ap, arith, List, [], ◌∷◌, ◌++◌, append-nil,
  append_assoc,
}
use cassobee.DoubleBuffer.{
  DoubleBuffer, buffer_at, write, swap, Reader, idle, swapped, called, System, read_from, Action,
  writes, reads, step, steps, initial,
}

-- What callbacks have not been given yet: the reader's buffer before its callback, and the writers' buffer.
abbrev pub unread_by : {A : Type 0} → Reader → DoubleBuffer A → List A
unread_by idle d = buffer_at d.write_idx d
unread_by (swapped i) d = buffer_at i d ++ buffer_at d.write_idx d
unread_by (called i) d = buffer_at d.write_idx d

-- The reader has the buffer that the writers do not write, and between two reads that buffer is empty.
abbrev pub Apart : {A : Type 0} → Reader → DoubleBuffer A → Type 0
Apart idle d = buffer_at (1 - d.write_idx) d ≡ []
Apart (swapped i) d = i + d.write_idx ≡ 1
Apart (called i) d = i + d.write_idx ≡ 1

module _ {A : Type 0} where
  abbrev made : ℕ → List A → List A → DoubleBuffer A
  made w xs ys = record { write_idx = w; first = xs; second = ys }

  write-write_idx : (v : A) (w : ℕ) (xs ys : List A) → (write v (made w xs ys)).write_idx ≡ w
  unfolding write
  write-write_idx v zero xs ys = refl
  write-write_idx v (suc w) xs ys = refl

  write-Apart :
      (v : A) (r : Reader) (w : ℕ) (xs ys : List A)
      → w ≤ 1
      → Apart r (made w xs ys)
      → Apart r (write v (made w xs ys))
  unfolding write
  write-Apart v idle zero xs ys small h = h
  write-Apart v idle (suc zero) xs ys small h = h
  write-Apart v idle (suc (suc w)) xs ys small h = absurd (omega (arith, small))
  write-Apart v (swapped i) zero xs ys small h = h
  write-Apart v (swapped i) (suc w) xs ys small h = h
  write-Apart v (called i) zero xs ys small h = h
  write-Apart v (called i) (suc w) xs ys small h = h

  write-unread_by :
      (v : A) (r : Reader) (w : ℕ) (xs ys : List A)
      → w ≤ 1
      → Apart r (made w xs ys)
      → unread_by r (write v (made w xs ys)) ≡ unread_by r (made w xs ys) ++ (v ∷ [])
  unfolding write
  write-unread_by v idle zero xs ys small h = refl
  write-unread_by v idle (suc w) xs ys small h = refl
  write-unread_by v (swapped zero) zero xs ys small h = absurd (omega (arith, h))
  write-unread_by v (swapped zero) (suc w) xs ys small h = sym (append_assoc xs ys (v ∷ []))
  write-unread_by v (swapped (suc i)) zero xs ys small h = sym (append_assoc ys xs (v ∷ []))
  write-unread_by v (swapped (suc i)) (suc w) xs ys small h = absurd (omega (arith, h))
  write-unread_by v (called i) zero xs ys small h = refl
  write-unread_by v (called i) (suc w) xs ys small h = refl

  abbrev pub Sound : System A → Type 0
  Sound s =
      (s.buffers.write_idx ≤ 1)
      × Apart s.reader s.buffers
      × (s.delivered ++ unread_by s.reader s.buffers ≡ s.written)

  abbrev at_reader : Reader → ℕ → List A → List A → List A → List A → System A
  at_reader r w xs ys all seen = record {
    buffers = made w xs ys;
    reader = r;
    written = all;
    delivered = seen;
  }

  -- After the swap the list that became the writers' is the empty one.
  swap-total :
      (seen all mine other : List A)
      → other ≡ []
      → seen ++ mine ≡ all
      → seen ++ (mine ++ other) ≡ all
  swap-total seen all mine other none_left total =
      ap (λ t. seen ++ (mine ++ t)) none_left ∙ ap (λ t. seen ++ t) (append-nil mine) ∙ total

  read_from-Sound :
      (leave : List A → List A) (r : Reader) (w : ℕ) (xs ys all seen : List A)
      → Sound (at_reader r w xs ys all seen)
      → Sound (read_from leave r (at_reader r w xs ys all seen))
  unfolding swap
  read_from-Sound leave idle zero xs ys all seen (small, h, total) =
      (omega arith, omega arith, swap-total seen all xs ys h total)
  read_from-Sound leave idle (suc zero) xs ys all seen (small, h, total) =
      (omega arith, omega arith, swap-total seen all ys xs h total)
  read_from-Sound leave idle (suc (suc w)) xs ys all seen (small, h, total) =
      absurd (omega (arith, small))
  read_from-Sound leave (swapped zero) zero xs ys all seen (small, h, total) =
      absurd (omega (arith, h))
  read_from-Sound leave (swapped zero) (suc w) xs ys all seen (small, h, total) =
      (small, h, append_assoc seen xs ys ∙ total)
  read_from-Sound leave (swapped (suc i)) zero xs ys all seen (small, h, total) =
      (small, h, append_assoc seen ys xs ∙ total)
  read_from-Sound leave (swapped (suc i)) (suc w) xs ys all seen (small, h, total) =
      absurd (omega (arith, h))
  read_from-Sound leave (called zero) (suc zero) xs ys all seen (small, h, total) =
      (small, refl, total)
  read_from-Sound leave (called (suc zero)) zero xs ys all seen (small, h, total) =
      (small, refl, total)
  read_from-Sound leave (called zero) zero xs ys all seen (small, h, total) =
      absurd (omega (arith, h))
  read_from-Sound leave (called zero) (suc (suc w)) xs ys all seen (small, h, total) =
      absurd (omega (arith, small))
  read_from-Sound leave (called (suc (suc i))) w xs ys all seen (small, h, total) =
      absurd (omega (arith, h))
  read_from-Sound leave (called (suc zero)) (suc w) xs ys all seen (small, h, total) =
      absurd (omega (arith, h))

  step-Sound :
      (leave : List A → List A) (a : Action A) (s : System A) → Sound s → Sound (step leave a s)
  unfolding step write
  step-Sound leave (writes v) s (small, h, total) =
      let d = s.buffers in
      (
        omega (arith, small, write-write_idx v d.write_idx d.first d.second),
        write-Apart v s.reader d.write_idx d.first d.second small h,
        ap (λ t. s.delivered ++ t) (write-unread_by v s.reader d.write_idx d.first d.second small h)
            ∙ sym (append_assoc s.delivered (unread_by s.reader d) (v ∷ []))
            ∙ ap (λ t. t ++ (v ∷ [])) total,
      )
  step-Sound leave reads s h =
      read_from-Sound leave s.reader s.buffers.write_idx s.buffers.first s.buffers.second s.written
        s.delivered h

  steps-Sound :
      (leave : List A → List A) (actions : List (Action A)) (s : System A)
      → Sound s
      → Sound (steps leave actions s)
  unfolding steps
  steps-Sound leave [] s h = h
  steps-Sound leave (a ∷ actions) s h =
      steps-Sound leave actions (step leave a s) (step-Sound leave a s h)

  -- The values that the calls of `write` have, in their order.
  abbrev pub values : List (Action A) → List A
  values [] = []
  values (writes v ∷ actions) = v ∷ values actions
  values (reads ∷ actions) = values actions

  read_from-written :
      (leave : List A → List A) (r : Reader) (s : System A)
      → (read_from leave r s).written ≡ s.written
  read_from-written leave idle s = refl
  read_from-written leave (swapped i) s = refl
  read_from-written leave (called i) s = refl

  steps-written :
      (leave : List A → List A) (actions : List (Action A)) (s : System A)
      → (steps leave actions s).written ≡ s.written ++ values actions
  unfolding steps step
  steps-written leave [] s = sym (append-nil s.written)
  steps-written leave (writes v ∷ actions) s =
      steps-written leave actions (step leave (writes v) s)
      ∙ append_assoc s.written (v ∷ []) (values actions)
  steps-written leave (reads ∷ actions) s =
      steps-written leave actions (step leave reads s)
      ∙ ap (λ t. t ++ values actions) (read_from-written leave s.reader s)

  reads-delivered :
      (leave : List A → List A) (r : Reader) (w : ℕ) (xs ys all seen : List A)
      → r ≡ idle
      → Sound (at_reader r w xs ys all seen)
      → (steps leave (reads ∷ reads ∷ reads ∷ []) (at_reader r w xs ys all seen)).delivered ≡ all
  unfolding steps step swap
  reads-delivered leave idle zero xs ys all seen quiet (small, h, total) = total
  reads-delivered leave idle (suc w) xs ys all seen quiet (small, h, total) = total
  reads-delivered leave (swapped i) w xs ys all seen quiet sound = absurd (ground arith)
  reads-delivered leave (called i) w xs ys all seen quiet sound = absurd (ground arith)

-- However calls of write come between the steps of the reader, and whatever callbacks make of their lists, what the
-- callbacks were given and what is still to be read are together the values written, in their order, and the
-- reader never has the buffer that is written.
pub delivered_in_order :
    {A : Type 0} (leave : List A → List A) (actions : List (Action A))
    → let s = steps leave actions initial in
      (s.delivered ++ unread_by s.reader s.buffers ≡ values actions) × Apart s.reader s.buffers
unfolding steps
delivered_in_order leave actions =
    let sound = steps-Sound leave actions initial (omega arith, refl, refl) in
    (sound.2 ∙ steps-written leave actions initial, sound.1)

-- Where no read is under way, one read that no write interrupts gives the callback all that it was not given yet.
pub read_all :
    {A : Type 0} (leave : List A → List A) (actions : List (Action A))
    → (steps leave actions initial).reader ≡ idle
    → (steps leave (reads ∷ reads ∷ reads ∷ []) (steps leave actions initial)).delivered
      ≡ values actions
unfolding steps step
read_all {A = A} leave actions quiet =
    let s = steps leave actions initial in
    reads-delivered leave s.reader s.buffers.write_idx s.buffers.first s.buffers.second s.written
      s.delivered quiet (steps-Sound leave actions initial (omega arith, refl, refl))
    ∙ steps-written leave actions initial
