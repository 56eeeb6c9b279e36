-- ===== src/Stream/Containers.antt =====
-- The containers of source/bee/common/marshal.h, element by element or as one block.
use cassobee.Base.{
  ℕ, ◌*◌, ◌≡◌, ◌≤◌, ◌<◌, ◌∙◌, ap, sym, arith, Option, none, some, List, [], ◌∷◌, ◌++◌, length, take,
  drop, append-nil, word, All, ltb, false, take-append_le, take_all, length-append, drop-append_add,
  refl,
}
use mathlib.Core.Path.{subst}
use native.Mathlib.Nat.{mod-eq_of_lt}
use cassobee.Octets.{Memory}
use cassobee.Varint.{write_varint}
use cassobee.Stream.{
  ◌>>=◌, return, size, pop_raw, pop_elements, pop_container, pop_items, push_items,
  reserve_elements, total_bytes, cut_elements, in_memory, Layout, one_by_one, block, append_data,
  push_elements, push_container, pop_compactu64,
}
use cassobee.Stream.Effects.{
  Pushes, Pops, append_data-Pushes, map-Pops, >>=-Pops, >>-Pushes, return-Pushes, return-Pops,
}
use cassobee.Stream.Sequences.{pop_raw-Pops}
use cassobee.Stream.Integers.{Codec, push_compactu64-Pushes, pop_compactu64-Pops}

module _ {A : Type 0} (c : Codec A) where
  -- The bytes of the elements, one after the other.
  abbrev pub all_bytes : List A → List ℕ
  all_bytes [] = []
  all_bytes (a ∷ xs) = c.bytes a ++ all_bytes xs

  abbrev pub item_bytes : Layout A → List A → List ℕ
  item_bytes one_by_one xs = all_bytes xs
  item_bytes (block width to of) xs = in_memory to xs

  abbrev pub container_bytes : Layout A → List A → List ℕ
  container_bytes layout xs = write_varint (length xs) [] ++ item_bytes layout xs

  -- The elements fit their codec, or they are the PODs that their bytes stand for.
  abbrev pub ItemsFit : Layout A → List A → Type 0
  ItemsFit one_by_one xs = All c.Fits xs
  ItemsFit (block width to of) xs =
      All (λ a. (length (to a) ≡ width) × (of (to a) ≡ a)) xs × (length xs * width < word)

  -- The number of elements is one that reserve allows.
  abbrev pub Room : Option ℕ → ℕ → Type 0
  Room none n = n < word
  Room (some limit) n = (n ≤ limit) × (n < word)

  pub Room-word : (limit : Option ℕ) (n : ℕ) → Room limit n → n < word
  Room-word none n h = h
  Room-word (some l) n h = h.1

  pop_elements-Pops :
      (xs : List A) → All c.Fits xs → Pops (pop_elements c.pop (length xs)) (all_bytes xs) xs
  unfolding pop_elements
  pop_elements-Pops [] h = return-Pops []
  pop_elements-Pops (a ∷ xs) (ha, hs) =
      >>=-Pops c.pop _ (c.bytes a) (all_bytes xs) a (a ∷ xs) (c.pops a ha) (
        subst
          (λ (bs : List ℕ).
            Pops (pop_elements c.pop (length xs) >>= λ rest. return (a ∷ rest)) bs (a ∷ xs))
          (append-nil (all_bytes xs))
          (>>=-Pops (pop_elements c.pop (length xs)) _ (all_bytes xs) [] xs (a ∷ xs)
            (pop_elements-Pops xs hs) (return-Pops (a ∷ xs))))

  reserve_elements-Pops :
      (limit : Option ℕ) (n : ℕ) → Room limit n → Pops (reserve_elements limit n) [] tt
  unfolding reserve_elements
  reserve_elements-Pops none n h = return-Pops tt
  reserve_elements-Pops (some l) n h =
      let small : ltb l n ≡ false = ground (arith, h.0) in rw small (return-Pops tt)

  length-in_memory :
      (width : ℕ) (to : A → List ℕ) (of : List ℕ → A) (xs : List A)
      → All (λ a. (length (to a) ≡ width) × (of (to a) ≡ a)) xs
      → length (in_memory to xs) ≡ length xs * width
  length-in_memory width to of [] h = omega arith
  length-in_memory width to of (a ∷ xs) (ha, hs) =
      omega
        (arith, length-append (to a) (in_memory to xs), ha.0, length-in_memory width to of xs hs)

  cut_elements-in_memory :
      (width : ℕ) (to : A → List ℕ) (of : List ℕ → A) (xs : List A)
      → All (λ a. (length (to a) ≡ width) × (of (to a) ≡ a)) xs
      → cut_elements of width (length xs) (in_memory to xs) ≡ xs
  cut_elements-in_memory width to of [] h = refl
  cut_elements-in_memory width to of (a ∷ xs) ((size, same), hs) =
      let front : take width (to a ++ in_memory to xs) ≡ to a =
        take-append_le width (to a) (in_memory to xs) (omega (arith, size))
        ∙ take_all width (to a) (omega (arith, size)) in
      let back : drop width (to a ++ in_memory to xs) ≡ in_memory to xs =
        ap (λ n. drop n (to a ++ in_memory to xs)) (omega (arith, size))
        ∙ drop-append_add (to a) (in_memory to xs) 0 in
      rw (front, back, same) (ap (λ l. a ∷ l) (cut_elements-in_memory width to of xs hs))

  -- The block is as long as the product says.
  whole :
      (width : ℕ) (to : A → List ℕ) (of : List ℕ → A) (xs : List A)
      → ItemsFit (block width to of) xs
      → total_bytes (length xs) width ≡ length (in_memory to xs)
  whole width to of xs (h, low) = mod-eq_of_lt low ∙ sym (length-in_memory width to of xs h)

  pop_items-Pops :
      (layout : Layout A) (xs : List A)
      → ItemsFit layout xs
      → Pops (pop_items layout c.pop (length xs)) (item_bytes layout xs) xs
  unfolding pop_items
  pop_items-Pops one_by_one xs h = pop_elements-Pops xs h
  pop_items-Pops (block width to of) xs h =
      subst
        (λ r.
          Pops
            (pop_raw (total_bytes (length xs) width) >>= λ bytes.
              return (cut_elements of width (length xs) bytes))
            (in_memory to xs) r)
        (cut_elements-in_memory width to of xs h.0)
        (map-Pops (pop_raw (total_bytes (length xs) width)) (cut_elements of width (length xs))
          (in_memory to xs) (in_memory to xs)
          (subst (λ n. Pops (pop_raw n) (in_memory to xs) (in_memory to xs))
            (sym (whole width to of xs h)) (pop_raw-Pops (in_memory to xs))))

  pub pop_container-Pops :
      (limit : Option ℕ) (layout : Layout A) (xs : List A)
      → ItemsFit layout xs
      → Room limit (length xs)
      → Pops (pop_container limit layout c.pop) (container_bytes layout xs) xs
  unfolding pop_container
  pop_container-Pops limit layout xs h low =
      >>=-Pops pop_compactu64 _ (write_varint (length xs) []) (item_bytes layout xs) (length xs) xs
        (pop_compactu64-Pops (length xs) (Room-word limit (length xs) low))
        (>>=-Pops (reserve_elements limit (length xs)) _ [] (item_bytes layout xs) tt xs
          (reserve_elements-Pops limit (length xs) low) (pop_items-Pops layout xs h))

  push_elements-Pushes :
      (m : Memory) (xs : List A)
      → All c.Fits xs
      → Pushes (push_elements m (c.push m) xs) (all_bytes xs)
  unfolding push_elements
  push_elements-Pushes m [] h = return-Pushes
  push_elements-Pushes m (a ∷ xs) (ha, hs) =
      >>-Pushes (c.bytes a) (all_bytes xs) (c.pushes m a ha) (push_elements-Pushes m xs hs)

  push_items-Pushes :
      (m : Memory) (layout : Layout A) (xs : List A)
      → ItemsFit layout xs
      → Pushes (push_items m layout (c.push m) xs) (item_bytes layout xs)
  unfolding push_items
  push_items-Pushes m one_by_one xs h = push_elements-Pushes m xs h
  push_items-Pushes m (block width to of) xs h =
      subst (λ bytes. Pushes (append_data m bytes) (in_memory to xs))
        (sym (take_all _ (in_memory to xs) (omega (arith, whole width to of xs h))))
        (append_data-Pushes m (in_memory to xs))

  pub push_container-Pushes :
      (m : Memory) (layout : Layout A) (xs : List A)
      → ItemsFit layout xs
      → Pushes (push_container m layout (c.push m) xs) (container_bytes layout xs)
  unfolding push_container
  push_container-Pushes m layout xs h =
      >>-Pushes (write_varint (length xs) []) (item_bytes layout xs)
        (push_compactu64-Pushes m (length xs)) (push_items-Pushes m layout xs h)
