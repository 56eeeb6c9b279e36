-- ===== src/Stream/Transactions.antt =====
-- Reading under a transaction, and shrinking, in source/bee/common/marshal.h.
use cassobee.Base.{
  ℕ, zero, suc, ◌^◌, ◌≡◌, ◌≤◌, ◌∙◌, ap, refl, arith, none, some, Option, List, [], ◌∷◌, ltb,
  Bool-cases, inl, inr, drop, ◌%◌, false, All,
}
use cassobee.Octets
use cassobee.Octets.{Memory}
use cassobee.Octets.Inv.{IsValid, contents}
use cassobee.Octets.Edits.{erase_lem}
use cassobee.Varint.{IsByte, read_varint}
use cassobee.Varint.Read.{behind_last, read_varint-behind_last}
use cassobee.Stream.Effects.{>>=-none}
use cassobee.Stream.{
  Stream, M, ◌>>=◌, return, proceed, unread, size, try_shrink, transact, begin, rollback,
  after_varint, pop_compact, pop_raw, pop_compactu32, pop_compactu64, pop_string, pop_elements,
  pop_container, pop_items, reserve_bytes, reserve_elements, total_bytes, cut_elements, Layout,
  one_by_one, block,
}

-- A call that moves the read position at most, whether it returns or throws.
abbrev pub Reads : {A : Type 0} → M A → Type 0
Reads f = (s : Stream) → ((f s).1.content ≡ s.content) × ((f s).1.transpos ≡ s.transpos)

pub >>=-Reads :
    {A B : Type 0} (f : M A) (k : A → M B) → Reads f → ((a : A) → Reads (k a)) → Reads (f >>= k)
>>=-Reads {A} {B} f k hf hk s = go (f s) (hf s)
  where
    go :
        (r : Option A × Stream)
        → (r.1.content ≡ s.content) × (r.1.transpos ≡ s.transpos)
        → ((proceed k r).1.content ≡ s.content) × ((proceed k r).1.transpos ≡ s.transpos)
    go (none, s') h = h
    go (some a, s') (hc, ht) = ((hk a s').0 ∙ hc, (hk a s').1 ∙ ht)

pub return-Reads : {A : Type 0} (a : A) → Reads (return a)
return-Reads a s = (refl, refl)

pub pop_compact-Reads : Reads pop_compact
unfolding pop_compact
pop_compact-Reads s = go (read_varint (unread s))
  where
    go :
        (r : Option (List ℕ) × ℕ)
        → ((after_varint s r).1.content ≡ s.content) × ((after_varint s r).1.transpos ≡ s.transpos)
    go (none, v) = (refl, refl)
    go (some rest, v) = (refl, refl)

pub pop_raw-Reads : (n : ℕ) → Reads (pop_raw n)
unfolding pop_raw
pop_raw-Reads n s = ground arith

pub pop_compactu64-Reads : Reads pop_compactu64
unfolding pop_compactu64
pop_compactu64-Reads = pop_compact-Reads

pub pop_compactu32-Reads : Reads pop_compactu32
unfolding pop_compactu32
pop_compactu32-Reads = >>=-Reads pop_compact _ pop_compact-Reads (λ a. return-Reads (a % 2 ^ 32))

pub pop_string-Reads : Reads pop_string
unfolding pop_string
pop_string-Reads = >>=-Reads pop_compactu64 _ pop_compactu64-Reads (λ n.
    >>=-Reads (reserve_bytes n) _ (unfold reserve_bytes in λ s. ground arith)
      (λ u. pop_raw-Reads n))

pub pop_elements-Reads : {A : Type 0} (f : M A) (n : ℕ) → Reads f → Reads (pop_elements f n)
unfolding pop_elements
pop_elements-Reads {A} f zero h = return-Reads {A = List A} []
pop_elements-Reads f (suc n) h =
    >>=-Reads f _ h
      (λ a. >>=-Reads (pop_elements f n) _ (pop_elements-Reads f n h) (λ xs. return-Reads (a ∷ xs)))

pop_items-Reads :
    {A : Type 0} (layout : Layout A) (f : M A) (n : ℕ) → Reads f → Reads (pop_items layout f n)
unfolding pop_items
pop_items-Reads one_by_one f n h = pop_elements-Reads f n h
pop_items-Reads {A = A} (block width to of) f n h =
    >>=-Reads (pop_raw (total_bytes n width)) _ (pop_raw-Reads (total_bytes n width))
      (λ bytes. return-Reads {A = List A} (cut_elements of width n bytes))

reserve_elements-Reads : (limit : Option ℕ) (n : ℕ) → Reads (reserve_elements limit n)
unfolding reserve_elements
reserve_elements-Reads none n = return-Reads tt
reserve_elements-Reads (some l) n = λ s. ground arith

pub pop_container-Reads :
    {A : Type 0} (limit : Option ℕ) (layout : Layout A) (f : M A)
    → Reads f
    → Reads (pop_container limit layout f)
unfolding pop_container
pop_container-Reads limit layout f h = >>=-Reads pop_compactu64 _ pop_compactu64-Reads (λ n.
    >>=-Reads (reserve_elements limit n) _ (reserve_elements-Reads limit n)
      (λ u. pop_items-Reads layout f n h))

pub rollback_to :
    (t s : Stream)
    → t.content ≡ s.content
    → t.transpos ≡ s.pos
    → s.pos ≤ size s
    → transact rollback t ≡ (some tt, record s { transpos = s.pos })
unfolding transact
rollback_to t s ec et at =
    let inside : ltb (size t) t.transpos ≡ false =
      ground (arith, ap (λ (o : Octets.Octets). o.len) ec) in
    rw inside (cc)

-- From a read position inside the bytes: whatever was read after BEGIN, returned or thrown,
-- without a change of the bytes or of the position to roll back to, ROLLBACK takes the read
-- position back to where it stood at BEGIN, and changes nothing else.
pub begin-rollback :
    {A : Type 0} (f : M A) (s : Stream)
    → Reads f
    → s.pos ≤ size s
    → transact rollback (f (transact begin s).1).1 ≡ (some tt, record s { transpos = s.pos })
unfolding transact
begin-rollback f s h at =
    let s' : Stream = record s { transpos = s.pos } in rollback_to (f s').1 s (h s').0 (h s').1 at

-- `try_shrink` keeps every byte that is not read, leaves a valid buffer, and ends with a read
-- position of at most 2 ^ 20, if the read position is inside the bytes.
pub try_shrink-unread :
    (s : Stream)
    → IsValid s.content
    → s.pos ≤ size s
    → (unread (try_shrink s) ≡ unread s)
      × IsValid (try_shrink s).content
      × ((try_shrink s).pos ≤ 0x100000)
unfolding try_shrink
try_shrink-unread s v at = elim (Bool-cases (ltb 0x100000 s.pos)) [
  | inl large ↦
      let (valid, kept) = erase_lem v 0 s.pos in
      rw large (kept ∙ ap (λ k. drop k (contents s.content)) (omega arith), valid, omega arith)
  | inr small ↦ rw small (refl, v, ground arith)
]

-- A number that does not end in the bytes that are left cannot be read.
pub pop_compact-none :
    (s : Stream)
    → All IsByte (unread s)
    → behind_last 10 (unread s) ≡ none
    → pop_compact s ≡ (none, s)
unfolding pop_compact
pop_compact-none s bytes e =
    go (read_varint (unread s)) ((read_varint-behind_last (unread s) bytes).0 ∙ e)
  where
    go : (r : Option (List ℕ) × ℕ) → r.0 ≡ none → after_varint s r ≡ (none, s)
    go (none, value) h = refl
    go (some rest, value) h = cc

pub pop_compactu32-none : (s : Stream) → pop_compact s ≡ (none, s) → pop_compactu32 s ≡ (none, s)
unfolding pop_compactu32
pop_compactu32-none s e = >>=-none pop_compact _ s e

pub pop_compactu64-none : (s : Stream) → pop_compact s ≡ (none, s) → pop_compactu64 s ≡ (none, s)
unfolding pop_compactu64
pop_compactu64-none s e = e

pub try_shrink_small : (s : Stream) → s.pos ≤ 0x100000 → try_shrink s ≡ s
unfolding try_shrink
try_shrink_small s low = ground arith
