-- ===== src/Octets.antt =====
-- source/bee/common/octets.h: a growing byte buffer. The block behind `_buf` is the list of all
-- its bytes, the ones past `_len` included; `nullptr` is the empty list. A write past the end of
-- the block would make the list longer, which the invariant excludes. What `new char[n]` holds
-- at first is not known: the allocator is a parameter. `none` stands for an exception or a failed
-- ASSERT.
pub mod Frob
pub mod Blocks
pub mod Inv
pub mod Append
pub mod Edits
pub mod Insert
pub mod Samples
mod Tests
use cassobee.Base.{
  ℕ, zero, suc, ◌+◌, ◌-◌, ◌/◌, ◌^◌, ◌≡◌, ◌≤◌, min, max, bit_or, ltb, leb, ◌==◌, if◌then◌else◌,
  Option, none, some, ◌>>=◌, List, [], ◌∷◌, ◌++◌, length, take, drop, get_elem?, add64, sub64,
}

-- `new char[n]`: a block of n bytes, of any content.
pub record Memory : Type 0 where
  pub fresh : ℕ → List ℕ
  pub length-fresh : (n : ℕ) → length (fresh n) ≡ n

pub record Octets : Type 0 where
  pub buf : List ℕ
  pub len : ℕ
  pub cap : ℕ

-- `n` bytes from `p` on.
abbrev pub bytes_at : List ℕ → ℕ → ℕ → List ℕ
bytes_at buf p n = take n (drop p buf)

-- `memcpy(buf + p, data, length data)`
abbrev pub blit : List ℕ → ℕ → List ℕ → List ℕ
blit buf p bytes = take p buf ++ (bytes ++ drop (p + length bytes) buf)

-- `memmove(buf + p, buf + q, n)`
abbrev pub move_bytes : List ℕ → ℕ → ℕ → ℕ → List ℕ
move_bytes buf p q n = blit buf p (bytes_at buf q n)

-- `n |= n >> 1; …; n |= n >> 32`
pub smear : ℕ → ℕ → ℕ
smear n k = bit_or n (n / 2 ^ k)

pub fill_ones : ℕ → ℕ
fill_ones n = smear (smear (smear (smear (smear (smear n 1) 2) 4) 8) 16) 32

pub frob_size : ℕ → Option ℕ
frob_size n =
    if ltb (2 ^ 63) n
    then none
    else if n == 0
    then some 1
    else let size = add64 (fill_ones (n - 1)) 1 in some (if ltb size 16 then 16 else size)

abbrev pub null : Octets
null = record { buf = []; len = 0; cap = 0 }

unfoldable pub swap : Octets → Octets → Octets × Octets
swap o rhs = (rhs, o)

-- The byte, if `pos` is in range; otherwise `std::out_of_range`.
pub index : Octets → ℕ → Option ℕ
index o pos = if leb o.len pos then none else get_elem? o.buf pos

unfoldable pub free_space : Octets → ℕ
free_space o = sub64 o.cap o.len

unfoldable pub fast_resize : Octets → ℕ → Octets
fast_resize o n = record o { len = add64 o.len n }

unfoldable pub clear : Octets → Octets
clear o = record o { len = 0 }

pub destroy : Octets → Octets
destroy o = null

pub erase : Octets → ℕ → ℕ → Octets
erase o pos n =
    let p = min o.len pos in
    let k = min (o.len - p) n in
    record o { buf = move_bytes o.buf p (p + k) (o.len - p - k); len = o.len - k }

module _ (m : Memory) where
  pub empty : Octets
  empty = record { buf = m.fresh 16; len = 0; cap = 16 }

  -- The first `n` bytes of `src`, in a block of `max n room`.
  pub create : List ℕ → ℕ → ℕ → Octets
  create src n room =
      let cap = max n room in record { buf = blit (m.fresh cap) 0 (take n src); len = n; cap = cap }

  -- The constructors and assignments from a pointer and a length, a string or a view.
  pub of_bytes : List ℕ → ℕ → Octets
  of_bytes src n = create src n n

  -- `octets(const octets&)`, `operator=` and `dup`.
  pub copy : Octets → Octets
  copy o = create o.buf o.len o.cap

  pub copy_prefix : Octets → ℕ → Octets
  copy_prefix o n = create o.buf n n

  pub reserve : Octets → ℕ → Option Octets
  reserve o room =
      if leb room o.cap then some o else (frob_size room >>= λ size. some (create o.buf o.len size))

  pub append : Octets → List ℕ → Option Octets
  append o src =
      if length src == 0
      then some o
      else (reserve o (add64 o.len (length src)) >>= λ r.
          some (record r { buf = blit r.buf r.len src; len = add64 r.len (length src) }))

  -- `append(const char ch)`
  pub append_char : Octets → ℕ → Option Octets
  append_char o ch = reserve o (add64 o.len 1) >>= λ r.
      some (record r { buf = blit r.buf r.len (ch ∷ []); len = add64 r.len 1 })

  pub insert : Octets → ℕ → List ℕ → Option Octets
  insert o pos src =
      let p = min o.len pos in
      reserve o (add64 o.len (length src)) >>= λ r. some (record r {
        buf = blit (move_bytes r.buf (p + length src) p (r.len - p)) p src;
        len = add64 r.len (length src);
      })

  pub replace : Octets → ℕ → List ℕ → Option Octets
  replace o pos src =
      if length src == 0
      then some o
      else if ltb (sub64 o.len pos) (length src)
      then none
      else let n = min (sub64 o.len pos) (length src) in
        (reserve o (add64 pos n) >>= λ r.
        some (record r { buf = blit r.buf pos (take n src); len = max r.len (add64 pos n) }))
