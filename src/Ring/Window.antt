-- ===== src/Ring/Window.antt =====
-- utility/ring_buffer.h: runs of bytes around the end of the block.
use cassobee.Base.{
  ℕ, zero, suc, ◌+◌, ◌-◌, ◌%◌, ◌≤◌, ◌<◌, ◌≡◌, ◌≢◌, ◌⊎◌, inl, inr, refl, ap, sym, ◌∙◌, arith, List,
  [], ◌∷◌, ◌++◌, length, take, drop, set, get_or, take-append_le, drop-append_add, take_all,
  get_or-set_self, get_or-set_ne,
}
use native.Mathlib.Nat.{mod-lt, mod-eq_of_lt, mod-eq-sub-mod, mod-add-mod, mod-mod}
use mathlib.Core.Path.{subst}
use native.Mathlib.Decide.{dec_lt}

module _ (cells : List ℕ) (capacity : ℕ) where
  -- `n` bytes from a position on, around the end of the block.
  unfoldable pub window : ℕ → ℕ → List ℕ
  window start zero = []
  window start (suc n) = get_or cells (start % capacity) 0 ∷ window (start + 1) n

  pub window-add : (start n m : ℕ) → window start (n + m) ≡ window start n ++ window (start + n) m
  unfolding window
  window-add start zero m =
      ap (λ k. window start k) (omega arith) ∙ ap (λ k. window k m) (omega arith)
  window-add start (suc n) m =
      ap (λ k. window start k) next
      ∙ ap (λ l. get_or cells (start % capacity) 0 ∷ l)
          (window-add (start + 1) n m ∙ ap (λ k. window (start + 1) n ++ window k m) (omega arith))
    where
      next : suc n + m ≡ suc (n + m)
      next = omega arith

  pub length-window : (start n : ℕ) → length (window start n) ≡ n
  unfolding window
  length-window start zero = refl
  length-window start (suc n) = ap suc (length-window (start + 1) n)

  pub window_congr : (a b n : ℕ) → a % capacity ≡ b % capacity → window a n ≡ window b n
  unfolding window
  window_congr a b zero h = refl
  window_congr a b (suc n) h =
      ap (λ c. get_or cells c 0 ∷ window (a + 1) n) h
      ∙ ap (λ l. get_or cells (b % capacity) 0 ∷ l) (window_congr (a + 1) (b + 1) n next)
    where
      next : (a + 1) % capacity ≡ (b + 1) % capacity
      next =
          sym (mod-add-mod a capacity 1) ∙ ap (λ c. (c + 1) % capacity) h ∙ mod-add-mod b capacity 1

  pub window-mod : (start n : ℕ) → window (start % capacity) n ≡ window start n
  window-mod start n = window_congr (start % capacity) start n (mod-mod start capacity)

  pub take-window : (start n m : ℕ) → take n (window start (n + m)) ≡ window start n
  take-window start n m =
      ap (λ l. take n l) (window-add start n m)
      ∙ take-append_le n (window start n) (window (start + n) m)
          (omega (arith, length-window start n))
      ∙ take_all n (window start n) (omega (arith, length-window start n))

  pub drop-window : (start n m : ℕ) → drop n (window start (n + m)) ≡ window (start + n) m
  drop-window start n m =
      ap (λ l. drop n l) (window-add start n m)
      ∙ ap (λ k. drop k (window start n ++ window (start + n) m))
          (omega (arith, length-window start n))
      ∙ drop-append_add (window start n) (window (start + n) m) 0

once_around : (n m : ℕ) → n < m + m → (n % m ≡ n) ⊎ (n % m + m ≡ n)
once_around n m h = elim (dec_lt n m) [
  | yes p ↦ inl (mod-eq_of_lt p)
  | no p ↦ inr (
      omega (
        arith,
        mod-eq-sub-mod {n = n} {m = m} (omega arith),
        mod-eq_of_lt {n = n - m} {m = m} (omega arith),
      ))
]

-- Fewer than `m` steps around the ring do not come back.
mod-ne : (m h i j : ℕ) → h < m → i < j → j < m → (h + j) % m ≢ (h + i) % m
mod-ne m h i j p q r e =
    omega (arith, once_around (h + i) m (omega arith), once_around (h + j) m (omega arith))

-- A byte behind a window leaves the window as it is, and extends it.
window-set_behind :
    (cells : List ℕ) (m h j n k x : ℕ)
    → h < m
    → j + n ≤ k
    → k < m
    → window (set cells ((h + k) % m) x) m (h + j) n ≡ window cells m (h + j) n
unfolding window
window-set_behind cells m h j zero k x p q r = refl
window-set_behind cells m h j (suc n) k x p q r =
    ap (λ c. c ∷ window (set cells ((h + k) % m) x) m (h + j + 1) n)
      (get_or-set_ne cells ((h + k) % m) ((h + j) % m) x 0 (mod-ne m h j k p (omega arith) r))
    ∙ ap (λ l. get_or cells ((h + j) % m) 0 ∷ l)
        (subst (λ (s : ℕ). window (set cells ((h + k) % m) x) m s n ≡ window cells m s n) next
          (window-set_behind cells m h (j + 1) n k x p (omega arith) r))
  where
    next : h + (j + 1) ≡ h + j + 1
    next = omega arith

pub window-set :
    (cells : List ℕ) (m h k x : ℕ)
    → length cells ≡ m
    → h < m
    → k < m
    → window (set cells ((h + k) % m) x) m h (k + 1) ≡ window cells m h k ++ (x ∷ [])
unfolding window
window-set cells m h k x b p q =
    window-add (set cells ((h + k) % m) x) m h k 1
    ∙ ap (λ l. l ++ window (set cells ((h + k) % m) x) m (h + k) 1) before
    ∙ ap (λ c. window cells m h k ++ (c ∷ []))
        (get_or-set_self cells ((h + k) % m) x 0
          (omega (arith, mod-lt (h + k) {m = m} (omega arith), b)))
  where
    start : h + 0 ≡ h
    start = omega arith

    before : window (set cells ((h + k) % m) x) m h k ≡ window cells m h k
    before =
        subst (λ (s : ℕ). window (set cells ((h + k) % m) x) m s k ≡ window cells m s k) start
          (window-set_behind cells m h 0 k k x p (omega arith) q)
