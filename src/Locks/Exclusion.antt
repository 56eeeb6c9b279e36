-- ===== src/Locks/Exclusion.antt =====
-- thread/lock.h: one thread at most is between lock and unlock of a spinlock.
use cassobee.Base.{
  ℕ, ◌+◌, ◌≤◌, ◌≡◌, ◌∙◌, arith, if◌then◌else◌, Bool, true, false, List, [], ◌∷◌, ◌++◌,
}
use cassobee.Locks.{
  Kind, spinlock, atomic_spinlock, Spinner, outside, locking, pausing, trying, inside, spin,
  Spinners, Step, lock, try_lock, access, Reach, here, next,
}

abbrev pub holds : Spinner → ℕ
holds outside = 0
holds locking = 0
holds pausing = 0
holds trying = 0
holds inside = 1

unfoldable pub holders : List Spinner → ℕ
holders [] = 0
holders (t ∷ ts) = holds t + holders ts

holders-append : (xs ys : List Spinner) → holders (xs ++ ys) ≡ holders xs + holders ys
unfolding holders
holders-append [] ys = omega arith
holders-append (x ∷ xs) ys = omega (arith, holders-append xs ys)

-- The flag is set exactly while a thread holds the lock.
abbrev pub Flagged : Spinners → Type 0
Flagged s = holders s.threads ≡ (if s.flag then 1 else 0)

spin_holds :
    (kind : Kind) (flag : Bool) (t : Spinner) (others : ℕ)
    → holds t + others ≡ (if flag then 1 else 0)
    → holds (spin kind flag t).1 + others ≡ (if (spin kind flag t).0 then 1 else 0)
unfolding spin
spin_holds kind flag outside others h = h
spin_holds spinlock true locking others h = h
spin_holds atomic_spinlock true locking others h = h
spin_holds kind false locking others h = omega arith
spin_holds kind true pausing others h = h
spin_holds kind false pausing others h = h
spin_holds kind true trying others h = h
spin_holds kind false trying others h = omega arith
spin_holds kind true inside others h = omega arith
spin_holds kind false inside others h = omega arith

Step-Flagged : (kind : Kind) {s u : Spinners} → Step kind s u → Flagged s → Flagged u
unfolding holders
Step-Flagged kind (lock flag before after) h =
    omega
      (arith, h, holders-append before (outside ∷ after), holders-append before (locking ∷ after))
Step-Flagged kind (try_lock flag before after) h =
    omega
      (arith, h, holders-append before (outside ∷ after), holders-append before (trying ∷ after))
Step-Flagged kind (access flag before after t) h =
    holders-append before ((spin kind flag t).1 ∷ after)
    ∙ omega (
      arith,
      spin_holds kind flag t (holders before + holders after)
          (omega (arith, h, holders-append before (t ∷ after))),
    )

one_holder : (flag : Bool) (n : ℕ) → n ≡ (if flag then 1 else 0) → n ≤ 1
one_holder true n h = omega arith
one_holder false n h = omega arith

Reach-Flagged : (kind : Kind) {s u : Spinners} → Flagged s → Reach kind s u → Flagged u
Reach-Flagged kind h here = h
Reach-Flagged kind h (next r step) = Step-Flagged kind step (Reach-Flagged kind h r)

-- From a state in which the flag is set exactly while one thread holds the lock, every interleaving of lock, try_lock and
-- unlock leads to such a state again, and so to one holder at most.
pub holders_exclusive :
    (kind : Kind) {s u : Spinners}
    → Flagged s
    → Reach kind s u
    → Flagged u × (holders u.threads ≤ 1)
holders_exclusive kind {u = u} h r =
    let flagged = Reach-Flagged kind h r in (flagged, one_holder u.flag (holders u.threads) flagged)
