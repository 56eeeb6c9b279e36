-- ===== src/Cli/Tables.antt =====
-- cli/command_line.cpp: what is found in a table after a change of it.
use cassobee.Base.Text.{Bytes, equal}
use cassobee.Base.{
  ◌≡◌, ◌∙◌, refl, sym, ap, arith, Bool, true, false, Option, none, some, List, [], ◌∷◌, Bool-cases,
  inl, inr,
}
use cassobee.Cli.{
  Command, find, erase, change, member, remove, insert_alias, erase_alias, erase_each,
}

pub equal_refl : (xs : Bytes) → equal xs xs ≡ true
unfolding equal
equal_refl [] = refl
equal_refl (x ∷ xs) = ground (arith, equal_refl xs)

pub equal_sound : (xs ys : Bytes) → equal xs ys ≡ true → xs ≡ ys
unfolding equal
equal_sound [] [] h = refl
equal_sound [] (y ∷ ys) h = absurd (ground arith)
equal_sound (x ∷ xs) [] h = absurd (ground arith)
equal_sound (x ∷ xs) (y ∷ ys) h = let both = equal_sound xs ys in grind arith

-- Equal names are told apart from the same names.
pub equal_ne : (xs ys zs : Bytes) → equal xs ys ≡ false → equal ys zs ≡ true → equal xs zs ≡ false
equal_ne xs ys zs h k = ap (λ t. equal xs t) (sym (equal_sound ys zs k)) ∙ h

module _ {A : Type 0} where
  pub find-erase_self : (k : Bytes) (m : List (Bytes × A)) → find k (erase k m) ≡ none
  find-erase_self k [] = refl
  find-erase_self k ((j, v) ∷ m) = ground (arith, find-erase_self k m)

  pub find-erase_ne :
      (x k : Bytes) (m : List (Bytes × A)) → equal x k ≡ false → find x (erase k m) ≡ find x m
  find-erase_ne x k [] h = refl
  find-erase_ne x k ((j, v) ∷ m) h = ground (arith, find-erase_ne x k m h, equal_ne x k j h)

-- That there is a command, and that the alias is one of its set.
abbrev pub owns : Bytes → Option Command → Bool
owns a none = false
owns a (some c) = member a c.aliases

pub owns-insert_alias :
    (x n k a : Bytes) (m : List (Bytes × Command))
    → owns x (find n m) ≡ true
    → owns x (find n (change k (insert_alias a) m)) ≡ true
owns-insert_alias x n k a [] h = h
owns-insert_alias x n k a ((j, c) ∷ m) h = ground (arith, owns-insert_alias x n k a m)

pub owns-insert_alias_self :
    (k a : Bytes) (m : List (Bytes × Command)) (c : Command)
    → find k m ≡ some c
    → owns a (find k (change k (insert_alias a) m)) ≡ true
owns-insert_alias_self k a [] c h = absurd (ground arith)
owns-insert_alias_self k a ((j, d) ∷ m) c h =
    ground (arith, owns-insert_alias_self k a m c, equal_refl a)

member-remove :
    (x a : Bytes) (bs : List Bytes)
    → equal x a ≡ false
    → member x bs ≡ true
    → member x (remove a bs) ≡ true
member-remove x a [] ne h = h
member-remove x a (b ∷ bs) ne h = ground (arith, member-remove x a bs ne, equal_ne x a b ne)

pub owns-erase_alias :
    (x n k a : Bytes) (m : List (Bytes × Command))
    → equal x a ≡ false
    → owns x (find n m) ≡ true
    → owns x (find n (change k (erase_alias a) m)) ≡ true
owns-erase_alias x n k a [] ne h = h
owns-erase_alias x n k a ((j, c) ∷ m) ne h =
    ground (arith, owns-erase_alias x n k a m ne, member-remove x a c.aliases ne)

pub some-find-erase :
    {A : Type 0} (x k : Bytes) (m : List (Bytes × A)) (v : A)
    → find x (erase k m) ≡ some v
    → (equal x k ≡ false) × (find x m ≡ some v)
some-find-erase x k m v h = elim (Bool-cases (equal x k)) [
  | inl same ↦
      let gone = ap (λ t. find t (erase k m)) (equal_sound x k same) ∙ find-erase_self k m in
      absurd (ground arith)
  | inr ne ↦ (ne, sym (find-erase_ne x k m ne) ∙ h)
]

pub some-find-erase_each :
    (x : Bytes) (bs : List Bytes) (m : List (Bytes × Bytes)) (v : Bytes)
    → find x (erase_each bs m) ≡ some v
    → (member x bs ≡ false) × (find x m ≡ some v)
some-find-erase_each x [] m v h = (refl, h)
some-find-erase_each x (a ∷ bs) m v h =
    let later = some-find-erase_each x bs (erase a m) v h in
    let one = some-find-erase x a m v later.1 in (ground (arith, one.0, later.0), one.1)

pub find-change :
    (k : Bytes) (f : Command → Command) (m : List (Bytes × Command)) (c : Command)
    → find k m ≡ some c
    → find k (change k f m) ≡ some (f c)
find-change k f [] c h = absurd (ground arith)
find-change k f ((j, d) ∷ m) c h = ground (arith, find-change k f m c)

pub find-change-none :
    (x k : Bytes) (f : Command → Command) (m : List (Bytes × Command))
    → find x m ≡ none
    → find x (change k f m) ≡ none
find-change-none x k f [] h = h
find-change-none x k f ((j, d) ∷ m) h = ground (arith, find-change-none x k f m)
