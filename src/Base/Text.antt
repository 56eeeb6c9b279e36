-- ===== src/Base/Text.antt =====
-- Texts as lists of bytes: cutting at a byte, comparing, and decimal numbers.
use Prim.Native.Nat.{ℕ, ◌+◌, ◌-◌, ◌*◌, ◌/◌, ◌%◌, ◌≤◌, ◌<◌}
use mathlib.Core.Path.{◌≡◌, refl, ap}
use mathlib.Core.Logic.{dite}
use mathlib.Core.Bool.{Bool, true, false, ◌&&◌}
use mathlib.Core.Option.{Option, none, some}
use mathlib.Core.List.{List, [], ◌∷◌, ◌++◌}
use mathlib.Core.WellFounded.{Acc}
use native.Mathlib.Decide.{dec_le}
use native.Mathlib.Omega.{arith}
use cassobee.Base.Tests.{leb, ◌==◌, if◌then◌else◌}
use cassobee.Base.Lists.{All}
use cassobee.Base.Order.{lt_wf}

abbrev pub Bytes : Type 0
Bytes = List ℕ

abbrev pub is_empty {ℓ} : {A : Type ℓ} → List A → Bool
is_empty [] = true
is_empty (x ∷ xs) = false

unfoldable pub equal : Bytes → Bytes → Bool
equal [] [] = true
equal [] (y ∷ ys) = false
equal (x ∷ xs) [] = false
equal (x ∷ xs) (y ∷ ys) = x == y && equal xs ys

abbrev pub found_later : ℕ → Option (Bytes × Bytes) → Option (Bytes × Bytes)
found_later x none = none
found_later x (some (before, after)) = some (x ∷ before, after)

-- `find` of a byte, with the two `substr` before and behind it.
unfoldable pub split : ℕ → Bytes → Option (Bytes × Bytes)
split c [] = none
split c (x ∷ xs) = let later = split c xs in if x == c then some ([], xs) else found_later x later

-- That the byte does not stand in the text.
abbrev pub Lacks : ℕ → Bytes → Type 0
Lacks c xs = All (λ x. (x == c) ≡ false) xs

pub split-found : (c : ℕ) (xs ys : Bytes) → Lacks c xs → split c (xs ++ (c ∷ ys)) ≡ some (xs, ys)
unfolding split
split-found c [] ys h = ground arith
split-found c (x ∷ xs) ys (h, hs) = rw h (ap (found_later x) (split-found c xs ys hs))

pub split-Lacks : (c : ℕ) (xs : Bytes) → Lacks c xs → split c xs ≡ none
unfolding split
split-Lacks c [] h = refl
split-Lacks c (x ∷ xs) (h, hs) = rw h (ap (found_later x) (split-Lacks c xs hs))

pub Lacks-append : (c : ℕ) (xs ys : Bytes) → Lacks c xs → Lacks c ys → Lacks c (xs ++ ys)
Lacks-append c [] ys h k = k
Lacks-append c (x ∷ xs) ys (h, hs) k = (h, Lacks-append c xs ys hs k)

abbrev pub is_digit : ℕ → Bool
is_digit c = leb b'0' c && leb c b'9'

tenth-lt : (n : ℕ) → 10 ≤ n → n / 10 < n
tenth-lt n h = omega arith

-- `std::to_string` of a number that is not negative.
decimal_loop : (n : ℕ) → Acc ◌<◌ n → Bytes → Bytes
decimal_loop n (Acc.intro _ smaller) rest =
    dite (dec_le 10 n)
      (λ more. decimal_loop (n / 10) (smaller (n / 10) (tenth-lt n more)) ((n % 10 + b'0') ∷ rest))
      (λ _. (n + b'0') ∷ rest)

pub decimal : ℕ → Bytes
decimal n = decimal_loop n (lt_wf.apply n) []

-- The digits at the front of a text, as a number behind the one that is read already.
unfoldable pub digits_value : ℕ → Bytes → ℕ
digits_value acc [] = acc
digits_value acc (c ∷ cs) =
    let next = digits_value (acc * 10 + (c - b'0')) cs in if is_digit c then next else acc

more_digits :
    (n : ℕ)
    → 10 ≤ n
    → (rest : Bytes) → digits_value (n / 10) ((n % 10 + b'0') ∷ rest) ≡ digits_value n rest
unfolding digits_value
more_digits n h rest =
    let ok : is_digit (n % 10 + b'0') ≡ true = ground arith in
    rw ok (ap (λ (k : ℕ). digits_value k rest) (omega arith))

digits_value-decimal_loop :
    (n : ℕ) (w : Acc ◌<◌ n) (rest : Bytes)
    → digits_value 0 (decimal_loop n w rest) ≡ digits_value n rest
unfolding decimal_loop digits_value
digits_value-decimal_loop n (Acc.intro _ smaller) rest = grind (
  arith,
  λ (p : n / 10 < n).
      digits_value-decimal_loop (n / 10) (smaller (n / 10) p) ((n % 10 + b'0') ∷ rest),
  λ (h : 10 ≤ n). more_digits n h rest,
)

-- Reading the decimal digits of a number gives the number.
pub digits_value-decimal : (n : ℕ) → digits_value 0 (decimal n) ≡ n
unfolding decimal digits_value
digits_value-decimal n = digits_value-decimal_loop n (lt_wf.apply n) []

decimal_loop-Digits :
    (n : ℕ) (w : Acc ◌<◌ n) (rest : Bytes)
    → All (λ c. is_digit c ≡ true) rest
    → All (λ c. is_digit c ≡ true) (decimal_loop n w rest)
      × (is_empty (decimal_loop n w rest) ≡ false)
unfolding decimal_loop
decimal_loop-Digits n (Acc.intro _ smaller) rest h = grind (
  arith,
  λ (p : n / 10 < n). decimal_loop-Digits (n / 10) (smaller (n / 10) p) ((n % 10 + b'0') ∷ rest),
)

-- A number prints as one digit or more.
pub decimal-Digits :
    (n : ℕ) → All (λ c. is_digit c ≡ true) (decimal n) × (is_empty (decimal n) ≡ false)
unfolding decimal
decimal-Digits n = decimal_loop-Digits n (lt_wf.apply n) [] tt
