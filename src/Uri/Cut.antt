-- ===== src/Uri/Cut.antt =====
-- http/uri.cpp: `find_first_of` and the texts that it does not cut.
use cassobee.Base.{
  All-map, ℕ, ◌≡◌, refl, sym, append_assoc, append-nil, if◌then◌else◌, true, false, [], ◌∷◌, ◌++◌,
  All, ◌==◌, arith,
}
use cassobee.Base.Int.{pos}
use cassobee.Base.Text.{
  Bytes, Lacks, Lacks-append, is_digit, decimal, decimal-Digits, digits_value, digits_value-decimal,
  is_empty, split, split-found, split-Lacks,
}
use cassobee.Uri.{
  Uri, cut_authority, ends_authority, atoi, skip_space, parse_tail, cut_at, signed, query_text,
  fragment_text,
}

-- A text that stands inside an authority.
abbrev pub Inside : Bytes → Type 0
Inside xs = All (λ x. ends_authority x ≡ false) xs

-- What can stand behind an authority.
abbrev pub Ended : Bytes → Type 0
Ended [] = Unit {0}
Ended (c ∷ cs) = ends_authority c ≡ true

-- The first of `/?#` ends the authority.
pub cut_authority-Ended :
    (xs rest : Bytes) → Inside xs → Ended rest → cut_authority (xs ++ rest) ≡ (xs, rest)
unfolding cut_authority
cut_authority-Ended [] [] h k = λ i. ([], [])
cut_authority-Ended [] (c ∷ cs) h k = rw k
cut_authority-Ended (x ∷ xs) rest (h, hs) k = rw (h, cut_authority-Ended xs rest hs k)

digit_is_no_space : (c : ℕ) (cs : Bytes) → is_digit c ≡ true → skip_space (c ∷ cs) ≡ c ∷ cs
unfolding skip_space
digit_is_no_space c cs h = ground arith

-- `atoi` reads the number that `to_string` prints.
pub atoi-decimal : (n : ℕ) → atoi (decimal n) ≡ pos n
unfolding atoi
atoi-decimal n = read (decimal n) (decimal-Digits n) (digits_value-decimal n)
  where
    read :
        (text : Bytes)
        → All (λ c. is_digit c ≡ true) text × (is_empty text ≡ false)
        → digits_value 0 text ≡ n
        → signed (skip_space text) ≡ pos n
    read [] h e = ground arith
    read (c ∷ cs) ((h, hs), k) e = rw (digit_is_no_space c cs h) (ground arith)

pub digits-Lacks :
    (c : ℕ) → is_digit c ≡ false → (xs : Bytes) → All (λ x. is_digit x ≡ true) xs → Lacks c xs
digits-Lacks c h xs k =
    All-map (λ x. is_digit x ≡ true) (λ x. (x == c) ≡ false) (λ x d. ground arith) xs k

pub digits-Inside : (xs : Bytes) → All (λ x. is_digit x ≡ true) xs → Inside xs
digits-Inside xs k =
    All-map (λ x. is_digit x ≡ true) (λ x. ends_authority x ≡ false) (λ x d. ground arith) xs k

cut_marked :
    (c : ℕ) (before after : Bytes)
    → Lacks c before
    → (text : Bytes) → text ≡ before ++ (if is_empty after then [] else c ∷ after)
    → cut_at text (split c text) ≡ (before, after)
cut_marked c before [] h text e = rw (e, append-nil, split-Lacks c before h)
cut_marked c before (x ∷ xs) h text e = rw (e, split-found c before (x ∷ xs) h)

-- The path, the query and the fragment come back.
pub parse_tail-path_text :
    (u v : Uri)
    → Lacks b'?' u.path
    → Lacks b'#' u.path
    → Lacks b'#' u.query
    → parse_tail (u.path ++ (query_text u ++ fragment_text u)) v
      ≡ record v { path = u.path; query = u.query; fragment = u.fragment }
unfolding parse_tail query_text fragment_text
parse_tail-path_text u v h k l = rw (
  cut_marked b'#' (u.path ++ query_text u) u.fragment
      (Lacks-append b'#' u.path (query_text u) k (marked_query u.query l))
      (u.path ++ (query_text u ++ fragment_text u))
      (sym (append_assoc u.path (query_text u) (fragment_text u))),
  cut_marked b'?' u.path u.query h (u.path ++ query_text u) refl,
)
  where
    marked_query : (q : Bytes) → Lacks b'#' q → Lacks b'#' (if is_empty q then [] else b'?' ∷ q)
    marked_query [] m = tt
    marked_query (x ∷ xs) m = (refl, m)
