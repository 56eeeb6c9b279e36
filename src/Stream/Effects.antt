-- ===== src/Stream/Effects.antt =====
-- What it means that a call of source/bee/common/marshal.h writes certain bytes or reads a value
-- from them, and that sequences of such calls do so too.
use cassobee.Base.{
  ℕ, ◌+◌, ◌^◌, ◌≡◌, ◌≤◌, ◌∙◌, ap, sym, refl, arith, none, some, List, [], ◌++◌, length, drop,
  length-append, length-drop, append_assoc, append-nil, drop-drop, drop-append_add,
}
use cassobee.Octets.{Memory}
use cassobee.Octets.Inv.{IsValid, contents, Outcome, length-contents}
use cassobee.Octets.Append.{append_lem}
use cassobee.Stream.{Stream, M, ◌>>=◌, ◌>>◌, return, proceed, unread, append_data}

-- A step that returns, and one that throws.
pub >>=-some :
    {A B : Type 0} (f : M A) (k : A → M B) (s : Stream) {a : A} {s' : Stream}
    → f s ≡ (some a, s')
    → (f >>= k) s ≡ k a s'
>>=-some f k s e = ap (proceed k) e

pub >>=-none :
    {A B : Type 0} (f : M A) (k : A → M B) (s : Stream) {s' : Stream}
    → f s ≡ (none, s')
    → (f >>= k) s ≡ (none, s')
>>=-none f k s e = ap (proceed k) e

-- The most bytes a buffer may hold: `frob_size` accepts no more.
abbrev pub limit : ℕ
limit = 2 ^ 63

-- The stream before and after `bytes` are written.
pub record Wrote (s s' : Stream) (bytes : List ℕ) : Type 0 where
  pub valid : IsValid s'.content
  pub holds : contents s'.content ≡ contents s.content ++ bytes
  pub pos_kept : s'.pos ≡ s.pos
  pub transpos_kept : s'.transpos ≡ s.transpos

-- The call writes `bytes` behind what the stream holds, and throws nothing, wherever they find room.
abbrev pub Pushes : M (Unit {0}) → List ℕ → Type 0
Pushes call bytes =
    (s : Stream)
    → IsValid s.content
    → s.content.len + length bytes ≤ limit
    → (s' : Stream) × (call s ≡ (some tt, s')) × Wrote s s' bytes

-- The call reads `a` from `bytes`, whatever follows them, and moves the read position behind them.
abbrev pub Pops : {A : Type 0} → M A → List ℕ → A → Type 0
Pops call bytes a =
    (s : Stream) (rest : List ℕ)
    → IsValid s.content
    → s.pos ≤ s.content.len
    → unread s ≡ bytes ++ rest
    → call s ≡ (some a, record s { pos = s.pos + length bytes })

pub len-Wrote :
    {s s' : Stream} (bytes : List ℕ)
    → IsValid s.content
    → Wrote s s' bytes
    → s'.content.len ≡ s.content.len + length bytes
len-Wrote {s} {s'} bytes v w = omega (
  arith,
  length-contents w.valid,
  length-contents v,
  ap (length {A = ℕ}) w.holds,
  length-append (contents s.content) bytes,
)

pub >>-Pushes :
    {f g : M (Unit {0})} (xs ys : List ℕ) → Pushes f xs → Pushes g ys → Pushes (f >> g) (xs ++ ys)
>>-Pushes {f} {g} xs ys hf hg s v low =
    let (s', e, w) = hf s v (omega (arith, length-append xs ys)) in
    let (s'', e', w') = hg s' w.valid (omega (arith, length-append xs ys, len-Wrote xs v w)) in
    (
      s'',
      >>=-some f (λ _. g) s e ∙ e',
      record {
        valid = w'.valid;
        holds = w'.holds ∙ ap (λ l. l ++ ys) w.holds ∙ append_assoc (contents s.content) xs ys;
        pos_kept = w'.pos_kept ∙ w.pos_kept;
        transpos_kept = w'.transpos_kept ∙ w.transpos_kept;
      },
    )

pub append_data-Pushes : (m : Memory) (bytes : List ℕ) → Pushes (append_data m bytes) bytes
unfolding append_data
append_data-Pushes m bytes s v low =
    let r : Outcome _ (contents s.content ++ bytes) s.content.cap = append_lem m v bytes low in
    (
      record s { content = r.after },
      rw (r.returns, append_data),
      record { valid = r.valid; holds = r.holds; pos_kept = refl; transpos_kept = refl },
    )

pub return-Pushes : Pushes (return tt) []
return-Pushes s v low = (
  s,
  refl,
  record {
    valid = v;
    holds = sym (append-nil (contents s.content));
    pos_kept = refl;
    transpos_kept = refl;
  },
)

-- The read position stays inside the bytes.
pub pos_inside :
    (s : Stream) (bytes rest : List ℕ)
    → IsValid s.content
    → s.pos ≤ s.content.len
    → unread s ≡ bytes ++ rest
    → s.pos + length bytes + length rest ≡ s.content.len
pos_inside s bytes rest v at e = omega (
  arith,
  length-contents v,
  ap (length {A = ℕ}) e,
  length-append bytes rest,
  length-drop s.pos (contents s.content),
)

pub unread_after :
    (s : Stream) (bytes rest : List ℕ)
    → unread s ≡ bytes ++ rest
    → drop (s.pos + length bytes) (contents s.content) ≡ rest
unread_after s bytes rest e =
    sym (drop-drop (length bytes) s.pos (contents s.content))
    ∙ ap (λ l. drop (length bytes) l) e
    ∙ ap (λ k. drop k (bytes ++ rest)) (omega arith)
    ∙ drop-append_add bytes rest 0

module _ {A B : Type 0} where
  pub >>=-Pops :
      (f : M A) (k : A → M B) (xs ys : List ℕ) (a : A) (b : B)
      → Pops f xs a
      → Pops (k a) ys b
      → Pops (f >>= k) (xs ++ ys) b
  >>=-Pops f k xs ys a b hf hk s rest v at e =
      let e' : unread s ≡ xs ++ (ys ++ rest) = e ∙ append_assoc xs ys rest in
      let s' : Stream = record s { pos = s.pos + length xs } in
      >>=-some f k s (hf s (ys ++ rest) v at e')
      ∙ hk s' rest v (omega (arith, pos_inside s xs (ys ++ rest) v at e'))
          (unread_after s xs (ys ++ rest) e')
      ∙ ap (λ (p : ℕ). (some b, record s { pos = p })) (omega (arith, length-append xs ys))

  pub map-Pops :
      (f : M A) (g : A → B) (xs : List ℕ) (a : A)
      → Pops f xs a
      → Pops (f >>= λ x. return (g x)) xs (g a)
  map-Pops f g xs a hf s rest v at e = >>=-some f (λ x. return (g x)) s (hf s rest v at e)

pub return-Pops : {A : Type 0} (a : A) → Pops (return a) [] a
return-Pops a s rest v at e = ap (λ (p : ℕ). (some a, record s { pos = p })) (omega arith)
