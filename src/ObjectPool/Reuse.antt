-- ===== src/ObjectPool/Reuse.antt =====
-- An object that comes out of the pool of source/bee/common/objectpool.h a second time.
use cassobee.Base.{
  ℕ, zero, suc, ◌+◌, ◌-◌, ◌≡◌, ◌≤◌, ◌<◌, ◌∙◌, ap, refl, arith, ltb, ◌==◌, none, some, true, false,
  List, [], ◌∷◌, get_elem?, set, sub64, word, lt→ltb,
}
use cassobee.ObjectPool.{
  Node, Pool, lookup, forget, alloc, free_object, free_index, is_null, hand_out, put_back,
  free_found,
}

get_elem?-set :
    {A : Type 0} (xs : List A) (i : ℕ) (x y : A)
    → get_elem? xs i ≡ some y
    → get_elem? (set xs i x) i ≡ some x
get_elem?-set [] i x y h = cc
get_elem?-set (z ∷ xs) zero x y h = refl
get_elem?-set (z ∷ xs) (suc i) x y h = get_elem?-set xs i x y h

is_null-set :
    (xs : List Node) (i : ℕ) (x y : Node) → get_elem? xs i ≡ some y → is_null (set xs i x) ≡ false
is_null-set [] i x y h = cc
is_null-set (z ∷ xs) zero x y h = refl
is_null-set (z ∷ xs) (suc i) x y h = refl

lookup-forget : (obj : ℕ) (m : List (ℕ × ℕ)) → lookup obj (forget obj m) ≡ none
unfolding lookup forget
lookup-forget obj [] = refl
lookup-forget obj ((o, i) ∷ m) = ground (arith, lookup-forget obj m)

module _ (p : Pool) (obj i : ℕ) (node : Node) (known : lookup obj p.obj_map ≡ some i)
    (there : get_elem? p.pool i ≡ some node) (holds : node.obj ≡ some obj) (inside : i < p.cap)
    (used : 0 < p.size) (fits : p.size ≤ p.cap) (low : p.cap < word) where
  -- The pool once the object is freed.
  abbrev freed : Pool
  freed = record p {
    pool = set p.pool i (record node { next = p.free });
    free = some i;
    size = p.size - 1;
    obj_map = forget obj p.obj_map;
  }

  free_is : free_object obj p ≡ freed
  unfolding free_object
  free_is =
      let ok : ltb i p.cap ≡ true = lt→ltb i p.cap inside in
      let one : sub64 p.size 1 ≡ p.size - 1 = omega arith in
      ap (free_found obj p) known
      ∙ rw ok (
          ap (put_back i (record p { obj_map = forget obj p.obj_map })) there
          ∙ ap (λ (n : ℕ). record freed { size = n }) one)

  -- The node of the object that is handed out again, and the pool then.
  abbrev linked : Node
  linked = record node { next = p.free }

  abbrev reused : Pool
  reused = record freed { free = p.free; size = p.size - 1 + 1 }

  abbrev freed_again : Pool
  freed_again = record reused {
    pool = set reused.pool i linked;
    free = some i;
    size = sub64 (p.size - 1 + 1) 1;
    obj_map = forget obj reused.obj_map;
  }

  there_again : get_elem? reused.pool i ≡ some linked
  there_again = get_elem?-set p.pool i linked node there

  free_index_is : free_index i reused ≡ freed_again
  unfolding free_index
  free_index_is =
      let ok : ltb i p.cap ≡ true = lt→ltb i p.cap inside in rw (ok, there_again, holds) refl

  handed_again : (again : ℕ) → (alloc again (free_index i reused)).0 ≡ some (i, obj)
  unfolding alloc
  handed_again again =
      let here : get_elem? freed_again.pool i ≡ some linked =
        get_elem?-set reused.pool i linked linked there_again in
      let nodes : is_null freed_again.pool ≡ false =
        is_null-set reused.pool i linked linked there_again in
      let room : (freed_again.size == freed_again.cap) ≡ false = ground arith in
      ap (λ q. (alloc again q).0) free_index_is
      ∙ rw (nodes, room) (ap (λ o. (hand_out again i freed_again o).0) here ∙ rw holds refl)

  -- An object that the pool knows is freed, handed out again by the next `alloc`, and then unknown: to free it a second
  -- time by its pointer does nothing. By its index it is freed, and the `alloc` behind that hands it out once more.
  pub alloc-free_object :
      (address again : ℕ)
      → (p' : Pool) × (alloc address (free_object obj p) ≡ (some (i, obj), p'))
        × (free_object obj p' ≡ p')
        × (p'.size ≡ p.size)
        × ((alloc again (free_index i p')).0 ≡ some (i, obj))
  unfolding alloc
  alloc-free_object address again =
      let p' : Pool = record freed { free = p.free; size = p.size - 1 + 1 } in
      let here : get_elem? freed.pool i ≡ some (record node { next = p.free }) =
        get_elem?-set p.pool i (record node { next = p.free }) node there in
      let nodes : is_null freed.pool ≡ false =
        is_null-set p.pool i (record node { next = p.free }) node there in
      let room : (freed.size == freed.cap) ≡ false = ground arith in
      (
        p',
        ap (alloc address) free_is
            ∙ rw (nodes, room) (ap (hand_out address i freed) here ∙ rw holds refl),
        (unfold free_object in ap (free_found obj p') (lookup-forget obj p.obj_map)),
        omega arith,
        handed_again again,
      )
