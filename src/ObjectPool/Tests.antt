-- ===== src/ObjectPool/Tests.antt =====
-- A pool of two nodes, as an example for source/bee/common/objectpool.h.
use cassobee.Base.{◌≡◌, arith, refl, none, some, [], ◌∷◌}
use cassobee.ObjectPool.{
  Pool, empty, init, chain, alloc, lookup, forget, free_object, free_index, deleted, destroy,
}
use cassobee.ObjectPool.Reuse.{alloc-free_object}

-- The object at the address 500 is in use.
abbrev one_used : Pool
one_used = record {
  pool = record { obj = some 500; next = some 1 } ∷ record { obj = none; next = none } ∷ [];
  free = some 1;
  size = 1;
  cap = 2;
  obj_map = (500, 0) ∷ [];
}

first_alloc :
    init 2 empty
    ≡ some (record { pool = chain 2 0; free = some 0; size = 0; cap = 2; obj_map = [] })
unfolding init
first_alloc = refl

alloc_500 :
    alloc 500 (record { pool = chain 2 0; free = some 0; size = 0; cap = 2; obj_map = [] })
    ≡ (some (0, 500), one_used)
unfolding alloc chain
alloc_500 = refl

-- Both nodes are taken and given back in the order in which they were taken: the walk along `_next` ends
-- at the first node.
abbrev given_back : Pool
given_back = free_index 1 (free_index 0 (alloc 600 one_used).1)

destroy_ends_early : destroy given_back ≡ none
unfolding destroy deleted free_index alloc forget
destroy_ends_early = refl

alloc-free_object_example :
    (p' : Pool) × (alloc 700 (free_object 500 one_used) ≡ (some (0, 500), p'))
    × (free_object 500 p' ≡ p')
    × (p'.size ≡ 1)
    × ((alloc 800 (free_index 0 p')).0 ≡ some (0, 500))
alloc-free_object_example =
    alloc-free_object one_used 500 0 (record { obj = some 500; next = some 1 })
      (unfold lookup in refl) refl refl (omega arith) (omega arith) (omega arith) (omega arith) 700
      800
