-- ===== src/ObjectPool.antt =====
-- source/bee/common/objectpool.h: `objectpool`, whose lock is held for the whole of each call. An object is
-- its address, a node its index. What `new T` returns is an argument. `nullptr` for the nodes is the
-- empty list.
pub mod Reuse
mod Tests
use cassobee.Base.{
  ℕ, zero, suc, ◌+◌, ◌-◌, ltb, leb, ◌==◌, ◌&&◌, if◌then◌else◌, Option, none, some, ◌>>=◌, Bool,
  true, false, List, [], ◌∷◌, length, get_elem?, set, sub64,
}

pub record Node : Type 0 where
  pub obj : Option ℕ
  pub next : Option ℕ

pub record Pool : Type 0 where
  pub pool : List Node
  pub free : Option ℕ
  pub size : ℕ
  pub cap : ℕ
  pub obj_map : List (ℕ × ℕ)

abbrev pub empty : Pool
empty = record { pool = []; free = none; size = 0; cap = 0; obj_map = [] }

-- `_obj_map.find` and `erase`.
pub lookup : ℕ → List (ℕ × ℕ) → Option ℕ
lookup obj [] = none
lookup obj ((o, i) ∷ rest) = if o == obj then some i else lookup obj rest

pub forget : ℕ → List (ℕ × ℕ) → List (ℕ × ℕ)
forget obj [] = []
forget obj ((o, i) ∷ rest) =
    let others = forget obj rest in if o == obj then others else (o, i) ∷ others

abbrev pub object_pool_max : ℕ
object_pool_max = 4194304

-- So many nodes from an index on, each with the next one behind it.
pub chain : ℕ → ℕ → List Node
chain zero i = []
chain (suc zero) i = record { obj = none; next = none } ∷ []
chain (suc (suc n)) i = record { obj = none; next = some (i + 1) } ∷ chain (suc n) (i + 1)

abbrev pub is_null : List Node → Bool
is_null [] = true
is_null (node ∷ nodes) = false

-- `none` is a failed assert.
pub init : ℕ → Pool → Option Pool
init capacity p =
    if is_null p.pool
    then (if ltb 0 capacity && leb capacity object_pool_max
        then some (record p { pool = chain capacity 0; free = some 0; size = 0; cap = capacity })
        else none)
    else some p

-- The object of the node that is handed out; a node without one gets it now.
abbrev pub fill_node : ℕ → ℕ → Node → Option ℕ → Pool → (ℕ × ℕ) × Pool
fill_node address i node (some o) p = ((i, o), p)
fill_node address i node none p = (
  (i, address),
  record p {
    pool = set p.pool i (record node { obj = some address });
    obj_map = (address, i) ∷ p.obj_map;
  },
)

-- The node at the head of the free list leaves it.
abbrev pub hand_out : ℕ → ℕ → Pool → Option Node → Option (ℕ × ℕ) × Pool
hand_out address i p none = (none, p)
hand_out address i p (some node) =
    let (given, p') = fill_node address i node node.obj (record p { free = node.next }) in
    (some given, record p' { size = p'.size + 1 })

-- The index and the object; `none` for -1 and `nullptr`. A free list that ends early would be read past
-- its end, which the model answers with `none` too.
pub alloc : ℕ → Pool → Option (ℕ × ℕ) × Pool
alloc address p =
    if is_null p.pool
    then (none, p)
    else if p.size == p.cap
    then (none, p)
    else (elim p.free [ none ↦ (none, p) | some i ↦ hand_out address i p (get_elem? p.pool i) ])

-- The node becomes the head of the free list.
abbrev pub put_back : ℕ → Pool → Option Node → Pool
put_back i p none = p
put_back i p (some node) = record p {
  pool = set p.pool i (record node { next = p.free });
  free = some i;
  size = sub64 p.size 1;
}

abbrev pub free_found : ℕ → Pool → Option ℕ → Pool
free_found obj p none = p
free_found obj p (some i) =
    if ltb i p.cap
    then put_back i (record p { obj_map = forget obj p.obj_map }) (get_elem? p.pool i)
    else p

-- `free(T*)`
pub free_object : ℕ → Pool → Pool
free_object obj p = free_found obj p (lookup obj p.obj_map)

abbrev pub forget_of : Node → Pool → Pool
forget_of node p = elim node.obj [ none ↦ p | some o ↦ record p { obj_map = forget o p.obj_map } ]

-- `free(size_t)`
pub free_index : ℕ → Pool → Pool
free_index i p =
    if ltb i p.cap
    then (elim (get_elem? p.pool i) [
      | none ↦ p
      | some node ↦ put_back i (forget_of node p) (some node)
    ])
    else p

-- At the index `cap`, which passes the test, the program reads behind the nodes; the model has `none`.
pub find_object : ℕ → Pool → Option ℕ
find_object i p = if ltb p.cap i then none else (get_elem? p.pool i >>= λ node. node.obj)

pub find_node : ℕ → Pool → Option Node
find_node i p = if leb p.cap i then none else get_elem? p.pool i

-- The objects that `destroy` deletes: it goes from node to node by `_next`. `none` if it comes to the end
-- of that list, `nullptr`, before it has gone `n` steps.
pub deleted : ℕ → Option ℕ → List Node → Option (List ℕ)
deleted zero at nodes = some []
deleted (suc n) none nodes = none
deleted (suc n) (some i) nodes = get_elem? nodes i >>= λ node.
    deleted n node.next (set nodes i (record node { obj = none })) >>= λ rest.
    some (elim node.obj [ none ↦ rest | some o ↦ o ∷ rest ])

pub destroy : Pool → Option (List ℕ × Pool)
destroy p =
    if is_null p.pool
    then some ([], p)
    else (deleted p.cap (some 0) p.pool >>= λ objects. some (objects, empty))
