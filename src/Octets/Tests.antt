-- ===== src/Octets/Tests.antt =====
-- Runs of the functions of source/bee/common/octets.h, and examples of their properties.
use cassobee.Base.{◌≡◌, arith, refl, some, [], ◌∷◌, ◌++◌, take, drop}
use cassobee.Octets.{smear, fill_ones, frob_size, reserve, append, insert, replace, erase, create}
use cassobee.Octets.Samples.{zeros, three, three-IsValid}
use cassobee.Octets.Inv.{contents, Outcome}
use cassobee.Octets.Append.{append_lem}
use cassobee.Octets.Insert.{insert_lem}

round_up : frob_size 17 ≡ some 32
unfolding frob_size fill_ones smear
round_up = refl

erase_first : erase three 0 2 ≡ record { buf = 30 ∷ 20 ∷ 30 ∷ 0 ∷ []; len = 1; cap = 4 }
unfolding erase
erase_first = refl

-- A write at position 5 of three bytes passes the ASSERT.
replace_behind :
    replace zeros three 5 (1 ∷ [])
    ≡ some (record {
      buf = 10 ∷ 20 ∷ 30 ∷ 0 ∷ 0 ∷ 1 ∷ 0 ∷ 0 ∷ 0 ∷ 0 ∷ 0 ∷ 0 ∷ 0 ∷ 0 ∷ 0 ∷ 0 ∷ [];
      len = 6;
      cap = 16;
    })
unfolding replace reserve frob_size fill_ones smear create
replace_behind = refl

append_lem_example :
    Outcome (append zeros three (40 ∷ 50 ∷ [])) (contents three ++ (40 ∷ 50 ∷ [])) 4
append_lem_example = append_lem zeros {o = three} three-IsValid (40 ∷ 50 ∷ []) (omega arith)

insert_lem_example :
    Outcome
      (insert zeros three 1 (15 ∷ 16 ∷ []))
      (take 1 (contents three) ++ ((15 ∷ 16 ∷ []) ++ drop 1 (contents three)))
      4
insert_lem_example = insert_lem zeros {o = three} three-IsValid 1 (15 ∷ 16 ∷ []) (omega arith)
