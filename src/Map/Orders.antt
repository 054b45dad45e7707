-- ===== src/Map/Orders.antt =====
-- The orders of the keys: numbers, and names by their characters.
use libki.Common.{arith, ltb}
use libki.Map.Laws.{IsOrder}
use libki.Map.Names.{name_before, name_before_irrefl, name_before_trans, name_before_total}

pub ltb-IsOrder : IsOrder ltb
ltb-IsOrder = record {
  irrefl = λ a. ground arith;
  trans = λ a b c h k. ground arith;
  total = λ a b h k. ground arith;
}

pub name_before-IsOrder : IsOrder name_before
name_before-IsOrder = record {
  irrefl = name_before_irrefl;
  trans = name_before_trans;
  total = name_before_total;
}
