-- ===== src/Floats.antt =====
-- The `double` arithmetic of CuckooGraph/main.cpp that decides when a table is full or thin: the
-- conversions and operations of the processor, and the constants written as decimal fractions.
use cuckoo_graph.Prelude.{ℤ, Bool}

pub record Floats : Type 1 where
  pub Double : Type 0
  pub of_int : ℤ → Double
  pub add : Double → Double → Double
  pub mul : Double → Double → Double
  pub div : Double → Double → Double
  pub lt : Double → Double → Bool
  -- `2`, `0.9` and `0.35`
  pub two : Double
  pub rate : Double
  pub cthres : Double
