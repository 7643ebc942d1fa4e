-- ===== src/Tests/ChainCalls.antt =====
-- Calls of a chain in an order that mixes them.
use cuckoo_graph.Prelude.{ℕ, ◌≡◌, ◌≢◌, refl, true, false, some, List, [], ◌∷◌, arith, All}
use cuckoo_graph.Cuckoo.{Globals}
use cuckoo_graph.MergeHash
use cuckoo_graph.MergeHash.{MergeHash, query}
use cuckoo_graph.MergeHash.Invariant
use cuckoo_graph.MergeHash.Calls.{
  Call, inserting, deleting, querying, IsProper, play, replies, no_keys, after_calls, play-replies,
  del-insert_chain,
}
use cuckoo_graph.Tests.Inputs.{globals, fractions}
use cuckoo_graph.Tests.Witnesses.{eight_four, fourteen_keys, fourteen_keys-IsValid}

abbrev mixed : List Call
mixed =
    querying 5 ∷ inserting 5 ∷ inserting 7 ∷ querying 5 ∷ deleting 5 ∷ querying 5 ∷ deleting 5 ∷ []

mixed-IsProper : All IsProper mixed
mixed-IsProper = (
  omega arith,
  (omega arith, (omega arith, (omega arith, (omega arith, (omega arith, (omega arith, tt)))))),
)

mixed_answers : replies mixed no_keys ≡ false ∷ true ∷ true ∷ true ∷ true ∷ false ∷ false ∷ []
mixed_answers = refl

play-replies_example :
    (n : MergeHash) × (g' : Globals) × (play fractions mixed (MergeHash.new 8 4 0 221) globals
      ≡ some (replies mixed no_keys, n, g'))
    × MergeHash.Invariant.IsValid n
    × ((k : ℕ) → k ≢ 0 → query k n ≡ after_calls mixed no_keys k)
play-replies_example =
    play-replies fractions refl 8 4 0 221 globals mixed eight_four (omega arith) mixed-IsProper

del-insert_chain_example :
    (n : MergeHash) × (g' : Globals) × (play fractions
        (inserting 15 ∷ deleting 15 ∷ [])
        fourteen_keys
        globals
      ≡ some (true ∷ true ∷ [], n, g'))
    × MergeHash.Invariant.IsValid n
    × (query 15 n ≡ false)
    × ((x : ℕ) → x ≢ 0 → x ≢ 15 → query x n ≡ query x fourteen_keys)
del-insert_chain_example =
    del-insert_chain fractions refl 15 globals fourteen_keys-IsValid (omega arith)
