-- ===== src/HoleMerge/Squeeze.antt =====
-- The loops of holemerge::compress that move the upper half of a layer into the lower half.
use cuckoo_graph.Prelude.{
  ℕ, suc, ◌+◌, ◌<◌, ◌≤◌, ◌≡◌, ◌∙◌, refl, inl, inr, Bool, false, List, [], ◌∷◌, ◌++◌, ◌==◌, arith,
  length as size, get_or, subst, set, flatten, tally, tally-append, Bool-cases, All,
}
use native.Mathlib.Nat.{add-zero}
use cuckoo_graph.Layer.Placement.{strays}
use cuckoo_graph.Slot.{Slot}
use cuckoo_graph.NodeTable.Row.{Row}
use cuckoo_graph.NodeTable.Layers
use cuckoo_graph.NodeTable.Layers.{Layer}
use cuckoo_graph.NodeTable.Placement
use cuckoo_graph.NodeTable.Placement.{
  on, free, slots, misplaced, set-Changes, RowTakes, row_full, row_took,
}
use cuckoo_graph.HoleMerge.Merge.{fill, squeeze_row, squeeze}
use cuckoo_graph.HoleMerge.Receive.{All-append}

-- What slots moved into a layer, with a queue for those without room, leave.
pub record Moves (P : Slot → Type 0) (moved : List Slot) (s t : Layer × List Slot) : Type 0 where
  pub valid : Placement.IsValid P t.0
  pub stands : All P t.1
  pub live : tally (on free) t.1 ≡ 0
  pub stocked :
      (p : ℕ → Bool)
      → p 0 ≡ false
      → tally (on p) (slots t.0) + tally (on p) t.1
        ≡ tally (on p) (slots s.0) + tally (on p) s.1 + tally (on p) moved
  pub same_length : t.0.length ≡ s.0.length
  pub same_seed : t.0.seed ≡ s.0.seed

module _ {P : Slot → Type 0} where
  fill_cases : (b : Slot) (xs : Row) → P b → All P xs → RowTakes P b xs (fill b xs)
  unfolding fill tally
  fill_cases b [] h a = row_full refl refl
  fill_cases b (x ∷ xs) h a = elim (Bool-cases (x.src == 0)) [
    | inl e ↦
        let none_there : x.src ≡ 0 = ground arith in
        row_took (b ∷ xs) (rw e refl)
          (record { width = refl; tallies = λ p. rw none_there (omega arith); stands = (h, a.1) })
    | inr e ↦ elim (fill_cases b xs h a.1) [
      | row_full run full ↦ row_full (rw (e, run) refl) (ground arith)
      | row_took ys run s ↦ row_took (x ∷ ys) (rw (e, run) refl) (record {
        width = ground (arith, s.width);
        tallies = λ p. omega (arith, s.tallies p);
        stands = (a.0, s.stands);
      })
    ]
  ]

  squeeze_row-Moves :
      (i : ℕ) (bs : Row) (l : Layer) (mq : List Slot)
      → Placement.IsValid P l
      → i < l.length
      → All P mq
      → tally (on free) mq ≡ 0
      → All P bs
      → tally (on (misplaced l i)) bs ≡ 0
      → Moves P bs (l, mq) (squeeze_row i bs (l, mq))
  unfolding squeeze_row tally
  squeeze_row-Moves i [] l mq v lt queued live a fits = record {
    valid = v;
    stands = queued;
    live = live;
    stocked = λ p z. omega arith;
    same_length = refl;
    same_seed = refl;
  }
  squeeze_row-Moves i (b ∷ bs) l mq v lt queued live a fits = elim (Bool-cases (b.src == 0)) [
    | inl e ↦
        let none_there : b.src ≡ 0 = ground arith in
        let rest = squeeze_row-Moves i bs l mq v lt queued live a.1 (ground arith) in
        rw e (record {
          valid = rest.valid;
          stands = rest.stands;
          live = rest.live;
          stocked = λ p z. let r = rest.stocked p z in rw none_there (ground (arith, r));
          same_length = rest.same_length;
          same_seed = rest.same_seed;
        })
    | inr e ↦ elim (fill_cases b (Layers.row i l) a.0 (v.stands i)) [
      | row_full run full ↦
          let queue = λ (p : ℕ → Bool). tally-append (on p) mq (b ∷ []) in
          let rest =
            squeeze_row-Moves i bs l (mq ++ b ∷ []) v lt (All-append P mq (b ∷ []) queued (a.0, tt))
              (ground (arith, queue free)) a.1 (ground arith) in
          rw (e, run)
            (record {
              valid = rest.valid;
              stands = rest.stands;
              live = rest.live;
              stocked = λ p z. omega (arith, rest.stocked p z, queue p);
              same_length = rest.same_length;
              same_seed = rest.same_seed;
            })
      | row_took r run sw ↦
          let ch = set-Changes l i 0 b.src r v lt (ground arith) sw in
          let rest =
            squeeze_row-Moves i bs (record l { layer = set l.layer i r }) mq ch.valid lt queued live
              a.1 (ground arith) in
          rw (e, run)
            (record {
              valid = rest.valid;
              stands = rest.stands;
              live = rest.live;
              stocked = λ p z. ground (arith, rest.stocked p z, ch.tallies p);
              same_length = rest.same_length;
              same_seed = rest.same_seed;
            })
    ]
  ]

  pub squeeze_slots-Moves :
      (seed n i : ℕ) (rs : List Row) (l : Layer) (mq : List Slot)
      → Placement.IsValid P l
      → l.seed ≡ seed
      → l.length ≡ n
      → i + size rs ≤ n
      → All P mq
      → tally (on free) mq ≡ 0
      → ((j : ℕ) → All P (get_or rs j []))
      → ((j : ℕ) → tally (on (strays seed n (i + j))) (get_or rs j []) ≡ 0)
      → Moves P (flatten rs) (l, mq) (squeeze i rs (l, mq))
  unfolding squeeze tally flatten
  squeeze_slots-Moves seed n i [] l mq v es en lt queued live a fits = record {
    valid = v;
    stands = queued;
    live = live;
    stocked = λ p z. omega arith;
    same_length = refl;
    same_seed = refl;
  }
  squeeze_slots-Moves seed n i (r ∷ rs) l mq v es en lt queued live a fits =
      let both = λ (p : ℕ → Bool). tally-append (on p) r (flatten rs) in
      let here : tally (on (misplaced l i)) r ≡ 0 = rw (es, en) (rw add-zero at (fits 0)) in
      let first = squeeze_row-Moves i r l mq v (omega arith) queued live (a 0) here in
      let s = squeeze_row i r (l, mq) in
      let rest =
        squeeze_slots-Moves seed n (suc i) rs s.0 s.1 first.valid (first.same_seed ∙ es)
          (first.same_length ∙ en) (omega arith) first.stands first.live (λ j. a (suc j))
          (λ j.
            subst (λ k. tally (on (strays seed n k)) (get_or rs j []) ≡ 0) (omega arith)
              (fits (suc j))) in
      record {
        valid = rest.valid;
        stands = rest.stands;
        live = rest.live;
        stocked = λ p z. omega (arith, first.stocked p z, rest.stocked p z, both p);
        same_length = rest.same_length ∙ first.same_length;
        same_seed = rest.same_seed ∙ first.same_seed;
      }
