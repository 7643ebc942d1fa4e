-- ===== src/HoleMerge/Receive.antt =====
-- Slots put into a bCuckoo one after another, with those that it turns out kept in a list.
use cuckoo_graph.Prelude.{
  ℕ, ◌+◌, ◌≡◌, ◌∙◌, refl, inl, inr, Bool-cases, to_nat, Bool, false, List, [], ◌∷◌, ◌++◌, arith,
  tally, tally-append, All,
}
use cuckoo_graph.Slot.{Slot}
use cuckoo_graph.NodeTable.Kicks.{Outcome}
use cuckoo_graph.NodeTable.Placement.{on, free, IsTidy}
use cuckoo_graph.NodeTable.Conserve.{IsSound, Takes, total, insert_slot-Takes}
use cuckoo_graph.HoleMerge.Offer.{Stage, staged, offer, offer_all}

pub All-append : (P : Slot → Type 0) (xs ys : List Slot) → All P xs → All P ys → All P (xs ++ ys)
All-append P [] ys a b = b
All-append P (x ∷ xs) ys a b = (a.0, All-append P xs ys a.1 b)

-- How many slots of the table and of the list have a source that passes the test.
abbrev pub stock : (ℕ → Bool) → Stage → ℕ
stock p s = total p s.table + tally (on p) s.left

-- All slots of the stage satisfy `P`, and those of the list are not free.
pub record Stocked (P : Slot → Type 0) (s : Stage) : Type 0 where
  pub sound : IsSound P s.table
  pub stands : All P s.left
  pub live : tally (on free) s.left ≡ 0

-- What a stage that received slots, counted by `moved`, has become: none is lost or doubled.
pub record Receives (P : Slot → Type 0) (moved : (ℕ → Bool) → ℕ) (s t : Stage) : Type 0 where
  pub kept : Stocked P t
  pub stocked : (p : ℕ → Bool) → p 0 ≡ false → stock p t ≡ stock p s + moved p
  pub len1 : t.table.len1 ≡ s.table.len1
  pub len2 : t.table.len2 ≡ s.table.len2
  pub seed1 : t.table.seed1 ≡ s.table.seed1
  pub seed2 : t.table.seed2 ≡ s.table.seed2
  pub listed : t.store.world.sblacklist ≡ s.store.world.sblacklist

-- `blacklist.push_back(holekick)` where the insertion failed.
pub staged-Receives :
    {P : Slot → Type 0} {s : ℕ} {r : Outcome} (st : Stage)
    → Stocked P st
    → Takes P s st.table st.store r
    → Receives P (λ p. to_nat (p s)) st (staged st.left r)
unfolding staged tally
staged-Receives {P} {s} {r} st k t = elim (Bool-cases r.done) [
  | inl e ↦ record {
    kept = record { sound = t.sound; stands = rw e k.stands; live = rw e k.live };
    stocked = λ p z. let c = t.tallies p z in rw e (ground (arith, c));
    len1 = t.len1;
    len2 = t.len2;
    seed1 = t.seed1;
    seed2 = t.seed2;
    listed = t.listed;
  }
  | inr e ↦
      let (stands, nonzero) = t.left_over e in
      let queue = λ (p : ℕ → Bool). tally-append (on p) st.left (r.store.holekick ∷ []) in
      record {
        kept = record {
          sound = t.sound;
          stands = rw e (All-append P st.left (r.store.holekick ∷ []) k.stands (stands, tt));
          live = rw e (ground (arith, queue free, k.live));
        };
        stocked = λ p z. let c = t.tallies p z in rw e (ground (arith, c, queue p));
        len1 = t.len1;
        len2 = t.len2;
        seed1 = t.seed1;
        seed2 = t.seed2;
        listed = t.listed;
      }
]

Receives-trans :
    {P : Slot → Type 0} {a b : (ℕ → Bool) → ℕ} (c : (ℕ → Bool) → ℕ) {s t u : Stage}
    → Receives P a s t
    → Receives P b t u
    → ((p : ℕ → Bool) → p 0 ≡ false → c p ≡ a p + b p)
    → Receives P c s u
Receives-trans c f g sum = record {
  kept = g.kept;
  stocked = λ p z. omega (arith, f.stocked p z, g.stocked p z, sum p z);
  len1 = g.len1 ∙ f.len1;
  len2 = g.len2 ∙ f.len2;
  seed1 = g.seed1 ∙ f.seed1;
  seed2 = g.seed2 ∙ f.seed2;
  listed = g.listed ∙ f.listed;
}

module _ {P : Slot → Type 0} (tidy : (b : Slot) → P b → IsTidy b) where
  -- A sound table that receives the slots of a list, none of them free, becomes a sound table of the
  -- same shape, and the table and the list behind it hold what they held before and these slots.
  pub offer_all_slots-Receives :
      (bs : List Slot) (s : Stage)
      → Stocked P s
      → All P bs
      → tally (on free) bs ≡ 0
      → Receives P (λ p. tally (on p) bs) s (offer_all bs s)
  unfolding offer_all offer tally
  offer_all_slots-Receives [] s k a live = record {
    kept = k;
    stocked = λ p z. omega arith;
    len1 = refl;
    len2 = refl;
    seed1 = refl;
    seed2 = refl;
    listed = refl;
  }
  offer_all_slots-Receives (b ∷ bs) s k a live =
      let t = insert_slot-Takes tidy b s.store k.sound a.0 (ground arith) in
      let first = staged-Receives s k t in
      let rest = offer_all_slots-Receives bs (offer b s) first.kept a.1 (ground arith) in
      Receives-trans _ first rest (λ p z. omega arith)
