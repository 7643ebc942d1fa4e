-- ===== src/HoleMerge/Compress.antt =====
-- The `compress` of the store: a table of half the width; the slots stay in it or go to the blacklist.
use native.Mathlib.Decide.{dec_lt}
use cuckoo_graph.Prelude.{
  ℕ, ◌+◌, ◌*◌, ◌/◌, ◌≡◌, ◌∙◌, refl, ap, Bool, false, ℤ, pos, List, [], ◌∷◌, arith, length as size,
  get_or, take, drop, flatten, tally, tally_mono, tally-flatten-append, take-append-drop,
  length-take, get_or-take, get_or-drop, get_or_beyond, length-append, subst, All,
}
use cuckoo_graph.Layer.Placement.{strays}
use cuckoo_graph.Resize.Compress.{lower_strays, upper_strays}
use cuckoo_graph.Slot.{Slot}
use cuckoo_graph.NodeTable.Layers
use cuckoo_graph.NodeTable.Layers.{Layer}
use cuckoo_graph.NodeTable.Kicks.{NodeTable, Store}
use cuckoo_graph.NodeTable.Placement
use cuckoo_graph.NodeTable.Placement.{on, free, slots, IsTidy}
use cuckoo_graph.NodeTable.Conserve.{IsSound, total}
use cuckoo_graph.HoleMerge.Offer.{Stage, offer, offer_all}
use cuckoo_graph.HoleMerge.Merge.{squeeze_layer, offer_less, compress}
use cuckoo_graph.HoleMerge.Receive.{Receives, Stocked, stock, offer_all_slots-Receives}
use cuckoo_graph.HoleMerge.Merged.{Fits}
use cuckoo_graph.HoleMerge.Squeeze.{squeeze_slots-Moves}

-- What a layer squeezed to `half` rows, with a queue for the slots without room, has become.
record Halves (P : Slot → Type 0) (half : ℕ) (l : Layer) (mq : List Slot) (t : Layer × List Slot)
    : Type 0 where
  valid : Placement.IsValid P t.0
  narrow : t.0.length ≡ half
  same_seed : t.0.seed ≡ l.seed
  stands : All P t.1
  live : tally (on free) t.1 ≡ 0
  stocked :
      (p : ℕ → Bool)
      → p 0 ≡ false
      → tally (on p) (slots t.0) + tally (on p) t.1 ≡ tally (on p) (slots l) + tally (on p) mq

module _ {P : Slot → Type 0} {l : Layer} (v : Placement.IsValid P l) (h : ℕ)
    (even : l.length ≡ h * 2) where
  abbrev lower_half : Layer
  lower_half = record { layer = take h l.layer; length = h; seed = l.seed }

  lower_half-IsValid : Placement.IsValid P lower_half
  lower_half-IsValid = record {
    sized = length-take h l.layer (omega (arith, v.sized));
    positive = omega (arith, v.positive);
    widths = λ i lt. ground (arith, get_or-take h l.layer i [], v.widths i);
    placed = λ i. elim (dec_lt i h) [
      | yes lt ↦
          let at : Layers.row i lower_half ≡ Layers.row i l =
            ground (arith, get_or-take h l.layer i []) in
          rw at (
            omega (
              arith,
              tally_mono (on (strays l.seed h i)) (on (strays l.seed (h * 2) i)) (Layers.row i l)
                  (λ x s. lower_strays l.seed h i x.src lt s),
              rw even at (v.placed i),
            ))
      | no ge ↦
          let at : Layers.row i lower_half ≡ [] = ground (arith, get_or-take h l.layer i []) in
          rw at (unfold tally in refl)
    ];
    stands = λ i. elim (dec_lt i h) [
      | yes lt ↦
          let at : Layers.row i lower_half ≡ Layers.row i l =
            ground (arith, get_or-take h l.layer i []) in
          rw at (v.stands i)
      | no ge ↦
          let at : Layers.row i lower_half ≡ [] = ground (arith, get_or-take h l.layer i []) in
          rw at tt
    ];
  }

  upper_half_stands : (j : ℕ) → All P (get_or (drop h l.layer) j [])
  upper_half_stands j = rw (get_or-drop h l.layer j []) (v.stands (h + j))

  upper_half_placed :
      (j : ℕ) → tally (on (strays l.seed h (0 + j))) (get_or (drop h l.layer) j []) ≡ 0
  upper_half_placed j =
      let same : 0 + j ≡ j = omega arith in
      rw (same, get_or-drop h l.layer j [])
        (elim (dec_lt j h) [
          | yes lt ↦ omega (
            arith,
            tally_mono (on (strays l.seed h j)) (on (strays l.seed (h * 2) (h + j)))
                (Layers.row (h + j) l) (λ x s. upper_strays l.seed h j x.src lt s),
            rw even at (v.placed (h + j)),
          )
          | no ge ↦
              rw (get_or_beyond l.layer (h + j) [] (omega (arith, v.sized))) (unfold tally in refl)
        ])

  -- The layer of half the width is valid, and the slots are in it or in the queue.
  squeeze_layer-Halves :
      (mq : List Slot)
      → All P mq
      → tally (on free) mq ≡ 0
      → Halves P h l mq (squeeze_layer l.seed h l mq)
  unfolding squeeze_layer
  squeeze_layer-Halves mq queued live =
      let halves = λ (p : ℕ → Bool).
        subst
          (λ bs.
            tally (on p) (flatten bs)
            ≡ tally (on p) (flatten (take h l.layer)) + tally (on p) (flatten (drop h l.layer)))
          (take-append-drop h l.layer)
          (tally-flatten-append (on p) (take h l.layer) (drop h l.layer)) in
      let rest : size (drop h l.layer) ≡ h = omega (
        arith,
        v.sized,
        length-take h l.layer,
        ap size (take-append-drop h l.layer),
        length-append (take h l.layer) (drop h l.layer),
      ) in
      let t =
        squeeze_slots-Moves l.seed h 0 (drop h l.layer) lower_half mq lower_half-IsValid refl refl
          (omega arith) queued live upper_half_stands upper_half_placed in
      record {
        valid = t.valid;
        narrow = t.same_length;
        same_seed = t.same_seed;
        stands = t.stands;
        live = t.live;
        stocked = λ p z. omega (arith, t.stocked p z, halves p);
      }

-- Counting the slots that are turned out does not change where the slots go.
offer_less-offer_all :
    (mq : List Slot) (s : Stage) (asum : ℤ) → (offer_less mq s asum).0 ≡ offer_all mq s
unfolding offer_less offer_all
offer_less-offer_all [] s asum = refl
offer_less-offer_all (b ∷ mq) s asum = offer_less-offer_all mq (offer b s) _

-- The counter does not matter to the soundness of a table.
renumber-IsSound :
    {P : Slot → Type 0} {c : NodeTable} (n : ℤ) → IsSound P c → IsSound P (record c { num = n })
renumber-IsSound n v = record {
  valid1 = v.valid1;
  valid2 = v.valid2;
  length1 = v.length1;
  length2 = v.length2;
  same_seed1 = v.same_seed1;
  same_seed2 = v.same_seed2;
}

module _ {P : Slot → Type 0} (tidy : (b : Slot) → P b → IsTidy b) where
  -- `compress` of a sound table of even widths, by its own seeds, and with a blacklist of slots that
  -- are not free gives a sound table of half its width and such a blacklist. Both together hold the
  -- slots of the table and of the blacklist that was there, and `sblacklist` stays as it is.
  pub compress-Fits :
      {h1 h2 s1 s2 : ℕ} {c : NodeTable} (left : List Slot) (st : Store)
      → Fits P s1 s2 (h1 * 2) (h2 * 2) c
      → All P left
      → tally (on free) left ≡ 0
      → let t = compress s1 s2 c left st in
        Fits P s1 s2 h1 h2 t.table
        × Stocked P t
        × ((p : ℕ → Bool) → p 0 ≡ false → stock p t ≡ total p c + tally (on p) left)
        × (t.store.world.sblacklist ≡ st.world.sblacklist)
  compress-Fits {h1} {h2} {s1} {s2} {c} left st f stands live =
      let v = f.sound in
      let half1 : c.len1 / 2 ≡ h1 = omega (arith, f.len1) in
      let half2 : c.len2 / 2 ≡ h2 = omega (arith, f.len2) in
      let e1 : c.layer1.seed ≡ s1 = v.same_seed1 ∙ f.seed1 in
      let e2 : c.layer2.seed ≡ s2 = v.same_seed2 ∙ f.seed2 in
      let none : (p : ℕ → Bool) → tally (on p) [] ≡ 0 = λ p. unfold tally in refl in
      let t1 = squeeze_layer-Halves v.valid1 h1 (v.length1 ∙ f.len1) [] tt (unfold tally in refl) in
      let first = squeeze_layer c.layer1.seed h1 c.layer1 [] in
      let t2 = squeeze_layer-Halves v.valid2 h2 (v.length2 ∙ f.len2) first.1 t1.stands t1.live in
      let second = squeeze_layer c.layer2.seed h2 c.layer2 first.1 in
      let c0 : NodeTable = record {
        len1 = h1;
        len2 = h2;
        seed1 = c.layer1.seed;
        seed2 = c.layer2.seed;
        num = pos 0;
        layer1 = first.0;
        layer2 = second.0;
      } in
      let sound : IsSound P c0 = record {
        valid1 = t1.valid;
        valid2 = t2.valid;
        length1 = t1.narrow;
        length2 = t2.narrow;
        same_seed1 = t1.same_seed;
        same_seed2 = t2.same_seed;
      } in
      let start : Stage = record { table = c0; left = left; store = st } in
      let r : Receives P (λ p. tally (on p) second.1) start (offer_less second.1 start c.num).0 =
        rw (offer_less-offer_all second.1 start c.num) (
          offer_all_slots-Receives tidy second.1 start
            (record { sound = sound; stands = stands; live = live }) t2.stands t2.live) in
      let (s, asum) = offer_less second.1 start c.num in
      let run : compress s1 s2 c left st ≡ record s { table = record s.table { num = asum } } =
        unfold compress in rw (← e1, ← e2, half1, half2) refl in
      rw run (
        record {
          sound = renumber-IsSound _ r.kept.sound;
          seed1 = r.seed1 ∙ e1;
          seed2 = r.seed2 ∙ e2;
          len1 = r.len1;
          len2 = r.len2;
        },
        record {
          sound = renumber-IsSound _ r.kept.sound;
          stands = r.kept.stands;
          live = r.kept.live;
        },
        λ p z. omega (arith, r.stocked p z, t1.stocked p z, t2.stocked p z, none p),
        r.listed,
      )
