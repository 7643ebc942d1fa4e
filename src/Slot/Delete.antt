-- ===== src/Slot/Delete.antt =====
-- `bSlot::del` of a slot with at most two tables: the edge goes out, and no other is lost.
use cuckoo_graph.Prelude.{
  ℕ, ◌<◌, ◌-◌, ◌≡◌, ◌≢◌, ◌↔◌, ◌⊎◌, ◌∙◌, refl, inl, inr, true, ◌==◌, arith, Bool-cases, Option, none,
  some, List, [], tally, ℤ, pos, negsuc, subst, ==_refl,
}
use cuckoo_graph.Cuckoo.Invariant.{is, is_key}
use cuckoo_graph.Floats.{Floats}
use cuckoo_graph.Slot.{Edge, edge, World, Content, few, grown, Slot, own, query, is_slot_empty}
use cuckoo_graph.Slot.Shrink.{del}
use cuckoo_graph.Slot.Lists.{tally-le-keys}
use cuckoo_graph.Slot.Invariant.{held, IsValid, slot_query-held}
use cuckoo_graph.Bucket.Scalar
use cuckoo_graph.Bucket.Tally.{scan_absent, scan_present, overwrite-Replaces, overwrite_absent}
use cuckoo_graph.Slot.Insert.{at, empty_query}
use cuckoo_graph.Slot.Cuts.{Cuts, del_grown-Cuts}

-- At most two tables.
abbrev pub IsSmall : Content → Type 0
IsSmall (few pt ks) = Unit
IsSmall (grown s0 s1 none) = Unit
IsSmall (grown s0 s1 (some c)) = ⊥

few-Cuts :
    (fl : Floats) (s d pt : ℕ) (ks : List ℕ) (w : World)
    → IsValid (at s (few pt ks)) w
    → d ≢ 0
    → own 0 w.sblacklist ≡ []
    → Cuts s d (λ p. tally p ks) w (del fl (edge s d) (at s (few pt ks)) w)
unfolding del
few-Cuts fl s d pt ks w v nz free =
    let (wide, counted, unlisted) = v.formed in
    let kept : tally (is d) ks ≡ 0
        → Cuts s d (λ p. tally p ks) w (some (pos 2, at s (few pt ks), w)) =
      λ none_there. record {
        code = pos 2;
        slot = at s (few pt ks);
        world = w;
        runs = refl;
        source = inl refl;
        valid = v;
        frame = λ t h. refl;
        found = inl refl;
        gone = inr none_there;
        holds = λ p z. ground (arith, none_there);
      } in
    rw (==_refl s) (elim (Bool-cases (pt == 0)) [
      | inl e ↦ rw e (kept (ground (arith, tally-le-keys (is d) ks)))
      | inr e ↦ rw e (elim (Bool-cases (Scalar.query d ks)) [
        | inr out ↦ rw (overwrite_absent d 0 ks out) (kept (scan_absent d ks out))
        | inl in_ ↦
            let there = scan_present d ks in_ in
            let (ks', run, r) = overwrite-Replaces d 0 ks in_ in
            rw run (elim (Bool-cases (pt == 1)) [
              | inl last ↦ rw last (record {
                code = negsuc 0;
                slot = at 0 (few 0 ks');
                world = w;
                runs = refl;
                source = inr (unfold is_slot_empty in refl);
                valid = record {
                  formed = (r.width ∙ wide, ground (arith, r.tallies is_key), free);
                  unique = λ j h. ground (arith, v.unique j h, r.tallies (is j));
                };
                frame = λ t h. refl;
                found = inr there;
                gone = inl (λ q. cc);
                holds = λ p z. ground (arith, r.tallies p, there);
              })
              | inr more ↦ rw more (record {
                code = pos 1;
                slot = at s (few (pt - 1) ks');
                world = w;
                runs = refl;
                source = inl refl;
                valid = record {
                  formed = (r.width ∙ wide, ground (arith, r.tallies is_key), unlisted);
                  unique = λ j h. ground (arith, v.unique j h, r.tallies (is j));
                };
                frame = λ t h. refl;
                found = inr there;
                gone = inl (λ q. cc);
                holds = λ p z. ground (arith, r.tallies p, there);
              })
            ])
      ])
    ])

del-Cuts :
    (fl : Floats) (s d : ℕ) (c : Content) (w : World)
    → IsValid (at s c) w
    → IsSmall c
    → d ≢ 0
    → own 0 w.sblacklist ≡ []
    → Cuts s d (λ p. held p (at s c) w) w (del fl (edge s d) (at s c) w)
del-Cuts fl s d (few pt ks) w v small nz free = few-Cuts fl s d pt ks w v nz free
del-Cuts fl s d (grown s0 s1 none) w v small nz free =
    unfold del in
    rw (==_refl s) (del_grown-Cuts fl s d w nz v.formed.1 s0 s1 v.formed.0 free v.unique)
del-Cuts fl s d (grown s0 s1 (some c)) w v small nz free = absurd small

-- `query` of the slot that is left, which is of the source or was set free.
left_query :
    (s k : ℕ) {b : Slot} {w : World}
    → IsValid b w
    → (b.src ≡ s) ⊎ (is_slot_empty b ≡ true)
    → k ≢ 0
    → (0 < query (edge s k) b w) ↔ (0 < held (is k) b w)
left_query s k {b} {w} v (inl e) nz =
    subst (λ t. (0 < query (edge t k) b w) ↔ (0 < held (is k) b w)) e (slot_query-held k v nz)
left_query s k {b} {w} v (inr e) nz =
    let own_query = slot_query-held k v nz in
    ground
      (arith, own_query, empty_query s k b.src b.slot w e, empty_query b.src k b.src b.slot w e)

-- What `del` of the edge leaves: a valid slot in which `query` finds just the other destinations;
-- the answer is 2 exactly where `query` did not find the edge.
abbrev pub Quits : Edge → Slot → World → Option (ℤ × Slot × World) → Type 0
Quits e b w r =
    (code : ℤ) × (b' : Slot) × (w' : World) × (r ≡ some (code, b', w'))
    × IsValid b' w'
    × ((code ≡ pos 2) ↔ (query e b w ≡ 0))
    × ((k : ℕ)
        → k ≢ 0
        → (0 < query (edge e.src k) b' w') ↔ ((0 < query (edge e.src k) b w) × (k ≢ e.dst)))
    × ((t : ℕ) → t ≢ e.src → own t w'.sblacklist ≡ own t w.sblacklist)

own-Quits :
    (fl : Floats) (d : ℕ) {b : Slot} {w : World}
    → IsValid b w
    → IsSmall b.slot
    → d ≢ 0
    → own 0 w.sblacklist ≡ []
    → Quits (edge b.src d) b w (del fl (edge b.src d) b w)
own-Quits fl d {b} {w} v small nz free =
    let c = del-Cuts fl b.src d b.slot w v small nz free in
    let before = slot_query-held d v nz in
    (
      c.code,
      c.slot,
      c.world,
      c.runs,
      c.valid,
      (
        λ two. elim c.gone [
          | inl other ↦ absurd (other two)
          | inr none_there ↦ ground (arith, before)
        ],
        λ unseen. elim c.found [ inl two ↦ two | inr there ↦ absurd (ground (arith, before)) ],
      ),
      λ k h. ground (
        arith,
        left_query b.src k c.valid c.source h,
        slot_query-held k v h,
        c.holds (is k),
        v.unique k h,
        v.unique d nz,
      ),
      c.frame,
    )

-- A valid slot of the source of the edge, with at most two tables, whose destination is not 0, while
-- the list has no edge of the source 0: `del` dereferences no null pointer; it leaves a valid slot
-- in which `query` finds just the other destinations, it answers 2 exactly where `query` did not
-- find the edge, and the listed edges of other sources stay.
pub query-del_slot :
    (fl : Floats) (e : Edge) {b : Slot} {w : World}
    → IsValid b w
    → IsSmall b.slot
    → e.dst ≢ 0
    → b.src ≡ e.src
    → own 0 w.sblacklist ≡ []
    → Quits e b w (del fl e b w)
query-del_slot fl e {b} {w} v small nz same free =
    subst (λ s. Quits (edge s e.dst) b w (del fl (edge s e.dst) b w)) same
      (own-Quits fl e.dst v small nz free)
