-- ===== src/Slot/Merged.antt =====
-- The three-table `merge` of a slot: no key of the three tables is lost or doubled.
use cuckoo_graph.Prelude.{
  ℕ, suc, ◌+◌, ◌*◌, ◌/◌, ◌≤◌, ◌≡◌, ◌≢◌, ◌∙◌, refl, Bool, false, List, [], arith, tally,
  tally-append, sym, subst, length as size,
}
use cuckoo_graph.Layer.{Layer}
use cuckoo_graph.Layer.Placement
use cuckoo_graph.Layer.Placement.{keys}
use cuckoo_graph.Cuckoo.{Cuckoo}
use cuckoo_graph.Cuckoo.Invariant.{IsSound, total, is}
use cuckoo_graph.Resize.{Stage, offer_all, expand}
use cuckoo_graph.Resize.Expand.{expand-IsSound}
use cuckoo_graph.Resize.Offer.{offer_all-Receives}
use cuckoo_graph.Slot.{World, own, us1, us2}
use cuckoo_graph.Slot.Merge.{Pour, pour_both, pour_rest, merge3}
use cuckoo_graph.Slot.Invariant.{Fits}
use cuckoo_graph.Slot.Place.{Holds, listed, own-pushed, own-pushed_ne}
use cuckoo_graph.Slot.Poured.{rows, rows_all, pour_both-Pours}

-- The queue goes into the table, and what it turns out to the list.
pour_rest-Holds :
    {k : ℕ} (s : ℕ) (c : Cuckoo) (mq : List ℕ) (w : World)
    → Fits k c
    → tally (is 0) mq ≡ 0
    → listed (is 0) s w ≡ 0
    → ((j : ℕ) → j ≢ 0 → total (is j) c + tally (is j) mq ≤ 1)
    → Holds k s (λ p. total p c + tally p mq + listed p s w) w (pour_rest s c mq w)
unfolding pour_rest tally
pour_rest-Holds s c mq w f keyed live fresh =
    let stage : Stage = record { table = c; left = []; globals = w.globals } in
    let r = offer_all-Receives mq stage f.valid refl keyed (λ j h. omega (arith, fresh j h)) in
    let left = (offer_all mq stage).left in
    let now = own-pushed s w.sblacklist left in
    let both = λ (p : ℕ → Bool). tally-append p (own s w.sblacklist) left in
    record {
      fits = record {
        valid = r.sound;
        wide1 = r.len1 ∙ f.wide1;
        wide2 = r.len2 ∙ f.wide2;
        seed1 = r.seed1 ∙ f.seed1;
        seed2 = r.seed2 ∙ f.seed2;
      };
      live = rw now (omega (arith, both (is 0), r.live));
      stocked = λ p z. rw now (omega (arith, both p, r.stocked p z));
      frame = λ t h. own-pushed_ne s t w.sblacklist left h;
    }

-- All buckets of two layers of the same length.
rows-keys :
    (n : ℕ) (a b : Layer) (p : ℕ → Bool)
    → Placement.IsValid a
    → Placement.IsValid b
    → a.length ≡ n
    → b.length ≡ n
    → rows p n 0 a.layer + rows p n 0 b.layer ≡ tally p (keys a) + tally p (keys b)
rows-keys n a b p v w e f =
    let one = λ (l : Layer) (g : size l.layer ≡ n).
      subst (λ k. rows p k 0 l.layer ≡ tally p (keys l)) g (rows_all p l.layer) in
    omega (arith, one a (v.sized ∙ e), one b (w.sized ∙ f))

-- `expand` by seeds that are those of the table.
expand_by-IsSound :
    (s1 s2 : ℕ) {c : Cuckoo}
    → IsSound 0 c
    → c.seed1 ≡ s1
    → c.seed2 ≡ s2
    → let e = expand s1 s2 c in
      IsSound 0 e
      × ((p : ℕ → Bool) → p 0 ≡ false → total p e ≡ total p c)
      × (e.len1 ≡ c.len1 * 2)
      × (e.len2 ≡ c.len2 * 2)
expand_by-IsSound s1 s2 v e1 e2 = rw (← e1, ← e2) (expand-IsSound v)

-- `merge` of a table and two of half its width gives a table of twice its width that holds, with the
-- list, the keys of the three and those of the list.
pub merge3-Holds :
    {k : ℕ} (s : ℕ) (c0 c1 c2 : Cuckoo) (w : World)
    → Fits (suc k) c0
    → Fits k c1
    → Fits k c2
    → listed (is 0) s w ≡ 0
    → ((j : ℕ) → j ≢ 0 → total (is j) c0 + total (is j) c1 + total (is j) c2 ≤ 1)
    → Holds
        (suc (suc k))
        s
        (λ p. total p c0 + total p c1 + total p c2 + listed p s w)
        w
        (merge3 s c0 c1 c2 w)
unfolding merge3 tally
merge3-Holds {k} s c0 c1 c2 w f0 f1 f2 live fresh =
    let e = expand us1 us2 c0 in
    let (sound, same, wide1, wide2) = expand_by-IsSound us1 us2 f0.valid f0.seed1 f0.seed2 in
    let half1 : c0.len1 / 2 ≡ c1.len1 = omega (arith, f0.wide1, f1.wide1) in
    let half2 : c0.len2 / 2 ≡ c1.len2 = omega (arith, f0.wide2, f1.wide2) in
    let all1 = λ (p : ℕ → Bool).
      rows-keys c1.len1 c1.layer1 c2.layer1 p f1.valid.valid1 f2.valid.valid1 f1.valid.length1
        (f2.valid.length1 ∙ f2.wide1 ∙ sym f1.wide1) in
    let all2 = λ (p : ℕ → Bool).
      rows-keys c1.len2 c1.layer2 c2.layer2 p f1.valid.valid2 f2.valid.valid2 f1.valid.length2
        (f2.valid.length2 ∙ f2.wide2 ∙ sym f1.wide2) in
    let start : Pour = record { layer = e.layer1; num = e.num; mq = [] } in
    let p1 =
      pour_both-Pours us1 (c0.len1 * 2) c0.len1 c1.len1 0 c1.layer1 c2.layer1 start refl
        sound.valid1 (unfold expand in sound.same_seed1) (sound.length1 ∙ wide1) refl
        (λ j h. ground (arith, same (is j), fresh j h, all1 (is j), all2 (is j))) in
    let p = pour_both us1 c0.len1 c1.len1 0 c1.layer1 c2.layer1 start in
    let next : Pour = record { layer = e.layer2; num = p.num; mq = p.mq } in
    let p2 =
      pour_both-Pours us2 (c0.len2 * 2) c0.len2 c1.len2 0 c1.layer2 c2.layer2 next refl sound.valid2
        (unfold expand in sound.same_seed2) (sound.length2 ∙ wide2) p1.live
        (λ j h.
          ground (arith, same (is j), fresh j h, all1 (is j), all2 (is j), p1.stocked (is j))) in
    let q = pour_both us2 c0.len2 c1.len2 0 c1.layer2 c2.layer2 next in
    let (n, en, cn) = sound.counted in
    let (m, em, cm) = p1.counts n en in
    let (l, el, cl) = p2.counts m em in
    let poured : (g : ℕ → Bool)
        → g 0 ≡ false
        → tally g (keys p.layer) + tally g (keys q.layer) + tally g q.mq
          ≡ total g c0 + total g c1 + total g c2 =
      λ g z. omega (arith, same g z, all1 g, all2 g, p1.stocked g z, p2.stocked g z) in
    let table : Cuckoo = record e { num = q.num; layer1 = p.layer; layer2 = q.layer } in
    let fits : Fits (suc (suc k)) table = record {
      valid = record {
        valid1 = p1.valid;
        valid2 = p2.valid;
        length1 = p1.same_length ∙ sound.length1;
        length2 = p2.same_length ∙ sound.length2;
        same_seed1 = p1.same_seed ∙ sound.same_seed1;
        same_seed2 = p2.same_seed ∙ sound.same_seed2;
        unique = λ j h. ground (arith, fresh j h, poured (is j));
        counted = (l, el, omega arith);
      };
      wide1 = omega (arith, wide1, f0.wide1);
      wide2 = omega (arith, wide2, f0.wide2);
      seed1 = unfold expand in refl;
      seed2 = unfold expand in refl;
    } in
    let r =
      pour_rest-Holds s table q.mq w fits p2.live live
        (λ j h. ground (arith, fresh j h, poured (is j))) in
    rw (half1, half2)
      (record {
        fits = r.fits;
        live = r.live;
        stocked = λ g z. omega (arith, r.stocked g z, poured g z);
        frame = r.frame;
      })
