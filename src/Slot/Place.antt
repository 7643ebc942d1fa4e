-- ===== src/Slot/Place.antt =====
-- A destination put into a table of a slot, with the key turned out on the list.
use cuckoo_graph.Prelude.{
  ℕ, ◌+◌, ◌*◌, ◌≤◌, ◌≡◌, ◌≢◌, ◌∙◌, refl, inl, inr, Bool, false, arith, List, [], ◌∷◌, ◌++◌, map,
  tally, tally-append, to_nat, Bool-cases, append-nil, ap, zero, suc, ◌<◌,
}
use cuckoo_graph.Cuckoo
use cuckoo_graph.Cuckoo.{Cuckoo, Globals}
use cuckoo_graph.Cuckoo.Invariant.{total, is, new-IsValid_cuckoo}
use cuckoo_graph.Cuckoo.Kick.{Takes}
use cuckoo_graph.Cuckoo.Insert.{insert-Takes}
use cuckoo_graph.Resize.{Stage, offer, offer_all}
use cuckoo_graph.Resize.Offer.{offer-Receives, offer_all-Receives}
use cuckoo_graph.MergeHash.Invariant.{pow2}
use cuckoo_graph.Slot.{World, edge, own, others, put_in, us1, us2}
use cuckoo_graph.Slot.Grow.{take_in}
use cuckoo_graph.Slot.Lists.{own-append, own-others, own-others_ne, own-map, own-map_ne}
use cuckoo_graph.Slot.Invariant.{Fits}

-- How many keys on the list of the source `s` pass the test.
abbrev pub listed : (ℕ → Bool) → ℕ → World → ℕ
listed p s w = tally p (own s w.sblacklist)

-- A table and the list of `s` after something was put in: `fresh` says how many keys pass the test.
pub record Holds (k s : ℕ) (fresh : (ℕ → Bool) → ℕ) (w : World) (r : Cuckoo × World) : Type 0 where
  pub fits : Fits k r.0
  pub live : listed (is 0) s r.1 ≡ 0
  pub stocked : (p : ℕ → Bool) → p 0 ≡ false → total p r.0 + listed p s r.1 ≡ fresh p
  pub frame : (t : ℕ) → t ≢ s → own t r.1.sblacklist ≡ own t w.sblacklist

pub Takes-Fits :
    {k key : ℕ} {c : Cuckoo} {r : Cuckoo.Outcome} → Fits k c → Takes 0 key c r → Fits k r.table
Takes-Fits f t = record {
  valid = t.valid;
  wide1 = t.len1 ∙ f.wide1;
  wide2 = t.len2 ∙ f.wide2;
  seed1 = t.seed1 ∙ f.seed1;
  seed2 = t.seed2 ∙ f.seed2;
}

-- More edges of `s` at the end of the list.
pub own-pushed :
    (s : ℕ) (xs : List _) (ks : List ℕ) → own s (xs ++ map (edge s) ks) ≡ own s xs ++ ks
own-pushed s xs ks = rw (own-append s xs (map (edge s) ks), own-map s ks)

pub own-pushed_ne :
    (s t : ℕ) (xs : List _) (ks : List ℕ) → t ≢ s → own t (xs ++ map (edge s) ks) ≡ own t xs
own-pushed_ne s t xs ks h =
    rw (own-append t xs (map (edge s) ks), own-map_ne s t ks h) (append-nil (own t xs))

pub put_in-Holds :
    {k : ℕ} (s key : ℕ) (c : Cuckoo) (w : World)
    → Fits k c
    → listed (is 0) s w ≡ 0
    → key ≢ 0
    → total (is key) c ≡ 0
    → Holds k s (λ p. total p c + listed p s w + to_nat (p key)) w (put_in s key c w)
unfolding put_in tally
put_in-Holds s key c w f live nz absent =
    let t = insert-Takes w.globals f.valid nz absent in
    let r = Cuckoo.insert key c w.globals in
    elim (Bool-cases r.done) [
      | inl e ↦ rw e (record {
        fits = Takes-Fits f t;
        live = live;
        stocked = λ p z. ground (arith, t.tallies p z);
        frame = λ t' h. refl;
      })
      | inr e ↦
          let pushed = own-pushed s w.sblacklist (r.globals.mykick ∷ []) in
          rw e (record {
            fits = Takes-Fits f t;
            live = rw pushed (
                ground (
                  arith,
                  tally-append (is 0) (own s w.sblacklist) (r.globals.mykick ∷ []),
                  t.left_over,
                ));
            stocked = λ p z. rw pushed (
                ground (
                  arith,
                  tally-append p (own s w.sblacklist) (r.globals.mykick ∷ []),
                  t.tallies p z,
                ));
            frame = λ t' h. own-pushed_ne s t' w.sblacklist (r.globals.mykick ∷ []) h;
          })
    ]

-- A new table, which takes in the listed keys of the source and then `dst`.
pub take_in-Holds :
    {k : ℕ} (s dst : ℕ) (c : Cuckoo) (w : World)
    → Fits k c
    → ((p : ℕ → Bool) → p 0 ≡ false → total p c ≡ 0)
    → listed (is 0) s w ≡ 0
    → dst ≢ 0
    → ((j : ℕ) → j ≢ 0 → listed (is j) s w + to_nat (is j dst) ≤ 1)
    → Holds k s (λ p. listed p s w + to_nat (p dst)) w (take_in s dst c w)
unfolding take_in tally
take_in-Holds s dst c w f bare live nz fresh =
    let stage : Stage = record { table = c; left = []; globals = w.globals } in
    let mine = own s w.sblacklist in
    let r =
      offer_all-Receives mine stage f.valid refl live
        (λ j h. ground (arith, bare (is j), fresh j h)) in
    let t =
      offer-Receives dst (offer_all mine stage) r.sound r.live nz
        (ground (arith, bare (is dst), r.stocked (is dst), fresh dst nz)) in
    let left = (offer dst (offer_all mine stage)).left in
    let now : own s (others s w.sblacklist ++ map (edge s) left) ≡ left =
      own-pushed s (others s w.sblacklist) left ∙ ap (λ l. l ++ left) (own-others s w.sblacklist) in
    record {
      fits = record {
        valid = t.sound;
        wide1 = t.len1 ∙ r.len1 ∙ f.wide1;
        wide2 = t.len2 ∙ r.len2 ∙ f.wide2;
        seed1 = t.seed1 ∙ r.seed1 ∙ f.seed1;
        seed2 = t.seed2 ∙ r.seed2 ∙ f.seed2;
      };
      live = rw now t.live;
      stocked = λ p z. rw now (ground (arith, bare p z, r.stocked p z, t.stocked p z));
      frame = λ t' h.
          own-pushed_ne s t' (others s w.sblacklist) left h ∙ own-others_ne s t' w.sblacklist h;
    }

pow2_pos : (k : ℕ) → 0 < pow2 k
pow2_pos zero = omega arith
pow2_pos (suc k) = omega (arith, pow2_pos k)

-- A new table of a slot.
pub new-Fits :
    (k l1 l2 : ℕ)
    → l1 ≡ pow2 k * 2
    → l2 ≡ pow2 k
    → Fits k (Cuckoo.new l1 l2 us1 us2)
      × ((p : ℕ → Bool) → p 0 ≡ false → total p (Cuckoo.new l1 l2 us1 us2) ≡ 0)
new-Fits k l1 l2 e1 e2 =
    let (valid, bare) =
      new-IsValid_cuckoo l1 l2 us1 us2 (omega (arith, pow2_pos k)) (omega (arith, pow2_pos k)) in
    (
      unfold Cuckoo.new in
          record { valid = valid; wide1 = e1; wide2 = e2; seed1 = refl; seed2 = refl },
      bare,
    )
