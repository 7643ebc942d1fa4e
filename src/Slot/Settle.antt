-- ===== src/Slot/Settle.antt =====
-- What `bSlot::del` makes of one or two tables after a deletion: no key is lost.
use cuckoo_graph.Prelude.{
  ℕ, suc, ◌+◌, ◌*◌, ◌≤◌, ◌≡◌, ◌≢◌, ◌∙◌, refl, inl, inr, Bool, true, false, ◌==◌, arith, Bool-cases,
  List, [], ◌∷◌, tally, tally-append,
}
use cuckoo_graph.Cuckoo.{Cuckoo, Globals}
use cuckoo_graph.Cuckoo.Invariant.{IsSound, total, is, is_key}
use cuckoo_graph.Resize
use cuckoo_graph.Resize.Compress.{compress-IsValid}
use cuckoo_graph.MergeHash.{is_zero}
use cuckoo_graph.MergeHash.Invariant.{pow2}
use cuckoo_graph.MergeHash.Delete.{total-le-keys}
use cuckoo_graph.Slot.{Edge, World, own, us1, us2, put_in}
use cuckoo_graph.Slot.Shrink.{compress, move, any_own}
use cuckoo_graph.Slot.Invariant.{Fits}
use cuckoo_graph.Slot.Place.{Holds, listed, put_in-Holds, own-pushed, own-pushed_ne}

pub move-Holds :
    {k : ℕ} (s : ℕ) (ks : List ℕ) (c : Cuckoo) (w : World)
    → Fits k c
    → listed (is 0) s w ≡ 0
    → ((j : ℕ) → j ≢ 0 → total (is j) c + listed (is j) s w + tally (is j) ks ≤ 1)
    → Holds k s (λ p. total p c + listed p s w + tally p ks) w (move s ks c w)
unfolding move tally
move-Holds s [] c w f live fresh = record {
  fits = f;
  live = live;
  stocked = λ p z. omega arith;
  frame = λ t h. refl;
}
move-Holds s (x ∷ ks) c w f live fresh = elim (Bool-cases (x == 0)) [
  | inl e ↦
      let rest = move-Holds s ks c w f live (λ j h. omega (arith, fresh j h)) in
      rw e (record {
        fits = rest.fits;
        live = rest.live;
        stocked =
            λ p z. let same : x ≡ 0 = ground arith in rw same (ground (arith, rest.stocked p z));
        frame = rest.frame;
      })
  | inr e ↦
      let nz : x ≢ 0 = ground arith in
      let h = put_in-Holds s x c w f live nz (ground (arith, fresh x nz)) in
      let (c', w') = put_in s x c w in
      let rest =
        move-Holds s ks c' w' h.fits h.live (λ j g. ground (arith, fresh j g, h.stocked (is j))) in
      rw e (record {
        fits = rest.fits;
        live = rest.live;
        stocked = λ p z. omega (arith, rest.stocked p z, h.stocked p z);
        frame = λ t g. rest.frame t g ∙ h.frame t g;
      })
]

compress_by-IsValid :
    (s1 s2 h1 h2 : ℕ) (c : Cuckoo) (g : Globals)
    → IsSound 0 c
    → c.seed1 ≡ s1
    → c.seed2 ≡ s2
    → c.len1 ≡ h1 * 2
    → c.len2 ≡ h2 * 2
    → let t = Resize.compress s1 s2 c g in
      IsSound 0 t.table
      × (tally (is 0) t.left ≡ 0)
      × ((p : ℕ → Bool) → p 0 ≡ false → total p t.table + tally p t.left ≡ total p c)
      × (t.table.len1 ≡ h1)
      × (t.table.len2 ≡ h2)
      × (t.table.seed1 ≡ c.seed1)
      × (t.table.seed2 ≡ c.seed2)
compress_by-IsValid s1 s2 h1 h2 c g v e1 e2 l1 l2 =
    rw (← e1, ← e2) (compress-IsValid h1 h2 c g v l1 l2)

-- The halved table of a slot.
pub compress-Holds :
    {k : ℕ} (s : ℕ) (c : Cuckoo) (w : World)
    → Fits (suc k) c
    → listed (is 0) s w ≡ 0
    → Holds k s (λ p. total p c + listed p s w) w (compress s c w)
unfolding compress
compress-Holds {k} s c w f live =
    let (valid, live', holds, len1, len2, seed1, seed2) =
      compress_by-IsValid us1 us2 (pow2 k * 2) (pow2 k) c w.globals f.valid f.seed1 f.seed2 f.wide1
        f.wide2 in
    let left = (Resize.compress us1 us2 c w.globals).left in
    let now = own-pushed s w.sblacklist left in
    let both = λ (p : ℕ → Bool). tally-append p (own s w.sblacklist) left in
    record {
      fits = record {
        valid = valid;
        wide1 = len1;
        wide2 = len2;
        seed1 = seed1 ∙ f.seed1;
        seed2 = seed2 ∙ f.seed2;
      };
      live = rw now (omega (arith, both (is 0)));
      stocked = λ p z. rw now (omega (arith, both p, holds p z));
      frame = λ t h. own-pushed_ne s t w.sblacklist left h;
    }

pub any_own_none : (s : ℕ) (xs : List Edge) → any_own s xs ≡ false → own s xs ≡ []
unfolding any_own own
any_own_none s [] h = refl
any_own_none s (x ∷ xs) h = elim (Bool-cases (x.src == s)) [
  | inl e ↦ absurd (ground arith)
  | inr e ↦ rw e (any_own_none s xs (ground arith))
]

-- A table whose counter is 0 holds no key.
pub bare_table :
    (c : Cuckoo) (p : ℕ → Bool) → IsSound 0 c → is_zero c.num ≡ true → p 0 ≡ false → total p c ≡ 0
bare_table c p v empty z =
    let none_left : total is_key c ≡ 0 =
      unfold is_zero in ground (arith, v.counted.1, v.counted.2) in
    omega (arith, none_left, total-le-keys p c z)
