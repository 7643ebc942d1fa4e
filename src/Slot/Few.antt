-- ===== src/Slot/Few.antt =====
-- `bSlot::insert` where the keys stand in place of the pointers: the new one goes in.
use cuckoo_graph.Prelude.{
  ℕ, suc, ◌+◌, ◌≤◌, ◌≡◌, ◌≢◌, ◌∙◌, refl, inl, inr, Bool, true, false, arith, to_nat, Bool-cases,
  none, some, List, [], ◌∷◌, ◌++◌, ◌==◌, tally, tally-append, ℤ, pos, negsuc, length, set,
}
use cuckoo_graph.Bucket.Scalar
use cuckoo_graph.Bucket.Tally.{scan_absent, overwrite-Replaces}
use cuckoo_graph.Cuckoo
use cuckoo_graph.Cuckoo.{Cuckoo}
use cuckoo_graph.Cuckoo.Invariant.{total, is, is_key}
use cuckoo_graph.Slot.{edge, World, few, grown, own, us1, us2, u1, u2, inline_keys, put_in}
use cuckoo_graph.Slot.Grow.{put_all, insert_few}
use cuckoo_graph.Slot.Shrink.{is_null}
use cuckoo_graph.Slot.Lists.{tally-le-keys}
use cuckoo_graph.Slot.Invariant.{Fits}
use cuckoo_graph.Slot.Place.{Holds, listed, put_in-Holds, new-Fits}
use cuckoo_graph.Slot.Growth.{Grows, built-Grows}

-- The keys of a list go into a table one after another.
put_all-Holds :
    {k : ℕ} (s : ℕ) (ks : List ℕ) (c : Cuckoo) (w : World)
    → Fits k c
    → listed (is 0) s w ≡ 0
    → tally (is 0) ks ≡ 0
    → ((j : ℕ) → j ≢ 0 → total (is j) c + listed (is j) s w + tally (is j) ks ≤ 1)
    → Holds k s (λ p. total p c + listed p s w + tally p ks) w (put_all s ks c w)
unfolding put_all tally
put_all-Holds s [] c w f live keyed fresh = record {
  fits = f;
  live = live;
  stocked = λ p z. omega arith;
  frame = λ t h. refl;
}
put_all-Holds s (x ∷ ks) c w f live keyed fresh =
    let nz : x ≢ 0 = ground arith in
    let h = put_in-Holds s x c w f live nz (ground (arith, fresh x nz)) in
    let (c', w') = put_in s x c w in
    let rest =
      put_all-Holds s ks c' w' h.fits h.live (ground arith)
        (λ j g. ground (arith, fresh j g, h.stocked (is j))) in
    record {
      fits = rest.fits;
      live = rest.live;
      stocked = λ p z. omega (arith, rest.stocked p z, h.stocked p z);
      frame = λ t g. rest.frame t g ∙ h.frame t g;
    }

keys-free : (ks : List ℕ) → tally is_key ks + tally (is 0) ks ≡ length ks
unfolding tally
keys-free [] = refl
keys-free (k ∷ ks) = ground (arith, keys-free ks)

-- Keys in place of the pointers.
few-Grows :
    (s d pt : ℕ) (ks : List ℕ) (before : (ℕ → Bool) → ℕ) (w : World)
    → length ks ≡ inline_keys
    → tally is_key ks ≡ pt
    → own s w.sblacklist ≡ []
    → ((p : ℕ → Bool) → p 0 ≡ false → tally p ks ≡ before p + to_nat (p d))
    → ((j : ℕ) → j ≢ 0 → before (is j) + to_nat (is j d) ≤ 1)
    → (code : ℤ) → Grows s d before w (some (code, record { src = s; slot = few pt ks }, w))
few-Grows s d pt ks before w wide counted unlisted gains fresh code = record {
  code = code;
  slot = record { src = s; slot = few pt ks };
  world = w;
  runs = refl;
  source = refl;
  valid = record {
    formed = (wide, counted, unlisted);
    unique = λ j h. omega (arith, fresh j h, gains (is j) (ground arith));
  };
  gains = gains;
  frame = λ t h. refl;
}

module _ (s d : ℕ) (w : World) (nz : d ≢ 0) (unlisted : own s w.sblacklist ≡ []) where
  -- A slot without keys takes the source over.
  pub first_key-Grows :
      (ks : List ℕ)
      → length ks ≡ inline_keys
      → tally is_key ks ≡ 0
      → Grows s d (λ p. 0) w (some (pos 1, record { src = s; slot = few 1 (set ks 0 d) }, w))
  unfolding tally
  first_key-Grows [] wide counted = absurd (omega arith)
  first_key-Grows (x ∷ ks) wide counted =
      few-Grows s d 1 (d ∷ ks) (λ p. 0) w wide (ground arith) unlisted
        (λ p z. omega (arith, tally-le-keys p ks z)) (λ j h. ground arith) (pos 1)

  -- The six keys and the new one go into a table.
  full-Grows :
      (pt : ℕ) (ks : List ℕ)
      → length ks ≡ inline_keys
      → tally is_key ks ≡ pt
      → (pt == inline_keys) ≡ true
      → ((j : ℕ) → j ≢ 0 → tally (is j) ks + to_nat (is j d) ≤ 1)
      → let (c, w') = put_all s (ks ++ d ∷ []) (Cuckoo.new u1 u2 us1 us2) w in
        Grows s d
          (λ p. tally p ks)
          w
          (some (negsuc 0, record { src = s; slot = grown (some c) none none }, w'))
  unfolding tally
  full-Grows pt ks wide counted full once =
      let (fits, bare) = new-Fits 1 u1 u2 refl refl in
      let none_listed : (p : ℕ → Bool) → listed p s w ≡ 0 = λ p. rw unlisted refl in
      let all = λ (p : ℕ → Bool). tally-append p ks (d ∷ []) in
      let h =
        put_all-Holds s (ks ++ d ∷ []) (Cuckoo.new u1 u2 us1 us2) w fits (none_listed (is 0))
          (ground (arith, all (is 0), keys-free ks))
          (λ j g. ground (arith, once j g, all (is j), none_listed (is j), bare (is j))) in
      let (c, w') = put_all s (ks ++ d ∷ []) (Cuckoo.new u1 u2 us1 us2) w in
      built-Grows s d w nz (none_listed (is 0)) (λ p. tally p ks) (negsuc 0) (some c) none none w'
        (record {
          log = 0;
          fits0 = h.fits;
          fits1 = tt;
          fits2 = tt;
          order1 = λ e. unfold is_null in refl;
          order2 = λ e. unfold is_null in refl;
        })
        h.live (λ p z. omega (arith, h.stocked p z, bare p z, none_listed p, all p)) once h.frame

  -- One more key in place of the pointers, or all of them and the new one in a table.
  pub insert_few-Grows :
      (pt : ℕ) (ks : List ℕ)
      → length ks ≡ inline_keys
      → tally is_key ks ≡ pt
      → ((j : ℕ) → j ≢ 0 → tally (is j) ks ≤ 1)
      → Scalar.query d ks ≡ false
      → Grows s d (λ p. tally p ks) w (insert_few (edge s d) pt ks w)
  unfolding insert_few
  insert_few-Grows pt ks wide counted unique fresh =
      let absent = scan_absent d ks fresh in
      let once : (j : ℕ) → j ≢ 0 → tally (is j) ks + to_nat (is j d) ≤ 1 =
        λ j h. ground (arith, unique j h, absent) in
      elim (Bool-cases (pt == inline_keys)) [
        | inl full ↦
            rw (fresh, insert_few) (rw (full, insert_few) (full-Grows pt ks wide counted full once))
        | inr more ↦
            let zero_there : Scalar.query 0 ks ≡ true = elim (Bool-cases (Scalar.query 0 ks)) [
              | inl e ↦ e
              | inr e ↦ absurd (ground (arith, scan_absent 0 ks e, keys-free ks))
            ] in
            let (ks', stored, r) = overwrite-Replaces 0 d ks zero_there in
            rw (fresh, insert_few)
              (rw (more, insert_few)
                (rw (stored, insert_few)
                  (few-Grows s d (suc pt) ks' (λ p. tally p ks) w (r.width ∙ wide)
                    (ground (arith, r.tallies is_key)) unlisted (λ p z. ground (arith, r.tallies p))
                    once (pos (suc pt)))))
      ]
