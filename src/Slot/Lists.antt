-- ===== src/Slot/Lists.antt =====
-- The list `sblacklist` by the source of its edges.
use mathlib.Core.Bool.{false≢true}
use cuckoo_graph.Prelude.{
  to_nat, if◌then◌else◌, ◌+◌, tally_mono, ◌≤◌, ◌∙◌, ℕ, ◌≡◌, ◌≢◌, refl, inl, inr, true, false, List,
  [], ◌∷◌, ◌++◌, ◌==◌, arith, map, Bool-cases, ==_refl, ap, Bool, ◌↔◌, ◌<◌, tally, ==_of_ne, sym,
}
use cuckoo_graph.Slot.{Edge, edge, own, others, on_list}
use cuckoo_graph.Slot.Shrink.{purge}
use cuckoo_graph.Cuckoo.Invariant.{is, is_key}

pub own-append : (s : ℕ) (xs ys : List Edge) → own s (xs ++ ys) ≡ own s xs ++ own s ys
unfolding own
own-append s [] ys = refl
own-append s (x ∷ xs) ys = elim (Bool-cases (x.src == s)) [
  | inl e ↦ rw e (ap (λ l. x.dst ∷ l) (own-append s xs ys))
  | inr e ↦ rw e (own-append s xs ys)
]

pub own-others : (s : ℕ) (xs : List Edge) → own s (others s xs) ≡ []
unfolding own others
own-others s [] = refl
own-others s (x ∷ xs) = elim (Bool-cases (x.src == s)) [
  | inl e ↦ rw e (own-others s xs)
  | inr e ↦ rw (e, e) (own-others s xs)
]

pub own-map : (s : ℕ) (ks : List ℕ) → own s (map (edge s) ks) ≡ ks
unfolding own
own-map s [] = refl
own-map s (k ∷ ks) = rw (==_refl s) (ap (λ l. k ∷ l) (own-map s ks))

-- The edges of another source.
pub own-others_ne : (s t : ℕ) (xs : List Edge) → t ≢ s → own t (others s xs) ≡ own t xs
unfolding own others
own-others_ne s t [] h = refl
own-others_ne s t (x ∷ xs) h = elim (Bool-cases (x.src == s)) [
  | inl e ↦
      let other : (x.src == t) ≡ false = ground (arith, e) in rw (e, other) (own-others_ne s t xs h)
  | inr e ↦ rw e (elim (Bool-cases (x.src == t)) [
    | inl f ↦ rw f (ap (λ l. x.dst ∷ l) (own-others_ne s t xs h))
    | inr f ↦ rw f (own-others_ne s t xs h)
  ])
]

pub own-map_ne : (s t : ℕ) (ks : List ℕ) → t ≢ s → own t (map (edge s) ks) ≡ []
unfolding own
own-map_ne s t [] h = refl
own-map_ne s t (k ∷ ks) h = rw (==_of_ne s t (λ e. h (sym e))) (own-map_ne s t ks h)

pub on_list-own :
    (s d : ℕ) (xs : List Edge) → (on_list (edge s d) xs ≡ true) ↔ (0 < tally (is d) (own s xs))
unfolding on_list own tally
on_list-own s d [] = ground arith
on_list-own s d (x ∷ xs) = ground (arith, on_list-own s d xs)

-- A test that no free slot passes, passes no more often than there are keys.
pub tally-le-keys : (p : ℕ → Bool) (ks : List ℕ) → p 0 ≡ false → tally p ks ≤ tally is_key ks
tally-le-keys p ks z = tally_mono p is_key ks λ x h. elim (Bool-cases (x == 0)) [
  | inl e ↦ let same : x ≡ 0 = ground arith in absurd (false≢true (sym z ∙ (rw same at h)))
  | inr e ↦ rw e
]

-- `purge` takes the edge out of the list, where it stands once at most, and says whether it did.
pub purge-own :
    (s d : ℕ) (xs : List Edge) (p : ℕ → Bool)
    → tally (is d) (own s xs) ≤ 1
    → let (rest, f2, flag) = purge (edge s d) xs in
      (tally p (own s rest) + (if f2 then to_nat (p d) else 0) ≡ tally p (own s xs))
      × ((f2 ≡ true) ↔ (0 < tally (is d) (own s xs)))
unfolding purge own tally
purge-own s d [] p h = (refl, ground arith)
purge-own s d (x ∷ xs) p h = elim (Bool-cases (x.src == s)) [
  | inr e ↦ rw e (rw e (purge-own s d xs p (ground arith)))
  | inl e ↦ elim (Bool-cases (x.dst == d)) [
    | inl f ↦
        let rest = purge-own s d xs p (ground arith) in
        let same : x.dst ≡ d = ground arith in
        (ground (arith, rest, ap (λ k. to_nat (p k)) same), ground (arith, rest))
    | inr f ↦
        let rest = purge-own s d xs p (ground arith) in (ground (arith, rest), ground (arith, rest))
  ]
]

pub purge-own_ne : (s d t : ℕ) (xs : List Edge) → t ≢ s → own t (purge (edge s d) xs).0 ≡ own t xs
unfolding purge own
purge-own_ne s d t [] h = refl
purge-own_ne s d t (x ∷ xs) h = elim (Bool-cases (x.src == s)) [
  | inl e ↦
      let other : (x.src == t) ≡ false = ground (arith, e) in
      elim (Bool-cases (x.dst == d)) [
        | inl f ↦ rw e (rw f (rw other (purge-own_ne s d t xs h)))
        | inr f ↦ rw e (rw f (rw other (purge-own_ne s d t xs h)))
      ]
  | inr e ↦ rw e (elim (Bool-cases (x.src == t)) [
    | inl f ↦ rw f (ap (λ l. x.dst ∷ l) (purge-own_ne s d t xs h))
    | inr f ↦ rw f (purge-own_ne s d t xs h)
  ])
]
