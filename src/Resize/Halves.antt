-- ===== src/Resize/Halves.antt =====
-- CuckooGraph/main.cpp, the loops of mergehash1::expand and of bSlot::merge and holemerge::merge that
-- clear each entry in one of the two copies of its bucket. An entry is a key or a slot.
use cuckoo_graph.Prelude.{
  ℕ, zero, suc, ◌+◌, ◌*◌, ◌<◌, ◌≡◌, ◌⊎◌, ◌∙◌, ap, refl, Bool, false, List, [], ◌∷◌, ◌==◌, arith,
  length as size, get_or, flatten, map, tally, tally-append, mod_double, if◌then◌else◌,
}
use native.Mathlib.Nat.{add-zero}
use cuckoo_graph.Hash.{home, mmhash}
use cuckoo_graph.Layer.Placement.{strays}

module _ {ℓ} {A : Type ℓ} (key : A → ℕ) (blank : A) where
  -- After the two `memcpy` calls bucket `i` stands at `i` and at `i + l`. The loops over the entries
  -- clear each entry in one of the two places.
  unfoldable pub lower : ℕ → ℕ → ℕ → List A → List A
  lower seed width i b =
      map (λ x. if key x == 0 then x else if i == home (key x) seed width then x else blank) b

  unfoldable pub upper : ℕ → ℕ → ℕ → List A → List A
  upper seed width i b =
      map (λ x. if key x == 0 then x else if i == home (key x) seed width then blank else x) b

  unfoldable pub lowers : ℕ → ℕ → ℕ → List (List A) → List (List A)
  lowers seed width i [] = []
  lowers seed width i (b ∷ bs) = lower seed width i b ∷ lowers seed width (suc i) bs

  unfoldable pub uppers : ℕ → ℕ → ℕ → List (List A) → List (List A)
  uppers seed width i [] = []
  uppers seed width i (b ∷ bs) = upper seed width i b ∷ uppers seed width (suc i) bs

-- A key of bucket `i` belongs, at twice the width, in bucket `i` or one width above it.
pub home_double :
    (key seed l : ℕ)
    → 0 < l
    → (home key seed (l * 2) ≡ home key seed l) ⊎ (home key seed (l * 2) ≡ home key seed l + l)
unfolding home
home_double key seed l h = mod_double (mmhash key seed) l h

module _ {ℓ} {A : Type ℓ} (key : A → ℕ) (blank : A) (seed l : ℕ) where
  pub get_or-lowers :
      (i j : ℕ) (bs : List (List A))
      → get_or (lowers key blank seed (l * 2) i bs) j []
        ≡ lower key blank seed (l * 2) (i + j) (get_or bs j [])
  unfolding lowers lower
  get_or-lowers i j [] = refl
  get_or-lowers i zero (b ∷ bs) = rw add-zero
  get_or-lowers i (suc j) (b ∷ bs) =
      get_or-lowers (suc i) j bs
      ∙ ap (λ k. lower key blank seed (l * 2) k (get_or bs j [])) (omega arith)

  pub get_or-uppers :
      (i j : ℕ) (bs : List (List A))
      → get_or (uppers key blank seed (l * 2) i bs) j []
        ≡ upper key blank seed (l * 2) (i + j) (get_or bs j [])
  unfolding uppers upper
  get_or-uppers i j [] = refl
  get_or-uppers i zero (b ∷ bs) = rw add-zero
  get_or-uppers i (suc j) (b ∷ bs) =
      get_or-uppers (suc i) j bs
      ∙ ap (λ k. upper key blank seed (l * 2) k (get_or bs j [])) (omega arith)

  pub size-lowers :
      (i : ℕ) (bs : List (List A)) → size (lowers key blank seed (l * 2) i bs) ≡ size bs
  unfolding lowers
  size-lowers i [] = refl
  size-lowers i (b ∷ bs) = ap suc (size-lowers (suc i) bs)

  pub size-uppers :
      (i : ℕ) (bs : List (List A)) → size (uppers key blank seed (l * 2) i bs) ≡ size bs
  unfolding uppers
  size-uppers i [] = refl
  size-uppers i (b ∷ bs) = ap suc (size-uppers (suc i) bs)

  pub size-lower : (i : ℕ) (b : List A) → size (lower key blank seed (l * 2) i b) ≡ size b
  unfolding lower
  size-lower i [] = refl
  size-lower i (x ∷ b) = ap suc (size-lower i b)

  pub size-upper : (i : ℕ) (b : List A) → size (upper key blank seed (l * 2) i b) ≡ size b
  unfolding upper
  size-upper i [] = refl
  size-upper i (x ∷ b) = ap suc (size-upper i b)

module _ {ℓ} {A : Type ℓ} (key : A → ℕ) (blank : A) (bare : key blank ≡ 0) (seed l : ℕ) where
  abbrev by : (ℕ → Bool) → A → Bool
  by p x = p (key x)

  halves_tally :
      (p : ℕ → Bool) (i : ℕ) (b : List A)
      → p 0 ≡ false
      → tally (by p) (lower key blank seed (l * 2) i b)
          + tally (by p) (upper key blank seed (l * 2) i b)
        ≡ tally (by p) b
  unfolding lower upper tally
  halves_tally p i [] z = refl
  halves_tally p i (x ∷ b) z = ground (arith, halves_tally p i b)

  pub all_halves_tally :
      (p : ℕ → Bool) (i : ℕ) (bs : List (List A))
      → p 0 ≡ false
      → tally (by p) (flatten (lowers key blank seed (l * 2) i bs))
          + tally (by p) (flatten (uppers key blank seed (l * 2) i bs))
        ≡ tally (by p) (flatten bs)
  unfolding lowers uppers tally flatten
  all_halves_tally p i [] z = refl
  all_halves_tally p i (b ∷ bs) z = omega (
    arith,
    halves_tally p i b z,
    all_halves_tally p (suc i) bs z,
    tally-append (by p) b (flatten bs),
    tally-append (by p) (lower key blank seed (l * 2) i b)
        (flatten (lowers key blank seed (l * 2) (suc i) bs)),
    tally-append (by p) (upper key blank seed (l * 2) i b)
        (flatten (uppers key blank seed (l * 2) (suc i) bs)),
  )

  pub lower_placed :
      (i : ℕ) (b : List A)
      → tally (by (strays seed (l * 2) i)) (lower key blank seed (l * 2) i b) ≡ 0
  unfolding lower tally
  lower_placed i [] = refl
  lower_placed i (x ∷ b) = ground (arith, lower_placed i b)

  pub upper_placed :
      (i : ℕ) (b : List A)
      → 0 < l
      → tally (by (strays seed l i)) b ≡ 0
      → tally (by (strays seed (l * 2) (i + l))) (upper key blank seed (l * 2) i b) ≡ 0
  unfolding upper tally
  upper_placed i [] h none = refl
  upper_placed i (x ∷ b) h none = ground (arith, home_double (key x) seed l h, upper_placed i b h)
