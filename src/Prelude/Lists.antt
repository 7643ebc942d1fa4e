-- ===== src/Prelude/Lists.antt =====
-- Lists measured and indexed by native numbers, and the number of entries that pass a test.
use Prim.Native.Nat.{ℕ, zero, suc, ◌+◌, ◌-◌, ◌≤◌, ◌<◌}
use mathlib.Core.Bool.{Bool, true, false}
use mathlib.Core.List.{List, [], ◌∷◌, ◌++◌, flatten}
use mathlib.Core.Path.{◌≡◌, refl, ap, ◌∙◌}
use native.Mathlib.Omega.{arith}
use cuckoo_graph.Prelude.Tests.{◌==◌, ltb, if◌then◌else◌, to_nat}

module _ {ℓ} {A : Type ℓ} where
  abbrev pub length : List A → ℕ
  length [] = 0
  length (x ∷ xs) = suc (length xs)

  abbrev pub get_or : List A → ℕ → A → A
  get_or [] i d = d
  get_or (x ∷ xs) zero d = x
  get_or (x ∷ xs) (suc i) d = get_or xs i d

  -- A write out of bounds changes nothing.
  abbrev pub set : List A → ℕ → A → List A
  set [] i v = []
  set (x ∷ xs) zero v = v ∷ xs
  set (x ∷ xs) (suc i) v = x ∷ set xs i v

  abbrev pub replicate : ℕ → A → List A
  replicate zero a = []
  replicate (suc n) a = a ∷ replicate n a

  abbrev pub take : ℕ → List A → List A
  take zero xs = []
  take (suc n) [] = []
  take (suc n) (x ∷ xs) = x ∷ take n xs

  abbrev pub drop : ℕ → List A → List A
  drop zero xs = xs
  drop (suc n) [] = []
  drop (suc n) (x ∷ xs) = drop n xs

  abbrev pub All {κ} : (A → Type κ) → List A → Type κ
  All P [] = Unit
  All P (x ∷ xs) = P x × All P xs

  pub length-append : (xs ys : List A) → length (xs ++ ys) ≡ length xs + length ys
  length-append [] ys = omega arith
  length-append (x ∷ xs) ys = omega (arith, length-append xs ys)

  pub length-set : (xs : List A) (i : ℕ) (v : A) → length (set xs i v) ≡ length xs
  length-set [] i v = refl
  length-set (x ∷ xs) zero v = refl
  length-set (x ∷ xs) (suc i) v = ap suc (length-set xs i v)

  pub length-replicate : (n : ℕ) (a : A) → length (replicate n a) ≡ n
  length-replicate zero a = refl
  length-replicate (suc n) a = ap suc (length-replicate n a)

  pub get_or-set :
      (xs : List A) (i j : ℕ) (v d : A)
      → i < length xs
      → get_or (set xs i v) j d ≡ (if i == j then v else get_or xs j d)
  get_or-set [] i j v d h = absurd (omega arith)
  get_or-set (x ∷ xs) zero zero v d h = ground arith
  get_or-set (x ∷ xs) zero (suc j) v d h = ground arith
  get_or-set (x ∷ xs) (suc i) zero v d h = ground arith
  get_or-set (x ∷ xs) (suc i) (suc j) v d h = ground (arith, get_or-set xs i j v d)

  pub get_or-set_self :
      (xs : List A) (i : ℕ) (v d : A) → i < length xs → get_or (set xs i v) i d ≡ v
  get_or-set_self xs i v d h = ground (arith, get_or-set xs i i v d)

  pub get_or-replicate :
      (n i : ℕ) (a d : A) → get_or (replicate n a) i d ≡ (if ltb i n then a else d)
  get_or-replicate zero i a d = ground arith
  get_or-replicate (suc n) zero a d = ground arith
  get_or-replicate (suc n) (suc i) a d = ground (arith, get_or-replicate n i a d)

  -- How many entries pass the test.
  unfoldable pub tally : (A → Bool) → List A → ℕ
  tally p [] = 0
  tally p (x ∷ xs) = to_nat (p x) + tally p xs

  pub tally-append : (p : A → Bool) (xs ys : List A) → tally p (xs ++ ys) ≡ tally p xs + tally p ys
  unfolding tally
  tally-append p [] ys = omega arith
  tally-append p (x ∷ xs) ys = omega (arith, tally-append p xs ys)

  pub tally-set :
      (p : A → Bool) (xs : List A) (i : ℕ) (v d : A)
      → i < length xs
      → tally p (set xs i v) + to_nat (p (get_or xs i d)) ≡ tally p xs + to_nat (p v)
  unfolding tally
  tally-set p [] i v d h = absurd (omega arith)
  tally-set p (x ∷ xs) zero v d h = omega arith
  tally-set p (x ∷ xs) (suc i) v d h = omega (arith, tally-set p xs i v d)

module _ {ℓ} {A : Type ℓ} where
  -- The same over a list of lists, of which one is replaced.
  pub tally-flatten-set :
      (p : A → Bool) (bs : List (List A)) (i : ℕ) (b : List A)
      → i < length bs
      → tally p (flatten (set bs i b)) + tally p (get_or bs i []) ≡ tally p (flatten bs) + tally p b
  unfolding flatten
  tally-flatten-set p [] i b h = absurd (omega arith)
  tally-flatten-set p (c ∷ bs) zero b h =
      omega (arith, tally-append p b (flatten bs), tally-append p c (flatten bs))
  tally-flatten-set p (c ∷ bs) (suc i) b h = omega (
    arith,
    tally-flatten-set p bs i b,
    tally-append p c (flatten bs),
    tally-append p c (flatten (set bs i b)),
  )

  pub tally-flatten_le :
      (p : A → Bool) (bs : List (List A)) (i : ℕ) → tally p (get_or bs i []) ≤ tally p (flatten bs)
  unfolding flatten tally
  tally-flatten_le p [] i = omega arith
  tally-flatten_le p (c ∷ bs) zero = omega (arith, tally-append p c (flatten bs))
  tally-flatten_le p (c ∷ bs) (suc i) =
      omega (arith, tally-flatten_le p bs i, tally-append p c (flatten bs))

  tally-flatten_nowhere :
      (p : A → Bool) (bs : List (List A))
      → ((i : ℕ) → tally p (get_or bs i []) ≡ 0)
      → tally p (flatten bs) ≡ 0
  unfolding flatten tally
  tally-flatten_nowhere p [] h = refl
  tally-flatten_nowhere p (c ∷ bs) h =
      omega (arith, tally-append p c (flatten bs), h 0, tally-flatten_nowhere p bs (λ i. h (suc i)))

  -- Where all entries that pass stand in one list, that list counts them.
  pub tally-flatten_only :
      (p : A → Bool) (bs : List (List A)) (j : ℕ)
      → ((i : ℕ) → (i == j) ≡ false → tally p (get_or bs i []) ≡ 0)
      → tally p (flatten bs) ≡ tally p (get_or bs j [])
  unfolding flatten tally
  tally-flatten_only p [] j h = refl
  tally-flatten_only p (c ∷ bs) zero h = omega (
    arith,
    tally-append p c (flatten bs),
    tally-flatten_nowhere p bs (λ i. h (suc i) (ground arith)),
  )
  tally-flatten_only p (c ∷ bs) (suc j) h = omega (
    arith,
    tally-append p c (flatten bs),
    h 0 (ground arith),
    tally-flatten_only p bs j (λ i e. h (suc i) (ground arith)),
  )

  pub tally_empty :
      (p : A → Bool) (n : ℕ) (b : List A) → tally p b ≡ 0 → tally p (flatten (replicate n b)) ≡ 0
  unfolding flatten tally
  tally_empty p zero b h = refl
  tally_empty p (suc n) b h =
      omega (arith, tally-append p b (flatten (replicate n b)), tally_empty p n b h)

module _ {ℓ} {A : Type ℓ} where
  -- `ys` has the entries of `xs`, but one `old` fewer and one `new` more.
  pub record Replaces (old new : A) (xs ys : List A) : Type ℓ where
    pub width : length ys ≡ length xs
    pub tallies : (p : A → Bool) → tally p ys + to_nat (p old) ≡ tally p xs + to_nat (p new)

  pub Replaces-set :
      (xs : List A) (i : ℕ) (v d : A) → i < length xs → Replaces (get_or xs i d) v xs (set xs i v)
  Replaces-set xs i v d h = record {
    width = length-set xs i v;
    tallies = λ p. tally-set p xs i v d h;
  }

  pub set-get_or : (xs : List A) (i : ℕ) (d : A) → set xs i (get_or xs i d) ≡ xs
  set-get_or [] i d = refl
  set-get_or (x ∷ xs) zero d = refl
  set-get_or (x ∷ xs) (suc i) d = ap (◌∷◌ x) (set-get_or xs i d)

  pub tally_mono :
      (p q : A → Bool) (xs : List A) → ((x : A) → p x ≡ true → q x ≡ true) → tally p xs ≤ tally q xs
  unfolding tally
  tally_mono p q [] h = omega arith
  tally_mono p q (x ∷ xs) h = ground (arith, h x, tally_mono p q xs h)

  pub get_or-append :
      (xs ys : List A) (i : ℕ) (d : A)
      → get_or (xs ++ ys) i d
        ≡ (if ltb i (length xs) then get_or xs i d else get_or ys (i - length xs) d)
  get_or-append [] ys i d = ground arith
  get_or-append (x ∷ xs) ys zero d = ground arith
  get_or-append (x ∷ xs) ys (suc i) d = ground (arith, get_or-append xs ys i d)

module _ {ℓ} {A : Type ℓ} where
  pub tally-flatten-append :
      (p : A → Bool) (xs ys : List (List A))
      → tally p (flatten (xs ++ ys)) ≡ tally p (flatten xs) + tally p (flatten ys)
  unfolding flatten tally
  tally-flatten-append p [] ys = omega arith
  tally-flatten-append p (x ∷ xs) ys = omega (
    arith,
    tally-append p x (flatten xs),
    tally-append p x (flatten (xs ++ ys)),
    tally-flatten-append p xs ys,
  )

module _ {ℓ} {A : Type ℓ} where
  pub take-append-drop : (n : ℕ) (xs : List A) → take n xs ++ drop n xs ≡ xs
  take-append-drop zero xs = refl
  take-append-drop (suc n) [] = refl
  take-append-drop (suc n) (x ∷ xs) = ap (◌∷◌ x) (take-append-drop n xs)

  pub length-take : (n : ℕ) (xs : List A) → n ≤ length xs → length (take n xs) ≡ n
  length-take zero xs h = refl
  length-take (suc n) [] h = absurd (omega arith)
  length-take (suc n) (x ∷ xs) h = ap suc (length-take n xs (omega arith))

  pub get_or-take :
      (n : ℕ) (xs : List A) (i : ℕ) (d : A)
      → get_or (take n xs) i d ≡ (if ltb i n then get_or xs i d else d)
  get_or-take zero xs i d = ground arith
  get_or-take (suc n) [] i d = ground arith
  get_or-take (suc n) (x ∷ xs) zero d = ground arith
  get_or-take (suc n) (x ∷ xs) (suc i) d = ground (arith, get_or-take n xs i d)

  pub get_or-drop :
      (n : ℕ) (xs : List A) (i : ℕ) (d : A) → get_or (drop n xs) i d ≡ get_or xs (n + i) d
  get_or-drop zero xs i d = let e : i ≡ zero + i = omega arith in ap (λ k. get_or xs k d) e
  get_or-drop (suc n) [] i d = refl
  get_or-drop (suc n) (x ∷ xs) i d =
      let e : suc (n + i) ≡ suc n + i = omega arith in
      get_or-drop n xs i d ∙ ap (λ k. get_or (x ∷ xs) k d) e

  pub get_or_beyond : (xs : List A) (i : ℕ) (d : A) → length xs ≤ i → get_or xs i d ≡ d
  get_or_beyond [] i d h = refl
  get_or_beyond (x ∷ xs) zero d h = absurd (omega arith)
  get_or_beyond (x ∷ xs) (suc i) d h = get_or_beyond xs i d (omega arith)
