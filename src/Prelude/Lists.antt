-- ===== src/Prelude/Lists.antt =====
-- Lists by native numbers and by Boolean tests, under the library's names.
use Prim.Native.Nat.{ℕ, zero, suc}
use mathlib.Core.Bool.{Bool, true, false, ◌||◌, ◌&&◌}
use mathlib.Core.List.{List, [], ◌∷◌, ◌++◌, map}
use mathlib.Core.Path.{◌≡◌, refl}
use mathlib.Core.Option.{Option, none, some}
use tele_cli.Prelude.Tests.{if◌then◌else◌}

module _ {ℓ} {A : Type ℓ} where
  abbrev pub length : List A → ℕ
  length [] = 0
  length (x ∷ xs) = suc (length xs)

  abbrev pub take : ℕ → List A → List A
  take zero xs = []
  take (suc n) [] = []
  take (suc n) (x ∷ xs) = x ∷ take n xs

  abbrev pub drop : ℕ → List A → List A
  drop zero xs = xs
  drop (suc n) [] = []
  drop (suc n) (x ∷ xs) = drop n xs

  -- xs[i] if i < len(xs) else None
  abbrev pub get_elem? : List A → ℕ → Option A
  get_elem? [] i = none
  get_elem? (x ∷ xs) zero = some x
  get_elem? (x ∷ xs) (suc i) = get_elem? xs i

  -- [x for x in xs if p(x)]
  abbrev pub filter : (A → Bool) → List A → List A
  filter p [] = []
  filter p (x ∷ xs) = let rest = filter p xs in if p x then x ∷ rest else rest

  -- next((x for x in xs if p(x)), None)
  abbrev pub find : (A → Bool) → List A → Option A
  find p [] = none
  find p (x ∷ xs) = let rest = find p xs in if p x then some x else rest

  abbrev pub any : (A → Bool) → List A → Bool
  any p [] = false
  any p (x ∷ xs) = p x || any p xs

  abbrev pub all : (A → Bool) → List A → Bool
  all p [] = true
  all p (x ∷ xs) = p x && all p xs

  -- xs[-1] of a list that may be empty
  abbrev pub get_last? : List A → Option A
  get_last? [] = none
  get_last? (x ∷ []) = some x
  get_last? (x ∷ y ∷ ys) = get_last? (y ∷ ys)

  -- A predicate by recursion, which the tactics read and build.
  abbrev pub All {κ} : (A → Type κ) → List A → Type κ
  All P [] = Unit
  All P (x ∷ xs) = P x × All P xs

module _ {ℓ κ} {A : Type ℓ} (P : A → Type κ) where
  pub All-append : (xs ys : List A) → All P xs → All P ys → All P (xs ++ ys)
  All-append [] ys p q = q
  All-append (x ∷ xs) ys p q = (p.0, All-append xs ys p.1 q)

  All-if : (b : Bool) (x : A) (xs : List A) → P x → All P xs → All P (if b then x ∷ xs else xs)
  All-if true x xs p q = (p, q)
  All-if false x xs p q = q

  pub All-filter : (f : A → Bool) (xs : List A) → All P xs → All P (filter f xs)
  All-filter f [] p = tt
  All-filter f (x ∷ xs) p = All-if (f x) x (filter f xs) p.0 (All-filter f xs p.1)

module _ {ℓ κ} {A B : Type ℓ} (P : A → Type κ) (Q : B → Type κ) where
  pub All-map : (f : A → B) (xs : List A) → ((x : A) → P x → Q (f x)) → All P xs → All Q (map f xs)
  All-map f [] h p = tt
  All-map f (x ∷ xs) h p = (h x p.0, All-map f xs h p.1)

module _ {ℓ κ} {A : Type ℓ} (P Q : A → Type κ) where
  pub All-mono : (xs : List A) → ((x : A) → P x → Q x) → All P xs → All Q xs
  All-mono [] h p = tt
  All-mono (x ∷ xs) h p = (h x p.0, All-mono xs h p.1)

  pub All-both : (xs : List A) → All P xs → All Q xs → All (λ x. P x × Q x) xs
  All-both [] p q = tt
  All-both (x ∷ xs) p q = ((p.0, q.0), All-both xs p.1 q.1)

-- R holds of the two lists position by position, and they are equally long.
abbrev pub Each {ℓ} : {A : Type ℓ} → (A → A → Type 0) → List A → List A → Type 0
Each R [] [] = Unit
Each R (x ∷ xs) (y ∷ ys) = R x y × Each R xs ys
Each R _ _ = ⊥

module _ {ℓ} {A : Type ℓ} (R : A → A → Type 0) where
  pub Each-map : (f : A → A) (xs : List A) → ((x : A) → R x (f x)) → Each R xs (map f xs)
  Each-map f [] h = tt
  Each-map f (x ∷ xs) h = (h x, Each-map f xs h)

  pub Each-trans :
      (xs ys zs : List A)
      → ((x y z : A) → R x y → R y z → R x z)
      → Each R xs ys
      → Each R ys zs
      → Each R xs zs
  Each-trans [] [] [] t p q = tt
  Each-trans (x ∷ xs) (y ∷ ys) (z ∷ zs) t p q = (t x y z p.0 q.0, Each-trans xs ys zs t p.1 q.1)
  Each-trans [] [] (z ∷ zs) t p q = absurd q
  Each-trans [] (y ∷ ys) zs t p q = absurd p
  Each-trans (x ∷ xs) [] zs t p q = absurd p
  Each-trans (x ∷ xs) (y ∷ ys) [] t p q = absurd q

module _ {ℓ} {A B : Type ℓ} where
  -- Two maps that agree on the list.
  pub map-All_eq : (f g : A → B) (xs : List A) → All (λ x. f x ≡ g x) xs → map f xs ≡ map g xs
  map-All_eq f g [] e = refl
  map-All_eq f g (x ∷ xs) e = rw (e.0, map-All_eq f g xs e.1)

pub All-every {ℓ κ} : {A : Type ℓ} (P : A → Type κ) (xs : List A) → ((x : A) → P x) → All P xs
All-every P [] h = tt
All-every P (x ∷ xs) h = (h x, All-every P xs h)
