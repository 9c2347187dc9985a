-- ===== src/Splitting/Inks.antt =====
-- The characters of a text that are no spaces, and what str.strip and slices do to them and to lengths.
use tele_cli.Prelude.{
  ℕ, zero, suc, ◌+◌, ◌-◌, ◌≤◌, ◌<◌, ◌≡◌, ◌≢◌, refl, ◌∙◌, ap, inl, inr, String, false, List, [], ◌∷◌,
  ◌++◌, if◌then◌else◌, strip, lstrip, is_space, reverse_onto, text_length, take_text, drop_text,
  arith, Bool-cases,
}
use Prim.Native.Char.{Char}
use Prim.Native.String as Text

-- the characters that are no spaces
unfoldable pub inks : String → List Char
inks Text.[] = []
inks (Text.◌∷◌ c s) = let rest = inks s in if is_space c then rest else c ∷ rest

turn : List Char → List Char → List Char
turn [] acc = acc
turn (c ∷ s) acc = turn s (c ∷ acc)

turn-turn : (s t u : List Char) → turn (turn s t) u ≡ turn t (s ++ u)
unfolding turn
turn-turn [] t u = refl
turn-turn (c ∷ s) t u = turn-turn s (c ∷ t) u

append-nil : (s : List Char) → s ++ [] ≡ s
append-nil [] = refl
append-nil (c ∷ s) = ap (λ t. c ∷ t) (append-nil s)

pub inks-lstrip : (s : String) → inks (lstrip s) ≡ inks s
unfolding inks lstrip
inks-lstrip Text.[] = refl
inks-lstrip (Text.◌∷◌ c s) = elim (Bool-cases (is_space c)) [
  | inl e ↦ rw e (inks-lstrip s)
  | inr e ↦ rw (e, e) refl
]

inks-reverse_onto : (s t : String) → inks (reverse_onto s t) ≡ turn (inks s) (inks t)
unfolding inks reverse_onto turn
inks-reverse_onto Text.[] t = refl
inks-reverse_onto (Text.◌∷◌ c s) t = elim (Bool-cases (is_space c)) [
  | inl e ↦ inks-reverse_onto s (Text.◌∷◌ c t) ∙ rw e refl
  | inr e ↦ inks-reverse_onto s (Text.◌∷◌ c t) ∙ rw e refl
]

pub inks-strip : (s : String) → inks (strip s) ≡ inks s
unfolding strip inks turn
inks-strip s =
    inks-reverse_onto (lstrip (reverse_onto (lstrip s) Text.[])) Text.[]
    ∙ ap (λ u. turn u [])
        (inks-lstrip (reverse_onto (lstrip s) Text.[]) ∙ inks-reverse_onto (lstrip s) Text.[])
    ∙ turn-turn (inks (lstrip s)) [] []
    ∙ append-nil (inks (lstrip s))
    ∙ inks-lstrip s

-- A slice and the rest have all of it.
pub inks-slices : (n : ℕ) (s : String) → inks (take_text n s) ++ inks (drop_text n s) ≡ inks s
unfolding inks take_text drop_text
inks-slices zero s = refl
inks-slices (suc n) Text.[] = refl
inks-slices (suc n) (Text.◌∷◌ c s) = elim (Bool-cases (is_space c)) [
  | inl e ↦ rw e (inks-slices n s)
  | inr e ↦ rw e (ap (λ t. c ∷ t) (inks-slices n s))
]

-- The text begins with no space.
unfoldable pub IsFlush : String → Type 0
IsFlush Text.[] = Unit
IsFlush (Text.◌∷◌ c s) = is_space c ≡ false

pub lstrip-IsFlush : (s : String) → IsFlush (lstrip s)
unfolding lstrip IsFlush
lstrip-IsFlush Text.[] = tt
lstrip-IsFlush (Text.◌∷◌ c s) = elim (Bool-cases (is_space c)) [
  | inl e ↦ rw e (lstrip-IsFlush s)
  | inr e ↦ rw e e
]

Ends : Char → String → Type 0
Ends c Text.[] = ⊥
Ends c (Text.◌∷◌ d Text.[]) = d ≡ c
Ends c (Text.◌∷◌ d (Text.◌∷◌ e s)) = Ends c (Text.◌∷◌ e s)

Ends-cons : (c d : Char) (s : String) → Ends c s → Ends c (Text.◌∷◌ d s)
unfolding Ends
Ends-cons c d (Text.◌∷◌ e s) h = h
Ends-cons c d Text.[] h = absurd h

reverse_onto-Ends : (c : Char) (s t : String) → Ends c t → Ends c (reverse_onto s t)
unfolding reverse_onto
reverse_onto-Ends c Text.[] t h = h
reverse_onto-Ends c (Text.◌∷◌ d s) t h = reverse_onto-Ends c s (Text.◌∷◌ d t) (Ends-cons c d t h)

lstrip-Ends : (c : Char) (s : String) → is_space c ≡ false → Ends c s → Ends c (lstrip s)
unfolding Ends lstrip
lstrip-Ends c Text.[] n h = absurd h
lstrip-Ends c (Text.◌∷◌ d Text.[]) n h = rw (h, n) refl
lstrip-Ends c (Text.◌∷◌ d (Text.◌∷◌ e s)) n h = elim (Bool-cases (is_space d)) [
  | inl q ↦ rw q (lstrip-Ends c (Text.◌∷◌ e s) n h)
  | inr q ↦ rw q h
]

Ends-IsFlush :
    (c : Char) (s t : String) → is_space c ≡ false → Ends c s → IsFlush (reverse_onto s t)
unfolding Ends reverse_onto IsFlush
Ends-IsFlush c Text.[] t n h = absurd h
Ends-IsFlush c (Text.◌∷◌ d Text.[]) t n h = rw (h, n) refl
Ends-IsFlush c (Text.◌∷◌ d (Text.◌∷◌ e s)) t n h = Ends-IsFlush c (Text.◌∷◌ e s) (Text.◌∷◌ d t) n h

turned-IsFlush :
    (s : String) → IsFlush s → IsFlush (reverse_onto (lstrip (reverse_onto s Text.[])) Text.[])
unfolding IsFlush reverse_onto lstrip Ends
turned-IsFlush Text.[] f = tt
turned-IsFlush (Text.◌∷◌ c s) f =
    Ends-IsFlush c (lstrip (reverse_onto s (Text.◌∷◌ c Text.[]))) Text.[] f (
      lstrip-Ends c (reverse_onto s (Text.◌∷◌ c Text.[])) f
        (reverse_onto-Ends c s (Text.◌∷◌ c Text.[]) refl))

pub strip-IsFlush : (s : String) → IsFlush (strip s)
unfolding strip
strip-IsFlush s = turned-IsFlush (lstrip s) (lstrip-IsFlush s)

pub lstrip-length : (s : String) → text_length (lstrip s) ≤ text_length s
unfolding lstrip text_length
lstrip-length Text.[] = omega arith
lstrip-length (Text.◌∷◌ c s) = elim (Bool-cases (is_space c)) [
  | inl e ↦ rw e (let h = lstrip-length s in omega arith)
  | inr e ↦ rw e (omega arith)
]

reverse_onto-length :
    (s t : String) → text_length (reverse_onto s t) ≡ text_length s + text_length t
unfolding reverse_onto text_length
reverse_onto-length Text.[] t = omega arith
reverse_onto-length (Text.◌∷◌ c s) t = let h = reverse_onto-length s (Text.◌∷◌ c t) in omega arith

pub strip-length : (s : String) → text_length (strip s) ≤ text_length s
unfolding strip text_length
strip-length s =
    let t = lstrip s in
    let u = reverse_onto t Text.[] in
    let a = lstrip-length s in
    let b = reverse_onto-length t Text.[] in
    let d = lstrip-length u in let e = reverse_onto-length (lstrip u) Text.[] in omega arith

pub take_text-length : (n : ℕ) (s : String) → text_length (take_text n s) ≤ n
unfolding take_text text_length
take_text-length zero s = omega arith
take_text-length (suc n) Text.[] = omega arith
take_text-length (suc n) (Text.◌∷◌ c s) = let h = take_text-length n s in omega arith

pub drop_text-length : (n : ℕ) (s : String) → text_length (drop_text n s) ≡ text_length s - n
unfolding drop_text text_length
drop_text-length zero s = omega arith
drop_text-length (suc n) Text.[] = omega arith
drop_text-length (suc n) (Text.◌∷◌ c s) = let h = drop_text-length n s in omega arith

-- A slice of a text that begins with no space has a character that is no space.
pub take-inks :
    (n : ℕ) (s : String) → IsFlush s → 0 < n → 0 < text_length s → inks (take_text n s) ≢ []
unfolding IsFlush take_text text_length inks
take-inks zero s f h k = absurd (omega arith)
take-inks (suc n) Text.[] f h k = absurd (omega arith)
take-inks (suc n) (Text.◌∷◌ c s) f h k = rw f (λ e. ground (arith, e))
