-- ===== src/Splitting/Cuts.antt =====
-- The chunks of split_telegram_text: src/runtime/service.py.
use tele_cli.Prelude.{
  ℕ, zero, suc, ◌≤◌, ◌<◌, ◌≡◌, ◌≢◌, refl, sym, ◌∙◌, ap, inl, inr, String, Bool, true, false, Option,
  none, some, List, [], ◌∷◌, ◌++◌, ◌==◌, string_eq, eq_iff, ltb, if◌then◌else◌, strip, lstrip,
  text_length, take_text, drop_text, arith, Bool-cases, All,
}
use Prim.Native.Char.{Char}
use Prim.Native.String as Text
use tele_cli.Splitting.{
  limit_or_default, later_or, rfind, or_try, split_at, next_chunk, prepend, split_loop,
  split_telegram_text,
}
use tele_cli.Splitting.Inks.{
  inks, inks-lstrip, inks-strip, inks-slices, IsFlush, lstrip-IsFlush, strip-IsFlush, lstrip-length,
  strip-length, take_text-length, drop_text-length, take-inks,
}

later_or-bound :
    (later : Option ℕ) (here : Bool) (n i : ℕ)
    → ((j : ℕ) → later ≡ some j → j < n)
    → later_or later here ≡ some i
    → i < suc n
later_or-bound (some j) here n i h e = let b = h j refl in ground (arith, e, b)
later_or-bound none true n i h e = ground (arith, e)
later_or-bound none false n i h e = ground (arith, e)

rfind-bound : (sub : String) (end : ℕ) (s : String) (i : ℕ) → rfind sub end s ≡ some i → i < end
unfolding rfind
rfind-bound sub zero s i e = ground (arith, e)
rfind-bound sub (suc end) Text.[] i e = ground (arith, e)
rfind-bound sub (suc end) (Text.◌∷◌ c s) i e =
    later_or-bound (rfind sub end s)
      (take_text (text_length sub) (take_text (suc end) (Text.◌∷◌ c s)) == sub) end i
      (λ j h. rfind-bound sub end s j h) e

or_try-bound :
    (found : Option ℕ) (next limit : ℕ)
    → ((i : ℕ) → found ≡ some i → i < suc limit)
    → (0 < next) × (next ≤ limit)
    → (0 < or_try found next) × (or_try found next ≤ limit)
or_try-bound none next limit h b = b
or_try-bound (some zero) next limit h b = b
or_try-bound (some (suc i)) next limit h b = let k = h (suc i) refl in (omega arith, omega arith)

split_at-bound :
    (limit : ℕ) (s : String) → 0 < limit → (0 < split_at limit s) × (split_at limit s ≤ limit)
unfolding split_at
split_at-bound limit s h =
    or_try-bound (rfind "\n\n" (suc limit) s) _ limit (λ i e. rfind-bound "\n\n" (suc limit) s i e)
      (or_try-bound (rfind "\n" (suc limit) s) _ limit (λ i e. rfind-bound "\n" (suc limit) s i e)
        (or_try-bound (rfind " " (suc limit) s) limit limit
          (λ i e. rfind-bound " " (suc limit) s i e) (h, omega arith)))

-- It fits, and it is not blank.
pub IsSendable : ℕ → String → Type 0
IsSendable limit chunk = (text_length chunk ≤ limit) × (inks chunk ≢ [])

-- What one round needs: an end behind the beginning, and a chunk that is sendable and has all that it takes off.
IsCut : ℕ → String → String × ℕ → Type 0
IsCut limit s cut =
    (0 < cut.1) × IsSendable limit cut.0 × (inks cut.0 ++ inks (drop_text cut.1 s) ≡ inks s)

strip-IsCut :
    (limit n : ℕ) (s : String)
    → IsFlush s
    → 0 < text_length s
    → 0 < n
    → n ≤ limit
    → IsCut limit s (strip (take_text n s), n)
unfolding IsCut IsSendable
strip-IsCut limit n s f p k q = (
  k,
  (
    (let a = strip-length (take_text n s) in let b = take_text-length n s in omega arith),
    (λ e. take-inks n s f k p (sym (inks-strip (take_text n s)) ∙ e)),
  ),
  ap (λ t. t ++ inks (drop_text n s)) (inks-strip (take_text n s)) ∙ inks-slices n s,
)

next_chunk-IsCut :
    (limit : ℕ) (s : String)
    → 0 < limit
    → IsFlush s
    → 0 < text_length s
    → IsCut limit s (next_chunk limit s)
unfolding next_chunk
next_chunk-IsCut limit s p f k = elim (Bool-cases (strip (take_text (split_at limit s) s) == "")) [
  | inl e ↦ rw e (strip-IsCut limit limit s f k p (omega arith))
  | inr e ↦
      let b = split_at-bound limit s p in rw e (strip-IsCut limit (split_at limit s) s f k b.0 b.1)
]

pub all_inks : List String → List Char
all_inks [] = []
all_inks (chunk ∷ chunks) = inks chunk ++ all_inks chunks

append-nil : (s : List Char) → s ++ [] ≡ s
append-nil [] = refl
append-nil (c ∷ s) = ap (λ t. c ∷ t) (append-nil s)

-- The chunks are sendable, and together they have the characters of the text.
pub Cuts : ℕ → String → Option (List String) → Type 0
Cuts limit s result =
    (chunks : List String) × ((result ≡ some chunks)
      × All (IsSendable limit) chunks
      × (all_inks chunks ≡ inks s))

last-Cuts :
    (limit : ℕ) (s : String)
    → IsFlush s
    → text_length s ≤ limit
    → Cuts limit s (if s == "" then some [] else some (s ∷ []))
unfolding Cuts all_inks inks IsSendable IsFlush text_length
last-Cuts limit Text.[] f h = ([], (refl, tt, refl))
last-Cuts limit (Text.◌∷◌ c s) f h = elim (Bool-cases (Text.◌∷◌ c s == "")) [
  | inl e ↦ (let q = ap text_length ((eq_iff (Text.◌∷◌ c s) "").0 e) in absurd (omega arith))
  | inr e ↦ rw e (Text.◌∷◌ c s ∷ [], (refl, ((h, rw f (λ e. ground (arith, e))), tt), append-nil _))
]

prepend-Cuts :
    (limit : ℕ) (s : String) (cut : String × ℕ) (rest : Option (List String))
    → IsCut limit s cut
    → Cuts limit (lstrip (drop_text cut.1 s)) rest
    → Cuts limit s (prepend cut.0 rest)
unfolding Cuts all_inks IsCut
prepend-Cuts limit s cut rest k r = (
  cut.0 ∷ r.0,
  (
    ap (prepend cut.0) r.1.0,
    (k.1, r.1.1),
    ap (λ t. inks cut.0 ++ t) (r.1.2 ∙ inks-lstrip (drop_text cut.1 s)) ∙ k.2,
  ),
)

cut-shorter :
    (end : ℕ) (s : String)
    → 0 < end
    → 0 < text_length s
    → text_length (lstrip (drop_text end s)) < text_length s
cut-shorter end s p q =
    let a = lstrip-length (drop_text end s) in let b = drop_text-length end s in omega arith

split_loop-Cuts :
    (fuel limit : ℕ) (s : String)
    → 0 < limit
    → IsFlush s
    → text_length s < fuel
    → Cuts limit s (split_loop fuel limit s)
unfolding split_loop IsCut
split_loop-Cuts zero limit s p f h = absurd (omega arith)
split_loop-Cuts (suc fuel) limit s p f h = elim (Bool-cases (ltb limit (text_length s))) [
  | inl e ↦
      let cut = next_chunk-IsCut limit s p f (ground (arith, e)) in
      rw e (
        prepend-Cuts limit s (next_chunk limit s) _ cut (
          split_loop-Cuts fuel limit (lstrip (drop_text (next_chunk limit s).1 s)) p
            (lstrip-IsFlush _)
            (let z = cut-shorter (next_chunk limit s).1 s cut.0 (ground (arith, e)) in
              omega arith)))
  | inr e ↦ rw e (last-Cuts limit s f (ground (arith, e)))
]

blank-Cuts : (limit : ℕ) (s : String) → s ≡ "" → Cuts limit s (some [])
unfolding Cuts all_inks inks
blank-Cuts limit s e = ([], (refl, tt, rw e refl))

if-Cuts :
    (limit : ℕ) (s : String) (b : Bool) (x y : Option (List String))
    → (b ≡ true → Cuts limit s x)
    → (b ≡ false → Cuts limit s y)
    → Cuts limit s (if b then x else y)
if-Cuts limit s true x y p q = p refl
if-Cuts limit s false x y p q = q refl

limit_or_default_lem : (limit : Option ℕ) → 0 < limit_or_default limit
unfolding limit_or_default
limit_or_default_lem none = omega arith
limit_or_default_lem (some zero) = omega arith
limit_or_default_lem (some (suc n)) = omega arith

split-Cuts :
    (text : String) (limit : Option ℕ)
    → Cuts (limit_or_default limit) (strip text) (split_telegram_text text limit)
unfolding split_telegram_text
split-Cuts text limit =
    if-Cuts (limit_or_default limit) (strip text) (strip text == "") _ _
      (λ e. blank-Cuts (limit_or_default limit) (strip text) ((eq_iff (strip text) "").0 e))
      (λ e.
        split_loop-Cuts (suc (text_length (strip text))) (limit_or_default limit) (strip text)
          (limit_or_default_lem limit) (strip-IsFlush text) (omega arith))

-- split_telegram_text always returns, and every chunk fits the limit (the default one where none is
-- given) and has a character that is no space.
pub split_telegram_text-IsSendable :
    (text : String) (limit : Option ℕ)
    → (chunks : List String) × ((split_telegram_text text limit ≡ some chunks)
        × All (IsSendable (limit_or_default limit)) chunks)
unfolding Cuts
split_telegram_text-IsSendable text limit = let c = split-Cuts text limit in (c.0, (c.1.0, c.1.1))

-- The characters of the text that are no spaces are those of the chunks that split_telegram_text returns, one chunk
-- behind the other: none is lost, none is repeated, and the order is kept.
pub split_telegram_text-all_inks :
    (text : String) (limit : Option ℕ)
    → (chunks : List String) × ((split_telegram_text text limit ≡ some chunks)
        × (all_inks chunks ≡ inks text))
unfolding Cuts
split_telegram_text-all_inks text limit =
    let c = split-Cuts text limit in (c.0, (c.1.0, c.1.2 ∙ inks-strip text))
