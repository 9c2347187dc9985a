-- ===== src/Workspaces/Names/Safe.antt =====
-- What sanitize_workspace_name of src/runtime/workspaces.py gives: the name of a directory that stays where it is put.
use Prim.Native.Char.{Char}
use tele_cli.Prelude.{
  ◌≡◌, ◌≢◌, inl, inr, refl, String, Bool, true, false, ◌==◌, string_eq, arith, eq_iff, Bool-cases,
  if◌then◌else◌, strip, reverse_onto, is_space,
}
use tele_cli.Workspaces.Names.{
  is_safe, is_edge, replace_unsafe, collapse_spaces, strip_left, strip_edges,
  sanitize_workspace_name,
}

-- every character is one of [A-Za-z0-9._ -]
abbrev pub AllSafe : String → Type 0
AllSafe String.[] = Unit
AllSafe (String.◌∷◌ c s) = (is_safe c ≡ true) × AllSafe s

-- a text does not begin, or does not end, with one of " .-_"
abbrev pub BeginsWell : String → Type 0
BeginsWell String.[] = Unit
BeginsWell (String.◌∷◌ c s) = is_edge c ≡ false

abbrev pub EndsWell : String → Type 0
EndsWell String.[] = Unit
EndsWell (String.◌∷◌ c String.[]) = is_edge c ≡ false
EndsWell (String.◌∷◌ c (String.◌∷◌ d s)) = EndsWell (String.◌∷◌ d s)

-- The name of a directory with no separator in it, which is neither empty nor "." nor "..".
pub record IsName (s : String) : Type 0 where
  pub not_empty : s ≢ ""
  pub is_all_safe : AllSafe s
  pub begins_well : BeginsWell s
  pub ends_well : EndsWell s

AllSafe-if :
    (b : Bool) (c : Char) (s : String)
    → is_safe c ≡ true
    → AllSafe s
    → AllSafe (if b then s else String.◌∷◌ c s)
AllSafe-if true c s e h = h
AllSafe-if false c s e h = (e, h)

replace_unsafe-AllSafe : (inside : Bool) (s : String) → AllSafe (replace_unsafe inside s)
unfolding replace_unsafe is_safe
replace_unsafe-AllSafe inside String.[] = tt
replace_unsafe-AllSafe inside (String.◌∷◌ c s) = elim (Bool-cases (is_safe c)) [
  | inl e ↦ rw e (e, replace_unsafe-AllSafe false s)
  | inr e ↦ rw e (AllSafe-if inside "-" _ refl (replace_unsafe-AllSafe true s))
]

collapse_spaces-AllSafe :
    (inside : Bool) (s : String) → AllSafe s → AllSafe (collapse_spaces inside s)
unfolding collapse_spaces is_safe
collapse_spaces-AllSafe inside String.[] h = tt
collapse_spaces-AllSafe inside (String.◌∷◌ c s) h = elim (Bool-cases (is_space c)) [
  | inr e ↦ rw e (h.0, collapse_spaces-AllSafe false s h.1)
  | inl e ↦ rw e (AllSafe-if inside " " _ refl (collapse_spaces-AllSafe true s h.1))
]

strip_left-AllSafe : (s : String) → AllSafe s → AllSafe (strip_left s)
unfolding strip_left
strip_left-AllSafe String.[] h = tt
strip_left-AllSafe (String.◌∷◌ c s) h = elim (Bool-cases (is_edge c)) [
  | inl e ↦ rw e (strip_left-AllSafe s h.1)
  | inr e ↦ rw e h
]

strip_left-BeginsWell : (s : String) → BeginsWell (strip_left s)
unfolding strip_left
strip_left-BeginsWell String.[] = tt
strip_left-BeginsWell (String.◌∷◌ c s) = elim (Bool-cases (is_edge c)) [
  | inl e ↦ rw e (strip_left-BeginsWell s)
  | inr e ↦ rw e e
]

EndsWell-tail : (c : Char) (s : String) → EndsWell (String.◌∷◌ c s) → EndsWell s
EndsWell-tail c String.[] h = tt
EndsWell-tail c (String.◌∷◌ d s) h = h

strip_left-EndsWell : (s : String) → EndsWell s → EndsWell (strip_left s)
unfolding strip_left
strip_left-EndsWell String.[] h = tt
strip_left-EndsWell (String.◌∷◌ c s) h = elim (Bool-cases (is_edge c)) [
  | inl e ↦ rw e (strip_left-EndsWell s (EndsWell-tail c s h))
  | inr e ↦ rw e h
]

reverse_onto-AllSafe : (s t : String) → AllSafe s → AllSafe t → AllSafe (reverse_onto s t)
unfolding reverse_onto
reverse_onto-AllSafe String.[] t h k = k
reverse_onto-AllSafe (String.◌∷◌ c s) t h k = reverse_onto-AllSafe s (String.◌∷◌ c t) h.1 (h.0, k)

reverse_onto-EndsWell_cons :
    (s : String) (d : Char) (t : String)
    → EndsWell (String.◌∷◌ d t)
    → EndsWell (reverse_onto s (String.◌∷◌ d t))
unfolding reverse_onto
reverse_onto-EndsWell_cons String.[] d t h = h
reverse_onto-EndsWell_cons (String.◌∷◌ c s) d t h =
    reverse_onto-EndsWell_cons s c (String.◌∷◌ d t) h

reverse_onto-EndsWell : (s : String) → BeginsWell s → EndsWell (reverse_onto s String.[])
unfolding reverse_onto
reverse_onto-EndsWell String.[] h = tt
reverse_onto-EndsWell (String.◌∷◌ c s) h = reverse_onto-EndsWell_cons s c String.[] h

reverse_onto-BeginsWell_cons :
    (c : Char) (s t : String)
    → EndsWell (String.◌∷◌ c s)
    → BeginsWell (reverse_onto s (String.◌∷◌ c t))
unfolding reverse_onto
reverse_onto-BeginsWell_cons c String.[] t h = h
reverse_onto-BeginsWell_cons c (String.◌∷◌ d s) t h =
    reverse_onto-BeginsWell_cons d s (String.◌∷◌ c t) h

reverse_onto-BeginsWell : (s : String) → EndsWell s → BeginsWell (reverse_onto s String.[])
unfolding reverse_onto
reverse_onto-BeginsWell String.[] h = tt
reverse_onto-BeginsWell (String.◌∷◌ c s) h = reverse_onto-BeginsWell_cons c s String.[] h

strip_edges_lem :
    (s : String)
    → AllSafe s
    → AllSafe (strip_edges s) × BeginsWell (strip_edges s) × EndsWell (strip_edges s)
unfolding strip_edges
strip_edges_lem s h =
    let begun = strip_left s in
    let turned = reverse_onto begun String.[] in
    (
      reverse_onto-AllSafe (strip_left turned) String.[]
          (strip_left-AllSafe turned
            (reverse_onto-AllSafe begun String.[] (strip_left-AllSafe s h) tt))
          tt,
      reverse_onto-BeginsWell (strip_left turned)
          (strip_left-EndsWell turned (reverse_onto-EndsWell begun (strip_left-BeginsWell s))),
      reverse_onto-EndsWell (strip_left turned) (strip_left-BeginsWell turned),
    )

-- Whatever the title of a topic is, sanitize_workspace_name gives the name of a directory: it is not empty,
-- every character is one of [A-Za-z0-9._ -], and it neither begins nor ends with a space, a dot, a dash or
-- an underscore. So there is no separator in it, and it is neither "." nor "..".
pub sanitize_workspace_name-IsName : (value : String) → IsName (sanitize_workspace_name value)
unfolding sanitize_workspace_name is_safe is_edge
sanitize_workspace_name-IsName value =
    let spaced = collapse_spaces false (replace_unsafe false (strip value)) in
    let cleaned = strip_edges spaced in
    let facts =
      strip_edges_lem spaced
        (collapse_spaces-AllSafe false _ (replace_unsafe-AllSafe false (strip value))) in
    elim (Bool-cases (cleaned == "")) [
      | inl e ↦ rw e topic-IsName
      | inr e ↦ rw e (record {
        not_empty = λ p. ground (arith, e, p, eq_iff cleaned "");
        is_all_safe = facts.0;
        begins_well = facts.1;
        ends_well = facts.2;
      })
    ]
  where
    topic-IsName : IsName "topic"
    topic-IsName = record {
      not_empty = λ p. ground (arith, eq_iff "topic" "", p);
      is_all_safe = (refl, (refl, (refl, (refl, (refl, tt)))));
      begins_well = refl;
      ends_well = refl;
    }
