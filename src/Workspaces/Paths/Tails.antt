-- ===== src/Workspaces/Paths/Tails.antt =====
-- The suffixes of _allocate_topic_relpath of src/runtime/workspaces.py keep a name a name.
use Prim.Native.Char.{Char, code}
use text.Mathlib.TextLemmas.{nil-append, cons-append}
use tele_cli.Prelude.{
  ◌≡◌, ◌≢◌, refl, sym, ap, subst, ◌∙◌, ℕ, suc, ◌≤◌, ℤ, pos, negsuc, String, Bool, true, false,
  Option, none, some, ◌==◌, string_eq, nat_eq, is_text, or_text, ◌<>◌, if◌then◌else◌, arith,
  Bool-cases, inl, inr,
}
use tele_cli.Workspaces.Names.{is_safe, is_edge, sanitize_workspace_name, str_int, str_nat}
use tele_cli.Workspaces.Names.Safe.{
  AllSafe, BeginsWell, EndsWell, IsName, sanitize_workspace_name-IsName,
}
use tele_cli.Workspaces.Names.Decimal.{AllDigits, IsNumeral, str_nat-IsNumeral}
use tele_cli.Workspaces.Paths.{dash_spaces, path_suffix}

-- what may stand behind a name
pub IsTail : String → Type 0
IsTail t = AllSafe t × EndsWell t

AllSafe-append : (s t : String) → AllSafe s → AllSafe t → AllSafe (s <> t)
AllSafe-append String.[] t h k = rw nil-append k
AllSafe-append (String.◌∷◌ c s) t h k = rw cons-append (h.0, AllSafe-append s t h.1 k)

EndsWell-append : (s t : String) → EndsWell s → EndsWell t → EndsWell (s <> t)
EndsWell-append String.[] t h k = rw nil-append k
EndsWell-append (String.◌∷◌ c String.[]) t h k =
    rw (cons-append, nil-append) (EndsWell-cons c t h k)
  where
    EndsWell-cons :
        (d : Char) (u : String) → is_edge d ≡ false → EndsWell u → EndsWell (String.◌∷◌ d u)
    EndsWell-cons d String.[] p q = p
    EndsWell-cons d (String.◌∷◌ e u) p q = q
EndsWell-append (String.◌∷◌ c (String.◌∷◌ d s)) t h k =
    subst EndsWell (sym (cons-append c _ t ∙ ap (String.◌∷◌ c) (cons-append d s t)))
      (subst EndsWell (cons-append d s t) (EndsWell-append (String.◌∷◌ d s) t h k))

BeginsWell-append : (s t : String) → s ≢ "" → BeginsWell s → BeginsWell (s <> t)
BeginsWell-append String.[] t n h = absurd (n refl)
BeginsWell-append (String.◌∷◌ c s) t n h = rw cons-append h

append-ne-nil : (s t : String) → s ≢ "" → s <> t ≢ ""
append-ne-nil String.[] t n = absurd (n refl)
append-ne-nil (String.◌∷◌ c s) t n = rw cons-append (λ e. cc e)

pub IsName-append : (s t : String) → IsName s → IsTail t → IsName (s <> t)
unfolding IsTail
IsName-append s t h k = record {
  not_empty = append-ne-nil s t h.not_empty;
  is_all_safe = AllSafe-append s t h.is_all_safe k.0;
  begins_well = BeginsWell-append s t h.not_empty h.begins_well;
  ends_well = EndsWell-append s t h.ends_well k.1;
}

pub IsTail-append : (s t : String) → IsTail s → IsTail t → IsTail (s <> t)
unfolding IsTail
IsTail-append s t h k = (AllSafe-append s t h.0 k.0, EndsWell-append s t h.1 k.1)

digit_lem : (c : Char) → 48 ≤ code c → code c ≤ 57 → (is_safe c ≡ true) × (is_edge c ≡ false)
unfolding is_safe is_edge
digit_lem c h k = ground arith

AllDigits-IsTail : (s : String) → AllDigits s → IsTail s
unfolding IsTail
AllDigits-IsTail String.[] h = (tt, tt)
AllDigits-IsTail (String.◌∷◌ c String.[]) h =
    (((digit_lem c h.0 h.1).0, tt), (digit_lem c h.0 h.1).1)
AllDigits-IsTail (String.◌∷◌ c (String.◌∷◌ d s)) h =
    let rest = AllDigits-IsTail (String.◌∷◌ d s) h.2 in (((digit_lem c h.0 h.1).0, rest.0), rest.1)

-- a dash, and behind it something that is not empty
IsTail-dash : (s : String) → s ≢ "" → IsTail s → IsTail (String.◌∷◌ "-" s)
unfolding IsTail is_safe
IsTail-dash String.[] n h = absurd (n refl)
IsTail-dash (String.◌∷◌ c s) n h = ((refl, h.0), h.1)

dash_text : (s : String) → "-" <> s ≡ String.◌∷◌ "-" s
dash_text s = cons-append "-" String.[] s ∙ ap (String.◌∷◌ "-") (nil-append s)

IsNumeral-lem : (s : String) → IsNumeral s → (s ≢ "") × IsTail s
IsNumeral-lem String.[] h = absurd h
IsNumeral-lem (String.◌∷◌ c s) h = ((λ e. cc e), AllDigits-IsTail (String.◌∷◌ c s) h)

pub str_nat_lem : (n : ℕ) → (str_nat n ≢ "") × IsTail (str_nat n)
str_nat_lem n = IsNumeral-lem (str_nat n) (str_nat-IsNumeral n)

str_int_lem : (n : ℤ) → (str_int n ≢ "") × IsTail (str_int n)
unfolding str_int
str_int_lem (pos n) = str_nat_lem n
str_int_lem (negsuc n) =
    ((λ e. cc e), IsTail-dash (str_nat (suc n)) (str_nat_lem (suc n)).0 (str_nat_lem (suc n)).1)

pub dashed-IsTail : (s : String) → s ≢ "" → IsTail s → IsTail ("-" <> s)
dashed-IsTail s n h = rw (dash_text s) (IsTail-dash s n h)

dashed_char : (c : Char) → Char
dashed_char c = if code c == 32 then "-" else c

space-is_edge : (c : Char) → (code c == 32) ≡ true → is_edge c ≢ false
unfolding is_edge
space-is_edge c e = ground (arith, e)

dashed_char_lem :
    (c : Char)
    → (is_safe c ≡ true → is_safe (dashed_char c) ≡ true)
      × (is_edge c ≡ false → is_edge (dashed_char c) ≡ false)
unfolding dashed_char
dashed_char_lem c = dashed (code c == 32) refl
  where
    dashed :
        (b : Bool)
        → (code c == 32) ≡ b
        → (is_safe c ≡ true → is_safe (if b then "-" else c) ≡ true)
          × (is_edge c ≡ false → is_edge (if b then "-" else c) ≡ false)
    dashed true e = ((λ p. unfold is_safe in refl), (λ p. absurd (space-is_edge c e p)))
    dashed false e = ((λ p. p), (λ p. p))

dash_spaces-ne-nil : (s : String) → s ≢ "" → dash_spaces s ≢ ""
unfolding dash_spaces
dash_spaces-ne-nil String.[] n = absurd (n refl)
dash_spaces-ne-nil (String.◌∷◌ c s) n = λ e. cc e

dash_spaces-IsTail : (s : String) → IsTail s → IsTail (dash_spaces s)
unfolding dash_spaces IsTail dashed_char
dash_spaces-IsTail String.[] h = (tt, tt)
dash_spaces-IsTail (String.◌∷◌ c String.[]) h =
    (((dashed_char_lem c).0 h.0.0, tt), (dashed_char_lem c).1 h.1)
dash_spaces-IsTail (String.◌∷◌ c (String.◌∷◌ d s)) h =
    let rest = dash_spaces-IsTail (String.◌∷◌ d s) (h.0.1, h.1) in
    (((dashed_char_lem c).0 h.0.0, rest.0), rest.1)

channel_suffix-IsTail :
    (channel : Option String)
    → IsTail (
        if is_text channel
        then "-" <> dash_spaces (sanitize_workspace_name (or_text channel ""))
        else "")
unfolding IsTail
channel_suffix-IsTail channel =
    let name = sanitize_workspace_name (or_text channel "") in
    let is_name = sanitize_workspace_name-IsName (or_text channel "") in
    elim (Bool-cases (is_text channel)) [
      | inl e ↦ rw e (
          dashed-IsTail (dash_spaces name) (dash_spaces-ne-nil name is_name.not_empty)
            (dash_spaces-IsTail name (is_name.is_all_safe, is_name.ends_well)))
      | inr e ↦ rw e (tt, tt)
    ]

pub path_suffix-IsTail :
    (chat_id topic_id : Option ℤ) (channel : Option String)
    → IsTail (path_suffix chat_id topic_id channel)
unfolding path_suffix
path_suffix-IsTail (some c) (some t) channel =
    dashed-IsTail _ (append-ne-nil (str_int c) _ (str_int_lem c).0)
      (IsTail-append _ _ (str_int_lem c).1 (dashed-IsTail _ (str_int_lem t).0 (str_int_lem t).1))
path_suffix-IsTail (some c) none channel = channel_suffix-IsTail channel
path_suffix-IsTail none topic_id channel = channel_suffix-IsTail channel
