-- ===== src/Workspaces/Paths/Serial.antt =====
-- The loop of _allocate_topic_relpath of src/runtime/workspaces.py ends: each taken number uses up a row.
use text.Mathlib.TextLemmas.{append_cancel_left}
use tele_cli.Prelude.{
  ◌≡◌, ◌≢◌, refl, sym, ap, ◌∙◌, ℕ, zero, suc, ◌≤◌, ◌<◌, String, true, false, not, some, List, [],
  ◌∷◌, ◌==◌, string_eq, nat_eq, any, filter, length, ◌<>◌, arith, eq_iff, Bool-cases, inl, inr,
}
use tele_cli.Workspaces.Names.{str_nat}
use tele_cli.Workspaces.Names.Decimal.{str_nat_injective}
use tele_cli.Workspaces.Rows.{WorkspaceRecord}
use tele_cli.Workspaces.Paths.{topic_path, is_free, next_serial}

-- the directory that the loop tries with a number
abbrev pub numbered : String → ℕ → String
numbered stem n = topic_path (stem <> ("-" <> str_nat n))

numbered_injective : (stem : String) (m n : ℕ) → numbered stem m ≡ numbered stem n → m ≡ n
numbered_injective stem m n e =
    str_nat_injective m n
      (append_cancel_left "-" _ _ (append_cancel_left stem _ _ (append_cancel_left _ _ _ e)))

-- the rows with another directory
others : String → List WorkspaceRecord → List WorkspaceRecord
others p rows = filter (λ w. not (w.relpath == p)) rows

any-others :
    (p q : String) (rows : List WorkspaceRecord)
    → q ≢ p
    → any (λ w. w.relpath == q) (others p rows) ≡ any (λ w. w.relpath == q) rows
unfolding others
any-others p q [] n = refl
any-others p q (w ∷ rows) n =
    ground (arith, any-others p q rows n, eq_iff w.relpath p, eq_iff w.relpath q)

is_free-others :
    (p q : String) (rows : List WorkspaceRecord)
    → q ≢ p
    → is_free (others p rows) q ≡ is_free rows q
unfolding is_free
is_free-others p q rows n = ap not (any-others p q rows n)

length-others :
    (p : String) (rows : List WorkspaceRecord)
    → (length (others p rows) ≤ length rows)
      × (is_free rows p ≡ false → length (others p rows) < length rows)
unfolding others is_free
length-others p [] = (omega arith, λ h. cc h)
length-others p (w ∷ rows) = ground (arith, length-others p rows)

next_serial-others :
    (fuel : ℕ) (rows : List WorkspaceRecord) (stem : String) (m n : ℕ)
    → m < n
    → next_serial fuel (others (numbered stem m) rows) stem n ≡ next_serial fuel rows stem n
unfolding next_serial
next_serial-others zero rows stem m n h = refl
next_serial-others (suc fuel) rows stem m n h =
    rw
      (is_free-others (numbered stem m) (numbered stem n) rows
        (λ e. absurd (omega (arith, numbered_injective stem n m e))))
      (rw (next_serial-others fuel rows stem m (suc n) (omega arith)) refl)

pub next_serial_total :
    (fuel : ℕ) (rows : List WorkspaceRecord) (stem : String) (n : ℕ)
    → length rows < fuel
    → (k : ℕ) × (next_serial fuel rows stem n ≡ some (numbered stem k))
      × (is_free rows (numbered stem k) ≡ true)
      × (n ≤ k)
unfolding next_serial
next_serial_total zero rows stem n h = absurd (omega arith)
next_serial_total (suc fuel) rows stem n h = elim (Bool-cases (is_free rows (numbered stem n))) [
  | inl e ↦ (n, rw e, e, omega arith)
  | inr e ↦
      let shorter = (length-others (numbered stem n) rows).1 e in
      let (k, found, free, le) =
        next_serial_total fuel (others (numbered stem n) rows) stem (suc n) (omega arith) in
      (
        k,
        rw e (sym (next_serial-others fuel rows stem n (suc n) (omega arith)) ∙ found),
        sym (
              is_free-others (numbered stem n) (numbered stem k) rows
                (λ p. absurd (omega (arith, numbered_injective stem k n p))))
            ∙ free,
        omega arith,
      )
]
