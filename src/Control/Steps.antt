-- ===== src/Control/Steps.antt =====
-- How a condition on the result of a step carries over what follows it.
use tele_cli.Prelude.{
  ℕ, ◌≡◌, String, Bool, true, false, Option, none, some, List, ◌==◌, string_eq, nat_eq, Bool-cases,
  refl, inl, inr, [], ◌∷◌, if◌then◌else◌,
}
use tele_cli.Control.{
  Machine, System, Ended, returned, exited, failed, and_then, safe_kill, choose, with_answer,
  ask_choice,
}

module _ {κ} (P : Ended × System → Type κ) (Q : Ended × System → Type κ) where
  -- For a step that returns the rest has Q; a step that does not return has it already.
  pub and_then_lem :
      (r : Ended × System) (next : System → Ended × System)
      → P r
      → ((s : System) → P (returned, s) → Q (next s))
      → ((s : System) → P (exited, s) → Q (exited, s))
      → ((s : System) → P (failed, s) → Q (failed, s))
      → Q (and_then r next)
  and_then_lem (returned, s) next p on_return on_exit on_failure = on_return s p
  and_then_lem (exited, s) next p on_return on_exit on_failure = on_exit s p
  and_then_lem (failed, s) next p on_return on_exit on_failure = on_failure s p

module _ {κ} (Q : Ended × System → Type κ) where
  with_answer_lem :
      (answer : Option (String × List String)) (s : System)
      (next : String → System → Ended × System)
      → Q (failed, record s { typed = [] })
      → ((choice : String) (typed : List String) → Q (next choice (record s { typed = typed })))
      → Q (with_answer answer s next)
  with_answer_lem none s next f n = f
  with_answer_lem (some a) s next f n = n a.0 a.1

  -- Whatever the answer is, what is done with it has Q, and so has the failure where there is none.
  pub choose_lem :
      (m : Machine) (selected : Option String) (choices : List String) (default : String)
      (s : System) (next : String → System → Ended × System)
      → Q (failed, record s { typed = [] })
      → ((choice : String) (typed : List String) → Q (next choice (record s { typed = typed })))
      → Q (choose m selected choices default s next)
  unfolding choose
  choose_lem m none choices default s next f n =
      with_answer_lem (ask_choice m choices default s.typed) s next f n
  choose_lem m (some selected) choices default s next f n = elim (Bool-cases (selected == "")) [
    | inl e ↦ rw e (with_answer_lem (ask_choice m choices default s.typed) s next f n)
    | inr e ↦ rw e (n selected s.typed)
  ]

  -- The two branches of a test.
  pub if_lem :
      (b : Bool) (x y : Ended × System)
      → (b ≡ true → Q x)
      → (b ≡ false → Q y)
      → Q (if b then x else y)
  if_lem true x y p q = p refl
  if_lem false x y p q = q refl

  pub safe_kill_lem :
      (m : Machine) (pid : ℕ) (s : System)
      → Q (returned, record s { signals = pid ∷ s.signals })
      → Q (failed, s)
      → Q (safe_kill m pid s)
  unfolding safe_kill
  safe_kill_lem m pid s p q =
      if_lem (m.terminates pid) (returned, record s { signals = pid ∷ s.signals }) (failed, s)
        (λ e. p) (λ e. q)
