-- ===== src/Rpc/Own.antt =====
-- What the numbers of the pending requests and the responses on their way keep to: src/runtime/jsonrpc.py.
use tele_cli.Prelude.{
  ℕ, ◌≡◌, ◌≢◌, ◌<◌, sym, ◌∙◌, inl, inr, pos, Bool, Option, none, some, List, [], ◌∷◌, ◌++◌, nat_eq,
  find, filter, map, if◌then◌else◌, All, All-append, All-filter, All-map, arith, Bool-cases,
}
use tele_cli.Rpc.{
  number, Payload, Phase, writing, waiting, received, expired, abandoned, Slot, Reader, reading,
  blocked, stuck, ended, Client, has_id, change,
}

-- a response of this number
abbrev pub IsResponse : ℕ → Payload → Type 0
IsResponse i p = p.id ≡ number (pos i)

abbrev pub OwnQueue : ℕ → Option Payload → Type 0
OwnQueue i none = Unit
OwnQueue i (some p) = IsResponse i p

abbrev pub OwnPhase : ℕ → Phase → Type 0
OwnPhase i (received p) = IsResponse i p
OwnPhase i writing = Unit
OwnPhase i waiting = Unit
OwnPhase i expired = Unit
OwnPhase i abandoned = Unit

abbrev pub OwnSlot : ℕ → Slot → Type 0
OwnSlot n s = (s.id < n) × OwnQueue s.id s.queue × OwnPhase s.id s.phase

abbrev pub OwnPut : ℕ → Reader → Type 0
OwnPut n (blocked i p) = (i < n) × IsResponse i p
OwnPut n reading = Unit
OwnPut n stuck = Unit
OwnPut n ended = Unit

abbrev pub Unique : List Slot → Type 0
Unique [] = Unit
Unique (s ∷ slots) = All (λ t. t.id ≢ s.id) slots × Unique slots

-- The numbers of the pending requests are distinct and have been given out, and every response that a
-- request has taken, has in its queue or is about to get has the request's number.
unfoldable pub IsRouted : Client → Type 0
IsRouted c = All (OwnSlot c.next_id) c.pending × Unique c.pending × OwnPut c.next_id c.reader

module _ (j : ℕ) (f : Slot → Slot) (keeps : (s : Slot) → (f s).id ≡ s.id) where
  changed_id : (s : Slot) → (if has_id j s then f s else s).id ≡ s.id
  changed_id s = ground (arith, keeps s)

  changed-Unique :
      (slots : List Slot) → Unique slots → Unique (map (λ s. if has_id j s then f s else s) slots)
  changed-Unique [] u = tt
  changed-Unique (s ∷ slots) u = (
    All-map (λ t. t.id ≢ s.id) (λ t. t.id ≢ (if has_id j s then f s else s).id)
        (λ t. if has_id j t then f t else t) slots
        (λ t n e. n (sym (changed_id t) ∙ e ∙ changed_id s)) u.0,
    changed-Unique slots u.1,
  )

  pub change-IsRouted :
      (c : Client)
      → ((s : Slot) → s.id ≡ j → OwnSlot c.next_id s → OwnSlot c.next_id (f s))
      → IsRouted c
      → IsRouted (change j f c)
  unfolding IsRouted change
  change-IsRouted c h r = (
    All-map (OwnSlot c.next_id) (OwnSlot c.next_id) (λ s. if has_id j s then f s else s) c.pending
        (λ s o. elim (Bool-cases (has_id j s)) [
          | inl e ↦ rw e (h s (ground (arith, e)) o)
          | inr e ↦ rw e o
        ])
        r.0,
    changed-Unique c.pending r.1,
    r.2,
  )

pub filter-Unique : (p : Slot → Bool) (slots : List Slot) → Unique slots → Unique (filter p slots)
filter-Unique p [] u = tt
filter-Unique p (s ∷ slots) u = elim (Bool-cases (p s)) [
  | inl e ↦ rw e (All-filter (λ t. t.id ≢ s.id) p slots u.0, filter-Unique p slots u.1)
  | inr e ↦ rw e (filter-Unique p slots u.1)
]

pub append-Unique :
    (x : Slot) (slots : List Slot)
    → All (λ s. s.id < x.id) slots
    → Unique slots
    → Unique (slots ++ x ∷ [])
append-Unique x [] h u = (tt, tt)
append-Unique x (s ∷ slots) h u = (
  All-append (λ t. t.id ≢ s.id) slots (x ∷ []) u.0 ((λ e. ground (arith, h, e)), tt),
  append-Unique x slots h.1 u.1,
)

pub find-OwnSlot :
    (n i : ℕ) (slots : List Slot) (s : Slot)
    → All (OwnSlot n) slots
    → find (has_id i) slots ≡ some s
    → i < n
find-OwnSlot n i [] s a e = ground (arith, e)
find-OwnSlot n i (x ∷ slots) s a e = elim (Bool-cases (has_id i x)) [
  | inl q ↦ ground (arith, q, a)
  | inr q ↦ find-OwnSlot n i slots s a.1 (rw q at e)
]
