-- ===== src/Merging/Appended.antt =====
-- What is appended of a text of the agent: src/runtime/service.py.
use tele_cli.Prelude.{◌≡◌, ◌⊎◌, String, Option, none, some, string_eq, ◌<>◌}
use Prim.Native.String as Text
use tele_cli.Merging.{Output, Merge, ignore, append, replace, combined}

-- a text that is known of the answer: an end of what is streamed and pending, the streamed text, or the one delivered last
pub IsKnown : Output → String → Type 0
IsKnown o t =
    ((s : String) × (s <> t ≡ combined o))
    ⊎ ((t ≡ o.streaming_output_text) ⊎ (t ≡ o.last_delivered_output_text))

-- What is appended is the incoming text behind a beginning that is known, what replaces is the incoming text,
-- and what is ignored is known or the beginning of what is streamed and pending.
pub Justified : Output → String → Merge → Type 0
Justified o incoming ignore = IsKnown o incoming ⊎ ((t : String) × (incoming <> t ≡ combined o))
Justified o incoming (append new) = (t : String) × (IsKnown o t × (t <> new ≡ incoming))
Justified o incoming (replace new) = new ≡ incoming

module _ (o : Output) (incoming : String) where
  -- a decision that is justified, if one is made
  abbrev Made : Option Merge → Type 0
  Made none = Unit
  Made (some merge) = Justified o incoming merge
