-- ===== src/Splitting/Examples.antt =====
-- A text of three chunks.
use tele_cli.Prelude.{
  ◌≡◌, refl, String, some, List, [], ◌∷◌, All, strip, text_length, drop_text, take_text,
}
use tele_cli.Splitting.{limit_or_default, split_telegram_text}
use tele_cli.Splitting.Inks.{inks}
use tele_cli.Splitting.Cuts.{
  IsSendable, all_inks, split_telegram_text-IsSendable, split_telegram_text-all_inks,
}

abbrev text : String
text = " first words\n\nthe second part is longer\n"

three_chunks :
    split_telegram_text text (some 16) ≡ some ("first words" ∷ "the second part" ∷ "is longer" ∷ [])
unfolding split_telegram_text strip limit_or_default text_length drop_text take_text
three_chunks = refl

split_telegram_text-IsSendable_example :
    (chunks : List String) × ((split_telegram_text text (some 16) ≡ some chunks)
      × All (IsSendable (limit_or_default (some 16))) chunks)
split_telegram_text-IsSendable_example = split_telegram_text-IsSendable text (some 16)

split_telegram_text-all_inks_example :
    (chunks : List String) × ((split_telegram_text text (some 16) ≡ some chunks)
      × (all_inks chunks ≡ inks text))
split_telegram_text-all_inks_example = split_telegram_text-all_inks text (some 16)
