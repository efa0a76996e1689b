-- ===== src/Faye/Message/Wire/RoundTrip.antt =====
-- Messages that are written and read.
use matrix_groupme_bridge.Prelude.{
  ℕ, ◌≡◌, refl, ap, List, [], ◌∷◌, map, Option, none, some, if◌then◌else◌, ok, All,
}
use matrix_groupme_bridge.Prelude.Json.{Fields, arr, obj, no_fields, field}
use matrix_groupme_bridge.Prelude.Json.Struct.{
  fill, write_all, fill-write_all, AllFound, found-AllFound, ReadsBack, Copies, copied, ◌▸◌,
  Carries, find, resolve, same_folded,
}
use matrix_groupme_bridge.Prelude.Json.Columns.{
  verdict, text_column, flag_column, numeric_column, texts_column, map_column, struct_column,
  merged, write_items, read_items, read_list, no_entries,
}
use matrix_groupme_bridge.Prelude.Json.Laws.{
  text-Carries, flag-Carries, numeric-Carries, texts-Carries, map-Carries, struct-Carries,
}
use matrix_groupme_bridge.Faye.Message.{Message, Advice, no_advice, new_message}
use matrix_groupme_bridge.Faye.Message.Wire.{
  Floats, entries, read_ext, ext_column, advice_columns, message_columns, message_json,
  read_message, read_messages,
}

-- An empty map is written as a nil one.
abbrev pub written : Option Fields → Option Fields
written none = none
written (some no_fields) = none
written (some (field key j fs)) = some (field key j fs)

abbrev pub as_written : Message → Message
as_written m = record m { ext = written m.ext }

ext-ReadsBack :
    (o : Option Fields) (t : Message)
    → t.ext ≡ none
    → ReadsBack ext_column
        (if no_entries (entries o) then none else some (obj (entries o)))
        t
        (record t { ext = written o })
unfolding ext_column read_ext merged
ext-ReadsBack none t e = ap (λ x. record t { ext = x }) e
ext-ReadsBack (some no_fields) t e = ap (λ x. record t { ext = x }) e
ext-ReadsBack (some (field key j fs)) t e =
    ap (λ x. (record t { ext = some (merged (entries x) (field key j fs)) }, none)) e

ext-Carries :
    {s t : Message} → t.ext ≡ none → Carries ext_column s t (record t { ext = written s.ext })
unfolding ext_column
ext-Carries {s} {t} e = record { reads = ext-ReadsBack s.ext t e }

module _ (floats : Floats) where
  abbrev pub Prints : ℕ → Type 0
  Prints n = floats.parse (floats.print n) ≡ some n

  advice_found : AllFound (advice_columns floats) (advice_columns floats)
  unfolding advice_columns text_column numeric_column resolve find same_folded
  advice_found = found-AllFound (advice_columns floats) (advice_columns floats) refl

  advice-Copies :
      (a : Advice)
      → Prints a.interval
      → Prints a.timeout
      → Copies a (advice_columns floats) no_advice a
  unfolding advice_columns no_advice
  advice-Copies a interval timeout =
      text-Carries _ _ _ refl
      ▸ numeric-Carries _ _ _ _ _ _ interval refl
      ▸ numeric-Carries _ _ _ _ _ _ timeout refl
      ▸ copied

  advice_reads :
      (a : Advice)
      → Prints a.interval
      → Prints a.timeout
      → fill (advice_columns floats) (write_all (advice_columns floats) a) no_advice ≡ (a, none)
  advice_reads a interval timeout =
      fill-write_all _ _ advice_found (advice-Copies a interval timeout)

  message_found : AllFound (message_columns floats) (message_columns floats)
  unfolding message_columns text_column flag_column texts_column map_column struct_column resolve
      find same_folded
  message_found = found-AllFound (message_columns floats) (message_columns floats) refl

  message-Copies :
      (m : Message)
      → Prints m.advice.interval
      → Prints m.advice.timeout
      → Copies m (message_columns floats) (new_message "" "") (as_written m)
  unfolding message_columns new_message
  message-Copies m interval timeout =
      text-Carries _ _ _ refl
      ▸ text-Carries _ _ _ refl
      ▸ flag-Carries _ _ _ refl
      ▸ text-Carries _ _ _ refl
      ▸ texts-Carries _ _ _ refl
      ▸ map-Carries _ _ _ refl refl
      ▸ struct-Carries _ _ _ _ (advice_reads m.advice interval timeout)
      ▸ text-Carries _ _ _ refl
      ▸ ext-Carries refl
      ▸ text-Carries _ _ _ refl
      ▸ text-Carries _ _ _ refl
      ▸ text-Carries _ _ _ refl
      ▸ copied

  message-Reads :
      (m : Message)
      → Prints m.advice.interval
      → Prints m.advice.timeout
      → read_message floats (message_json floats m) none ≡ (some (as_written m), none)
  unfolding read_message message_json
  message-Reads m interval timeout =
      ap (λ p. (some p.0, p.1))
        (fill-write_all _ _ message_found (message-Copies m interval timeout))

  -- The array of what MarshalJSON makes of messages, of which the times of the advice are printed so that they
  -- are parsed again, is decoded to these messages in order, none a nil pointer, each as it is but for an
  -- empty ext, which is read as a nil one.
  pub read_messages-message_json :
      (ms : List Message)
      → All (λ m. Prints m.advice.interval × Prints m.advice.timeout) ms
      → read_messages floats (arr (write_items (message_json floats) ms))
        ≡ ok (map (λ m. some (as_written m)) ms)
  unfolding read_messages read_items write_items read_list
  read_messages-message_json ms h = ap verdict (items ms h)
    where
      items :
          (ms : List Message)
          → All (λ m. Prints m.advice.interval × Prints m.advice.timeout) ms
          → read_items none (read_message floats) (write_items (message_json floats) ms)
            ≡ (map (λ m. some (as_written m)) ms, none)
      items [] h = refl
      items (m ∷ ms) (h, hs) = rw (message-Reads m h.0 h.1, items ms hs) refl
