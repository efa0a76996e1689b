-- ===== src/Groupme/Wire/RoundTrip/Chats.antt =====
-- Users and chats that are written and read.
use matrix_groupme_bridge.Prelude.{◌≡◌, refl, ap, ◌∙◌, Option, none, some, if◌then◌else◌}
use matrix_groupme_bridge.Prelude.Json.{obj}
use matrix_groupme_bridge.Prelude.Json.Struct.{
  write_all, fill-write_all, AllFound, found-AllFound, ReadsBack, Carries, Copies, copied, ◌▸◌,
  find, resolve, same_folded,
}
use matrix_groupme_bridge.Prelude.Json.Columns.{
  numeric_column, text_column, flag_column, number_column, int_column, texts_column,
  int_lists_column, struct_column, structs_column,
}
use matrix_groupme_bridge.Prelude.Json.Laws.{
  text-Carries, flag-Carries, number-Carries, int-Carries, struct-Carries,
}
use matrix_groupme_bridge.Groupme.Types.{Message, User, Chat}
use matrix_groupme_bridge.Groupme.Wire.{
  type_column, message_columns, user_columns, chat_columns, last_message_column, read_pointer,
  pointed, is_nil_pointer,
}
use matrix_groupme_bridge.Groupme.Types.Empty.{no_user, no_chat}
use matrix_groupme_bridge.Groupme.Wire.Fits.{UserFits, ChatFits, PointerFits}
use matrix_groupme_bridge.Groupme.Wire.RoundTrip.{message-Reads, Reads}

pointer_reads :
    (o : Option Message) (t : Chat)
    → PointerFits o
    → t ≡ record t { last_message = none }
    → ReadsBack last_message_column
        (if is_nil_pointer o then none else some (obj (write_all message_columns (pointed o))))
        t
        (record t { last_message = o })
unfolding last_message_column read_pointer
pointer_reads none t h blank = blank
pointer_reads (some m) t h blank =
    ap
      (λ o.
        let (v, e) = read_pointer (obj (write_all message_columns m)) o in
        (record t { last_message = v }, e))
      (ap (λ c. c.last_message) blank)
    ∙ ap (λ p. (record t { last_message = some p.0 }, p.1)) (message-Reads m h)

last_message-Carries :
    {s t : Chat}
    → PointerFits s.last_message
    → t ≡ record t { last_message = none }
    → Carries last_message_column s t (record t { last_message = s.last_message })
unfolding last_message_column
last_message-Carries {s} {t} h blank = record { reads = pointer_reads s.last_message t h blank }

user_found : AllFound user_columns user_columns
unfolding user_columns type_column last_message_column text_column flag_column number_column
    int_column numeric_column texts_column int_lists_column struct_column structs_column resolve
    find same_folded
user_found = found-AllFound user_columns user_columns refl

user-Copies : (s : User) → UserFits s → Copies s user_columns no_user s
unfolding user_columns
user-Copies s h =
    text-Carries _ _ _ refl
    ▸ text-Carries _ _ _ refl
    ▸ text-Carries _ _ _ refl
    ▸ text-Carries _ _ _ refl
    ▸ number-Carries _ _ _ h.created_at refl
    ▸ number-Carries _ _ _ h.updated_at refl
    ▸ text-Carries _ _ _ refl
    ▸ text-Carries _ _ _ refl
    ▸ flag-Carries _ _ _ refl
    ▸ copied

pub user-Reads : (s : User) → UserFits s → Reads user_columns no_user s
user-Reads s h = fill-write_all _ _ user_found (user-Copies s h)

chat_found : AllFound chat_columns chat_columns
unfolding chat_columns type_column last_message_column text_column flag_column number_column
    int_column numeric_column texts_column int_lists_column struct_column structs_column resolve
    find same_folded
chat_found = found-AllFound chat_columns chat_columns refl

chat-Copies : (s : Chat) → ChatFits s → Copies s chat_columns no_chat s
unfolding chat_columns
chat-Copies s h =
    number-Carries _ _ _ h.created_at refl
    ▸ number-Carries _ _ _ h.updated_at refl
    ▸ last_message-Carries h.last_message refl
    ▸ int-Carries _ _ _ h.messages_count refl
    ▸ struct-Carries _ _ _ _ (user-Reads s.other_user h.other_user)
    ▸ copied

pub chat-Reads : (s : Chat) → ChatFits s → Reads chat_columns no_chat s
chat-Reads s h = fill-write_all _ _ chat_found (chat-Copies s h)
