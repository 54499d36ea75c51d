-- ===== src/Notify/Tests.antt =====
-- An error that quotes the address, at a concrete token.
use gnoracle.Base.{ℤ, pos, none, some, [], ◌++◌, ◌≡◌, ◌≢◌, ◌⊎◌, refl, false, arith, Option}
use gnoracle.Base.Text.{Bytes, codes, contains}
use gnoracle.Notify.{Response, transport_error, telegram_send, Telegram}
use gnoracle.Notify.Laws.{heading, telegram_send-hides}

abbrev timed_out : Bytes → ℤ → Bytes → Response
timed_out url chat_id text = transport_error (codes "Post " ++ url ++ codes ": timeout")

abbrev any_request : Bytes → Option Bytes
any_request _ = none

abbrev bot : Telegram
bot = record { token = codes "12:ab"; base = [] }

named : codes "12:ab" ≢ []
named = cc

telegram_send-hides_example :
    let e = (telegram_send any_request timed_out bot (pos 5) (codes "up")).1 in
    (e ≡ none) ⊎ ((said : Bytes) × (e ≡ some said) × (contains said (codes "12:ab") ≡ false))
unfolding heading contains
telegram_send-hides_example =
    telegram_send-hides any_request timed_out bot (pos 5) (codes "up") named (omega arith)
      (omega arith) refl refl
