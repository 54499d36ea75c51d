-- ===== src/Notify.antt =====
-- internal/notify/notify.go: messages to a Telegram chat, to the log, or to several notifiers. What
-- making a request and what the HTTP client answer are parameters. The token is not empty, as `New`
-- sees to it: `strings.ReplaceAll` is written out for that case.
pub mod Laws
mod Tests
use gnoracle.Base.{
  ℕ, zero, suc, ℤ, pos, eqb_ℤ, ltb, ◌==◌, ◌/◌, ◌-◌, Bool, List, [], ◌∷◌, ◌++◌, Option, none, some,
  if◌then◌else◌, take, length,
}
use gnoracle.Base.Text.{Bytes, codes, ellipsis, is_empty, has_prefix}

pub record Telegram : Type 0 where
  pub token : Bytes
  pub base : Bytes

mutual
  pub data Notifier : Type 0 where
    telegram : Telegram → Notifier
    to_log : Notifier
    multi : Notifiers → Notifier

  pub data Notifiers : Type 0 where
    nobody : Notifiers
    besides : Notifier → Notifiers → Notifiers

-- A message that leaves, to a chat: in a request to an address, or in the log.
pub data Message : Type 0 where
  posted : Bytes → ℤ → Bytes → Message
  logged : ℤ → Bytes → Message

-- What the HTTP client answers: an error, or a status code, its text and the body.
pub data Response : Type 0 where
  transport_error : Bytes → Response
  answered : ℕ → Bytes → Bytes → Response

-- What was sent, and the error's text if there is one.
abbrev pub Delivery : Type 0
Delivery = List Message × Option Bytes

-- `strings.ReplaceAll`: `left` bytes of the last match are still to be passed over.
replace_from : Bytes → Bytes → ℕ → Bytes → Bytes
unfolding has_prefix
replace_from old new left [] = []
replace_from old new (suc left) (c ∷ s) = replace_from old new left s
replace_from old new zero (c ∷ s) =
    let hit = new ++ replace_from old new (length old - 1) s in
    let kept = c ∷ replace_from old new zero s in if has_prefix (c ∷ s) old then hit else kept

unfoldable pub replace_all : Bytes → Bytes → Bytes → Bytes
unfolding replace_from
replace_all s old new = replace_from old new 0 s

-- A text without the token.
pub hide_token : Telegram → Bytes → Bytes
hide_token t s = replace_all s t.token (codes "***")

pub clip : Bytes → Bytes
clip text = if ltb 4000 (length text) then take 4000 text ++ ellipsis else text

pub address : Telegram → Bytes
address t =
    (if is_empty t.base then codes "https://api.telegram.org" else t.base)
    ++ codes "/bot"
    ++ t.token
    ++ codes "/sendMessage"

-- The error of an answer: none for a status in the two hundreds.
pub error_of : Telegram → Response → Option Bytes
error_of t (transport_error e) = some (codes "telegram: " ++ hide_token t e)
error_of t (answered code status body) =
    if code / 100 == 2
    then none
    else some (codes "telegram: " ++ status ++ codes ": " ++ hide_token t (take 2000 body))

module _ (request_error : Bytes → Option Bytes) (http : Bytes → ℤ → Bytes → Response) where
  pub telegram_send : Telegram → ℤ → Bytes → Delivery
  telegram_send t chat_id text =
      if eqb_ℤ chat_id (pos 0) then ([], none) else elim (request_error (address t)) [
        | some e ↦ ([], some e)
        | none ↦ (
          posted (address t) chat_id (clip text) ∷ [],
          error_of t (http (address t) chat_id (clip text)),
        )
      ]

  mutual
    pub send : Notifier → ℤ → Bytes → Delivery
    send (telegram t) chat_id text = telegram_send t chat_id text
    send to_log chat_id text = (logged chat_id text ∷ [], none)
    send (multi ns) chat_id text = send_all ns chat_id text

    -- Every notifier is tried; the first error is returned.
    pub send_all : Notifiers → ℤ → Bytes → Delivery
    send_all nobody chat_id text = ([], none)
    send_all (besides n ns) chat_id text =
        let (sent, e) = send n chat_id text in
        let (rest, e') = send_all ns chat_id text in
        (sent ++ rest, elim e [ some first ↦ some first | none ↦ e' ])

pub new_telegram : Bytes → Telegram
new_telegram token = record { token = token; base = [] }

-- Telegram when there is a token, and with `echo` the log beside it; the log otherwise.
pub new_notifier : Bytes → Bool → Notifier
new_notifier token echo =
    if is_empty token
    then to_log
    else if echo
    then multi (besides (telegram (new_telegram token)) (besides to_log nobody))
    else telegram (new_telegram token)
