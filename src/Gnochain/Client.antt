-- ===== src/Gnochain/Client.antt =====
-- internal/gnochain/client.go: a client is made from a configuration: its gas price is taken apart and
-- its key opened. The keybase, the environment, the password file and the number parser are
-- parameters; the HTTP client is made or not.
pub mod Price
pub mod Key
mod Tests
use gnoracle.Base.{
  ℕ, zero, suc, leb, ◌+◌, ℤ, pos, leb_ℤ, Bool, true, false, ◌&&◌, ◌||◌, not, List, [], ◌∷◌, Option,
  none, some, if◌then◌else◌, ◌==◌,
}
use gnoracle.Base.Result.{Result, ok, err, ensure, ◌>>=◌, ◌>>◌}
use gnoracle.Base.Text.{Bytes, codes, contains, is_empty, trim_right, trim_space}
use gnoracle.Gnochain.Broadcast.{GasConfig, defaults}

pub data ClientError : Type 0 where
  no_remote no_http bad_max_deposit no_key_home : ClientError
  bad_shape bad_number : Bytes → ClientError
  password_file mnemonic_error still_trying : ClientError
  not_found held not_exported not_imported not_listed not_signing : Bytes → ClientError

pub record KeyConfig : Type 0 where
  pub key_home : Bytes
  pub key_name : Bytes
  pub password : Bytes
  pub password_file : Bytes
  pub mnemonic : Bytes

-- What the environment, the password file and the keybases answer. A lookup opens the keybase on disk
-- and finds the key by its name or address; it answers the key's name.
pub record KeyReplies : Type 0 where
  pub file_text : Option Bytes
  pub env_password : Bytes
  pub env_mnemonic : Bytes
  pub creates : Bytes → Bytes → Bytes → Bool
  pub look_up : ℕ → Result Bytes Bytes
  pub exports : Bytes → Bytes → Option Bytes
  pub imports : Bytes → Bytes → Bytes → Bool
  pub lists : Bytes → Bool
  pub signs : Bytes → Bytes → Bool

pub record Signer : Type 0 where
  pub account : Bytes
  pub secret : Bytes

abbrev pub or_else : Bytes → Bytes → Bytes
or_else s default = if is_empty s then default else s

abbrev is_line_end : ℕ → Bool
is_line_end c = c == 13 || c == 10

is_digit_or_point : ℕ → Bool
is_digit_or_point c = (leb b'0' c && leb c b'9') || c == b'.'

-- The longest beginning of digits and points, and what is behind it.
pub span_number : Bytes → Bytes × Bytes
span_number [] = ([], [])
span_number (c ∷ s) =
    let (number, unit) = span_number s in
    if is_digit_or_point c then (c ∷ number, unit) else ([], c ∷ s)

module _ {Number : Type 0} (parse_float : Bytes → Option Number) (is_positive : Number → Bool) where
  price_number : Bytes → Bytes → Result ClientError Number
  price_number s number = elim (parse_float number) [
    | none ↦ err (bad_number s)
    | some n ↦ if is_positive n then ok n else err (bad_number s)
  ]

  price_of : Bytes → Bytes → Bytes → Result ClientError (Number × Bytes)
  price_of s number unit =
      if is_empty number || is_empty unit
      then err (bad_shape s)
      else (do n ← price_number s number; ok (n, unit))

  pub parse_gas_price : Bytes → Result ClientError (Number × Bytes)
  parse_gas_price s =
      let (number, unit) = span_number (trim_space s) in price_of (trim_space s) number unit

module _ (cfg : KeyConfig) (replies : KeyReplies) where
  -- The password of the configuration, of its file, or of the environment.
  pub given_password : Result ClientError Bytes
  given_password =
      if is_empty cfg.password && not (is_empty cfg.password_file)
      then elim replies.file_text [
        | none ↦ err password_file
        | some b ↦ ok (or_else (trim_right is_line_end b) replies.env_password)
      ]
      else ok (or_else cfg.password replies.env_password)

  pub is_locked : Bytes → Bool
  unfolding contains
  is_locked e =
      contains e (codes "resource temporarily unavailable") || contains e (codes "initializing DB")

  -- Another process may hold the keybase: forty more attempts, each on one unit of fuel.
  look_up_from : ℕ → ℕ → Result ClientError Bytes
  look_up_from zero attempt = err still_trying
  look_up_from (suc fuel) attempt =
      let again = look_up_from fuel (attempt + 1) in
      elim (replies.look_up attempt) [
        | ok name ↦ ok name
        | err e ↦
            if not (is_locked e)
            then err (not_found e)
            else if leb 40 attempt
            then err (held e)
            else again
      ]

  pub disk_key : Result ClientError Bytes
  disk_key = look_up_from 41 0

  -- A key that lists and signs a trial message with its password.
  pub signer_of : Bytes → Bytes → Result ClientError Signer
  signer_of name password = do
    ensure (replies.lists name) (not_listed name)
    ensure (replies.signs name password) (not_signing name)
    ok (record { account = name; secret = password })

  from_mnemonic : Bytes → Bytes → Result ClientError Signer
  from_mnemonic mnemonic given =
      let name = or_else cfg.key_name (codes "gnoracle") in
      let password = or_else given (codes "in-memory") in
      do
        ensure (replies.creates name (trim_space mnemonic) password) mnemonic_error
        signer_of name password

  exported : Bytes → Bytes → Result ClientError Bytes
  exported name password = elim (replies.exports name password) [
    | none ↦ err (not_exported name)
    | some secret ↦ ok secret
  ]

  from_disk : Bytes → Result ClientError Signer
  from_disk given = do
    ensure (not (is_empty cfg.key_home)) no_key_home
    name ← disk_key
    secret ← exported name (or_else given (codes "in-memory"))
    ensure (replies.imports name secret (or_else given (codes "in-memory"))) (not_imported name)
    signer_of name (or_else given (codes "in-memory"))

  pub open_key : Result ClientError Signer
  open_key =
      let mnemonic = or_else cfg.mnemonic replies.env_mnemonic in
      do
        given ← given_password
        if is_empty mnemonic then from_disk given else from_mnemonic mnemonic given

pub record Client (Number : Type 0) : Type 0 where
  pub remote : Bytes
  pub timeout : ℤ
  pub gas : GasConfig
  pub price : Number
  pub denom : Bytes
  pub signer : Option Signer

module _ {Number : Type 0} (parse_float : Bytes → Option Number) (is_positive : Number → Bool)
    (coins_parse : Bytes → Bool) (http_client : Bytes → Bool) where
  -- A key is wanted by its name, by a mnemonic, or by the environment's.
  pub wants_key : KeyConfig → KeyReplies → Bool
  wants_key key replies =
      not (is_empty key.key_name)
      || not (is_empty key.mnemonic)
      || not (is_empty replies.env_mnemonic)

  signer_wanted : KeyConfig → KeyReplies → Result ClientError (Option Signer)
  signer_wanted key replies =
      if wants_key key replies then (do s ← open_key key replies; ok (some s)) else ok none

  client_of : Bytes → ℤ → GasConfig → Number × Bytes → Option Signer → Client Number
  client_of remote timeout gas p signer = record {
    remote = remote;
    timeout = if leb_ℤ timeout (pos 0) then pos 30000000000 else timeout;
    gas = defaults gas;
    price = p.0;
    denom = p.1;
    signer = signer;
  }

  pub new_client :
      Bytes → ℤ → GasConfig → KeyConfig → KeyReplies → Result ClientError (Client Number)
  new_client remote timeout gas key replies = do
    ensure (not (is_empty remote)) no_remote
    ensure (http_client remote) no_http
    p ← parse_gas_price parse_float is_positive (defaults gas).price
    ensure (coins_parse (defaults gas).max_deposit) bad_max_deposit
    signer ← signer_wanted key replies
    ok (client_of remote timeout gas p signer)
