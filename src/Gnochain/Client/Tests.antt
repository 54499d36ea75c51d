-- ===== src/Gnochain/Client/Tests.antt =====
-- A gas price and a key at concrete answers.
use gnoracle.Base.{ℕ, ◌≤◌, Bool, true, [], Option, none, some, ◌≡◌, ◌≢◌, ◌⊎◌, refl}
use gnoracle.Base.Result.{ok, err}
use gnoracle.Base.Text.{Bytes, codes, trim_space, trim, trim_left, trim_right}
use gnoracle.Gnochain.Client.{
  KeyConfig, KeyReplies, Signer, parse_gas_price, span_number, is_digit_or_point, price_of,
  price_number, disk_key, open_key, from_mnemonic, given_password, signer_of,
}
use gnoracle.Gnochain.Client.Price.{IsSplit, parse_gas_price_sound}
use gnoracle.Gnochain.Client.Key.{Decides, locked_at, disk_key_lem}

abbrev as_one : Bytes → Option ℕ
as_one s = some 1

abbrev always : ℕ → Bool
always n = true

parsed : parse_gas_price as_one always (codes " 0.001ugnot") ≡ ok (1, codes "ugnot")
unfolding parse_gas_price span_number price_of price_number trim_space trim trim_left trim_right
    is_digit_or_point
parsed = refl

parse_gas_price_sound_example :
    (number : Bytes) × IsSplit (trim_space (codes " 0.001ugnot")) number (codes "ugnot")
    × (number ≢ [])
    × (codes "ugnot" ≢ [])
    × (as_one number ≡ some 1)
    × (always 1 ≡ true)
parse_gas_price_sound_example =
    parse_gas_price_sound as_one always (codes " 0.001ugnot") 1 (codes "ugnot") parsed

abbrev key_config : KeyConfig
key_config = record {
  key_home = codes "keys";
  key_name = codes "agent";
  password = codes "secret";
  password_file = [];
  mnemonic = codes "one two";
}

abbrev busy_keys : KeyReplies
busy_keys = record {
  file_text = none;
  env_password = [];
  env_mnemonic = [];
  creates = λ name mnemonic password. true;
  look_up = λ n. err (codes "resource temporarily unavailable");
  exports = λ name password. none;
  imports = λ name secret password. true;
  lists = λ name. true;
  signs = λ name password. true;
}

disk_key_lem_example :
    (n : ℕ) × (n ≤ 40)
    × ((j : ℕ) → (n ≤ j) ⊎ (locked_at key_config busy_keys j ≡ true))
    × Decides key_config busy_keys n (disk_key key_config busy_keys)
disk_key_lem_example = disk_key_lem key_config busy_keys

abbrev agent_signer : Signer
agent_signer = record { account = codes "agent"; secret = codes "secret" }

opened : open_key key_config busy_keys ≡ ok agent_signer
unfolding open_key from_mnemonic given_password signer_of
opened = refl
