-- ===== src/Bot/Config/Laws.antt =====
-- bot/config.go, Validate: what an accepted configuration gives the bot.
use gnoracle.Base.{
  ℕ, ℤ, pos, ◌≤ℤ◌, ◌<ℤ◌, Bool, false, List, [], ◌∷◌, Option, ◌≡◌, ◌≢◌, inl, inr, arith, refl, leb_ℤ,
  if◌then◌else◌,
}
use gnoracle.Base.Result.{ok, Result-cases}
use gnoracle.Base.Text.{Bytes, is_empty, codes}
use gnoracle.Gnochain.Broadcast.{GasConfig, defaults}
use gnoracle.Bot.Config.{
  Config, Params, with_defaults, params, positive, checked, validate, or_text, or_list,
  default_events, default_proxy_paths,
}

-- The settings that the bot's loop divides by, waits for and counts with.
pub record IsRunnable (p : Params) : Type 0 where
  pub poll_positive : pos 0 <ℤ p.poll
  pub remind_positive : pos 0 <ℤ p.remind_every
  pub crank_positive : pos 0 <ℤ p.crank_every
  pub kourt_positive : pos 0 <ℤ p.kourt_every
  pub settle_positive : pos 0 <ℤ p.settle_every
  pub grace_nonneg : pos 0 ≤ℤ p.finalize_grace
  pub batch_positive : pos 0 <ℤ p.catch_up_batch

or_text-or_text : (s d : Bytes) → or_text (or_text s d) d ≡ or_text s d
or_text-or_text [] [] = refl
or_text-or_text [] (c ∷ d) = refl
or_text-or_text (c ∷ s) d = refl

or_list-or_list : {A : Type 0} (xs ys : List A) → or_list (or_list xs ys) ys ≡ or_list xs ys
or_list-or_list [] [] = refl
or_list-or_list [] (y ∷ ys) = refl
or_list-or_list (x ∷ xs) ys = refl

-- A default that stands for an empty text, taken twice.
filled_again :
    (s d : Bytes)
    → let filled = if is_empty s then d else s in (if is_empty filled then d else filled) ≡ filled
filled_again [] [] = refl
filled_again [] (c ∷ d) = refl
filled_again (c ∷ s) d = refl

-- A default that stands for a count that is not positive, taken twice.
counted_again :
    (z : ℤ) (n : ℕ)
    → let counted = if leb_ℤ z (pos 0) then pos n else z in
      (if leb_ℤ counted (pos 0) then pos n else counted) ≡ counted
counted_again z n = ground arith

defaults-defaults : (g : GasConfig) → defaults (defaults g) ≡ defaults g
unfolding defaults
defaults-defaults g = λ i. record {
  mode = filled_again g.mode (codes "estimate") i;
  wanted = counted_again g.wanted 60000000 i;
  price = filled_again g.price (codes "0.001ugnot") i;
  margin_bps = counted_again g.margin_bps 2500 i;
  max_deposit = filled_again g.max_deposit (codes "5000000ugnot") i;
}

with_defaults-with_defaults : (c : Config) → with_defaults (with_defaults c) ≡ with_defaults c
unfolding with_defaults
with_defaults-with_defaults c = λ i. record (with_defaults c) {
  max_blocks = counted_again c.max_blocks 300 i;
  state = or_text-or_text c.state (codes "bot-state.json") i;
  remind = record {
    hours = or_list-or_list c.remind.hours (pos 24 ∷ pos 2 ∷ []) i;
    every = or_text-or_text c.remind.every (codes "10m") i;
  };
  poll = or_text-or_text c.poll (codes "10s") i;
  crank = record c.crank {
    every = or_text-or_text c.crank.every (codes "60s") i;
    kourt_every = or_text-or_text c.crank.kourt_every (codes "1h") i;
    settle_every = or_text-or_text c.crank.settle_every (codes "24h") i;
    finalize_grace = or_text-or_text c.crank.finalize_grace (codes "120s") i;
  };
  events = or_list-or_list c.events default_events i;
  proxy_paths = or_list-or_list c.proxy_paths default_proxy_paths i;
  gas = defaults-defaults c.gas i;
}

kept :
    (c : Config)
    → let v = with_defaults c in
      (v.core ≡ c.core) × (v.dao ≡ c.dao) × (v.remote ≡ c.remote) × (v.chain_id ≡ c.chain_id)
unfolding with_defaults
kept c = (refl, refl, refl, refl)

named :
    (c : Config)
    → is_empty c.core ≡ false
    → is_empty c.dao ≡ false
    → ((with_defaults c).core ≢ []) × ((with_defaults c).dao ≢ [])
named c core dao = ground (arith, kept c, core, dao)

module _ (parse_duration : Bytes → Option ℤ) where
  batch_of : (p : Params) (c : Config) → params parse_duration c ≡ ok p → pos 0 <ℤ p.catch_up_batch
  unfolding params
  batch_of p c e = ground arith

  positive-IsRunnable :
      (p : Params) → positive parse_duration p ≡ ok tt → pos 0 <ℤ p.catch_up_batch → IsRunnable p
  unfolding positive
  positive-IsRunnable p e batch = ground arith

module _ (parse_duration : Bytes → Option ℤ) (is_address : Bytes → Bool) (has_mnemonic : Bool) where
  checked_ok :
      (c : Config)
      → checked parse_duration is_address has_mnemonic c ≡ ok tt
      → (p : Params) × (params parse_duration c ≡ ok p) × (positive parse_duration p ≡ ok tt)
  unfolding checked
  checked_ok c e = elim (Result-cases (params parse_duration c)) [
    | inl (p, parsed) ↦ (p, parsed, ground (arith, parsed))
    | inr (why, bad) ↦ absurd (ground (arith, bad))
  ]

  validate_ok :
      (c : Config) {v : Config}
      → validate parse_duration is_address has_mnemonic c ≡ ok v
      → (v ≡ with_defaults c)
        × (checked parse_duration is_address has_mnemonic (with_defaults c) ≡ ok tt)
        × (is_empty c.core ≡ false)
        × (is_empty c.dao ≡ false)
        × (is_empty c.remote ≡ false)
        × (is_empty c.chain_id ≡ false)
  unfolding validate
  validate_ok c {v} e = ground arith

  validate-with_defaults :
      (c : Config)
      → checked parse_duration is_address has_mnemonic (with_defaults c) ≡ ok tt
      → is_empty c.core ≡ false
      → is_empty c.dao ≡ false
      → is_empty c.remote ≡ false
      → is_empty c.chain_id ≡ false
      → validate parse_duration is_address has_mnemonic (with_defaults c) ≡ ok (with_defaults c)
  unfolding validate
  validate-with_defaults c right core dao remote chain =
      let again = with_defaults-with_defaults c in
      ground (arith, again, right, kept c, core, dao, remote, chain)

  -- What is accepted has its defaults, parses to settings with positive cadences, a grace that is not
  -- negative and a positive batch, names its realms, and is accepted again
  -- as it is.
  pub validate_sound :
      (c : Config) {v : Config}
      → validate parse_duration is_address has_mnemonic c ≡ ok v
      → (p : Params) × (v ≡ with_defaults c)
        × (params parse_duration v ≡ ok p)
        × IsRunnable p
        × ((v.core ≢ []) × (v.dao ≢ []))
        × (validate parse_duration is_address has_mnemonic v ≡ ok v)
  validate_sound c {v} e =
      let (same, right, core, dao, remote, chain) = validate_ok c e in
      let (p, parsed, positive_all) = checked_ok (with_defaults c) right in
      (
        p,
        same,
        rw same parsed,
        positive-IsRunnable parse_duration p positive_all
            (batch_of parse_duration p (with_defaults c) parsed),
        rw same (named c core dao),
        rw same (validate-with_defaults c right core dao remote chain),
      )
