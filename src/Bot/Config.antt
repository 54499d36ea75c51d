-- ===== src/Bot/Config.antt =====
-- bot/config.go: the tables of bot.toml, their defaults and what they are held to. The parsers of
-- durations and addresses and the environment are parameters; reading the file is left out.
pub mod Laws
use gnoracle.Base.{
  ℕ, ℤ, pos, ltb_ℤ, leb_ℤ, eqb_ℤ, Bool, true, false, ◌&&◌, ◌||◌, not, List, [], ◌∷◌, ◌++◌, Option,
  none, some, if◌then◌else◌,
}
use gnoracle.Base.Result.{Result, ok, err, ◌>>=◌, ◌>>◌, ensure}
use gnoracle.Base.Text.{Bytes, codes, is_empty, bytes_eq}
use gnoracle.Gnochain.Broadcast.{GasConfig, defaults}

pub record TelegramConfig : Type 0 where
  pub token : Bytes
  pub chat : ℤ
  pub echo : Bool

pub record MemberConfig : Type 0 where
  pub addr : Bytes
  pub chat : ℤ
  pub name : Bytes
  pub settle : Bool

pub record RemindConfig : Type 0 where
  pub hours : List ℤ
  pub every : Bytes

pub record CrankConfig : Type 0 where
  pub finalize : Bool
  pub resolve : Bool
  pub kourt : Bool
  pub settle : Bool
  pub every : Bytes
  pub kourt_every : Bytes
  pub settle_every : Bytes
  pub finalize_grace : Bytes
  pub catch_up_empty : Option Bool
  pub catch_up_batch : ℤ

pub record Config : Type 0 where
  pub remote : Bytes
  pub chain_id : Bytes
  pub core : Bytes
  pub dao : Bytes
  pub kourt : Bytes
  pub gnoweb : Bytes
  pub key_home : Bytes
  pub key : Bytes
  pub password_file : Bytes
  pub state : Bytes
  pub poll : Bytes
  pub start_height : ℤ
  pub max_blocks : ℤ
  pub gas : GasConfig
  pub telegram : TelegramConfig
  pub members : List MemberConfig
  pub remind : RemindConfig
  pub crank : CrankConfig
  pub events : List Bytes
  pub proxy_paths : List Bytes

abbrev pub default_events : List Bytes
default_events =
    codes "DisputeOpened"
    ∷ codes "DisputeBallotOpened"
    ∷ codes "DisputeRolled"
    ∷ codes "AppealOpened"
    ∷ codes "DisputeDecided"
    ∷ codes "DisputeResolved"
    ∷ codes "ProposalCreated"
    ∷ codes "ProposalStatus"
    ∷ codes "ProviderJailed"
    ∷ codes "ProviderSlashed"
    ∷ codes "ProviderEjected"
    ∷ codes "KourtDissent"
    ∷ codes "FeedProposed"
    ∷ codes "FeedActivated"
    ∷ codes "FeedDeprecated"
    ∷ codes "FeedUnfunded"
    ∷ codes "FeedReopened"
    ∷ codes "RealmSubscribed"
    ∷ codes "Sponsored"
    ∷ codes "ReleaseAccepted"
    ∷ codes "ReleaseRolledBack"
    ∷ codes "Frozen"
    ∷ codes "AuthorityProposed"
    ∷ codes "AuthorityTransferred"
    ∷ codes "AuthorityCancelled"
    ∷ codes "ParamChanged"
    ∷ codes "ParamDefined"
    ∷ codes "IncentivePaid"
    ∷ codes "UpgradeProposed"
    ∷ codes "UpgradeAccepted"
    ∷ codes "UpgradeRolledBack"
    ∷ codes "UpgradeFrozen"
    ∷ codes "UpgradeWithdrawn"
    ∷ []

abbrev pub default_proxy_paths : List Bytes
default_proxy_paths =
    codes "gno.land/p/g1lnkytfqcjwllws63gvf0mv9yt04aswy4y9amhm/upgradeable/v0"
    ∷ codes "gno.land/p/clockwork/upgradeable/v0"
    ∷ []

-- Config with durations parsed, in nanoseconds.
pub record Params : Type 0 where
  pub poll : ℤ
  pub remind_every : ℤ
  pub crank_every : ℤ
  pub kourt_every : ℤ
  pub settle_every : ℤ
  pub finalize_grace : ℤ
  pub catch_up_empty : Bool
  pub catch_up_batch : ℤ
  pub events : List Bytes

abbrev or_text : Bytes → Bytes → Bytes
or_text [] default = default
or_text (c ∷ s) default = c ∷ s

abbrev or_list : {A : Type 0} → List A → List A → List A
or_list [] default = default
or_list (x ∷ xs) default = x ∷ xs

-- The first half of `Validate`.
unfoldable pub with_defaults : Config → Config
unfolding defaults
with_defaults c = record c {
  state = or_text c.state (codes "bot-state.json");
  max_blocks = if leb_ℤ c.max_blocks (pos 0) then pos 300 else c.max_blocks;
  remind = record {
    hours = or_list c.remind.hours (pos 24 ∷ pos 2 ∷ []);
    every = or_text c.remind.every (codes "10m");
  };
  poll = or_text c.poll (codes "10s");
  crank = record c.crank {
    every = or_text c.crank.every (codes "60s");
    kourt_every = or_text c.crank.kourt_every (codes "1h");
    settle_every = or_text c.crank.settle_every (codes "24h");
    finalize_grace = or_text c.crank.finalize_grace (codes "120s");
  };
  events = or_list c.events default_events;
  proxy_paths = or_list c.proxy_paths default_proxy_paths;
  gas = defaults c.gas;
}

module _ (parse_duration : Bytes → Option ℤ) where
  duration : Bytes → Bytes → Result Bytes ℤ
  duration name text = elim (parse_duration text) [ some d ↦ ok d | none ↦ err name ]

  unfoldable pub params : Config → Result Bytes Params
  unfolding duration
  params c = do
    poll ← duration (codes "poll") c.poll
    remind_every ← duration (codes "remind.every") c.remind.every
    crank_every ← duration (codes "crank.every") c.crank.every
    kourt_every ← duration (codes "crank.kourt_every") c.crank.kourt_every
    settle_every ← duration (codes "crank.settle_every") c.crank.settle_every
    finalize_grace ← duration (codes "crank.finalize_grace") c.crank.finalize_grace
    ok (record {
      poll = poll;
      remind_every = remind_every;
      crank_every = crank_every;
      kourt_every = kourt_every;
      settle_every = settle_every;
      finalize_grace = finalize_grace;
      catch_up_empty = elim c.crank.catch_up_empty [ some b ↦ b | none ↦ true ];
      catch_up_batch =
          if ltb_ℤ (pos 0) c.crank.catch_up_batch then c.crank.catch_up_batch else pos 8;
      events = c.events;
    })

  positive : Params → Result Bytes (Unit {0})
  positive p = do
    ensure (not (leb_ℤ p.poll (pos 0))) (codes "poll must be a positive duration")
    ensure (not (leb_ℤ p.remind_every (pos 0))) (codes "remind.every must be a positive duration")
    ensure (not (leb_ℤ p.crank_every (pos 0))) (codes "crank.every must be a positive duration")
    ensure (not (leb_ℤ p.kourt_every (pos 0)))
        (codes "crank.kourt_every must be a positive duration")
    ensure (not (leb_ℤ p.settle_every (pos 0)))
        (codes "crank.settle_every must be a positive duration")
    ensure (not (ltb_ℤ p.finalize_grace (pos 0)))
        (codes "crank.finalize_grace must not be negative")

module _ (parse_duration : Bytes → Option ℤ) (is_address : Bytes → Bool) (has_mnemonic : Bool) where
  members_valid : List MemberConfig → Result Bytes (Unit {0})
  members_valid [] = ok tt
  members_valid (m ∷ ms) = do ensure (is_address m.addr) (codes "members"); members_valid ms

  cranks : CrankConfig → Bool
  cranks k = k.finalize || (k.resolve || (k.kourt || k.settle))

  -- The second half of `Validate`, on the configuration with its defaults.
  checked : Config → Result Bytes (Unit {0})
  unfolding members_valid cranks params positive
  checked c = do
    members_valid c.members
    ensure (not (cranks c.crank && (is_empty c.key && not has_mnemonic)))
        (codes "cranking needs a key (or GNORACLE_MNEMONIC)")
    ensure (not (c.crank.kourt && is_empty c.kourt))
        (codes "crank.kourt needs the kourt realm path")
    ensure (not (not (is_empty c.telegram.token) && eqb_ℤ c.telegram.chat (pos 0))) (
        codes
          "telegram.token is set but telegram.chat is 0: channel posts would be dropped silently")
    p ← params parse_duration c
    positive parse_duration p

  -- `Validate`: the configuration with its defaults, or why it cannot run.
  unfoldable pub validate : Config → Result Bytes Config
  unfolding with_defaults checked
  validate c = do
    ensure (not (is_empty c.remote || is_empty c.chain_id))
        (codes "remote and chain_id are required")
    ensure (not (is_empty c.core || is_empty c.dao)) (codes "core and dao realm paths are required")
    checked (with_defaults c)
    ok (with_defaults c)
