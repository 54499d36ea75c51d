-- ===== src/Cli/Run/Signs.antt =====
-- cmd/gnoracle/main.go, run: the commands that send transactions. A command with too few arguments
-- fails before anything else.
pub mod Orders
use gnoracle.Base.{
  ℕ, Bool, true, false, not, List, [], ◌∷◌, ◌++◌, map, Option, none, some, if◌then◌else◌, ℤ,
}
use gnoracle.Base.Result.{ok, err}
use gnoracle.Base.Text.{Bytes, codes, is_empty}
use gnoracle.Base.Text.Decimal.{format_int, format_uint, uint_or_zero}
use gnoracle.Gnochain.Views.Feeds.{FeedInfo}
use gnoracle.Agent.Aggregate.{Rat}
use gnoracle.Cli.Args.{amount, pyth, feed_value, round_arg}
use gnoracle.Cli.Votes.{Ran, commit, reveal}
use gnoracle.Cli.Run.{
  Flags, World, Done, Action, printed, voted, failed, and_then, connects, tx, tx_with,
}

pub data SignCommand : Type 0 where
  register topup unbond withdraw unjail claim submit finalize deposit subscribe propose_feed sponsor
        dispute_open appeal resolve stake unstake dao_withdraw dao_claim settle commit_choice
        reveal_choice vote execute propose call kourt_crank :
      SignCommand

-- `strings.Join` with spaces.
joined : List Bytes → Bytes
joined [] = []
joined (x ∷ []) = x
joined (x ∷ y ∷ xs) = x ++ b' ' ∷ joined (y ∷ xs)

abbrev first_or : Bytes → List Bytes → Bytes
first_or default [] = default
first_or default (x ∷ xs) = x

-- What was voted, as a part of the log.
voted_done : Ran → Done
voted_done r = record { log = map (λ t. voted t) r.calls; succeeded = r.succeeded }

module _ (rat_of_text : Bytes → Option Rat) (lower upper : Bytes → Bytes)
    (valid_json : Bytes → Bool) (sum256 : Bytes → Bytes) (chain : Bytes)
    (indent : Bytes → Option Bytes) (c : Flags) (w : World) where
  -- A transaction with the coins of an amount, which must be one.
  paying : Bytes → Bytes → Bytes → List Bytes → Done
  paying text pkg func args = elim (amount rat_of_text lower text) [
    | none ↦ failed
    | some coins ↦ tx_with indent c w coins pkg func args
  ]

  feed_read : ℕ → Option FeedInfo
  feed_read id = if connects indent c w false then w.feed id else none

  submitting_line : Bytes → ℤ → ℕ → ℕ → Bytes
  submitting_line text v feed round =
      codes "submitting "
      ++ text
      ++ codes " = "
      ++ format_int v
      ++ codes " to feed "
      ++ format_uint feed
      ++ codes " round "
      ++ format_uint round

  -- The round is read first, then the value on the feed's scale.
  submit_value : ℕ → Bytes → Bytes → Done
  submit_value feed r text = elim (round_arg rat_of_text lower (feed_read feed) r) [
    | none ↦ failed
    | some round ↦ elim (feed_value rat_of_text lower (feed_read feed) text) [
      | none ↦ failed
      | some (v, _) ↦
          and_then
            (record { log = printed (submitting_line text v feed round) ∷ []; succeeded = true })
            (tx indent c w c.core (codes "Submit")
              (format_uint feed ∷ format_uint round ∷ format_int v ∷ []))
    ]
  ]

  -- For the signer, or the account that is named; the client is made to know the signer.
  deposit_for : Bytes → List Bytes → Done
  deposit_for text a = elim (amount rat_of_text lower text) [
    | none ↦ failed
    | some coins ↦
        if not (connects indent c w true)
        then failed
        else tx_with indent c w coins c.core (codes "DepositFor") (first_or w.me a ∷ [])
  ]

  propose_spec : Bytes → Bytes → Done
  propose_spec path text = elim (w.file path) [
    | none ↦ failed
    | some spec ↦
        if not (valid_json spec)
        then failed
        else paying text c.core (codes "ProposeFeed") (spec ∷ [])
  ]

  open_dispute : Bytes → Bytes → Bytes → Bytes → Bytes → Bytes → Done
  open_dispute feed round text severity evidence bond =
      elim (feed_value rat_of_text lower (feed_read (uint_or_zero feed)) text) [
        | none ↦ failed
        | some (v, _) ↦
            paying bond c.core (codes "Dispute")
              (feed ∷ round ∷ format_int v ∷ severity ∷ evidence ∷ [])
      ]

  -- The DAO pulls the tokens, so it is approved on the token first.
  stake_approved : Bytes → Done
  stake_approved text = if not (connects indent c w false) then failed else elim w.dao_now [
    | err _ ↦ failed
    | ok head ↦
        if is_empty (codes head.address)
        then failed
        else and_then
            (tx indent c w c.token (codes "Approve")
              (codes head.address ∷ pyth rat_of_text lower text ∷ []))
            (tx indent c w c.dao (codes "Stake") (pyth rat_of_text lower text ∷ []))
  ]

  settle_member : List Bytes → Done
  settle_member a =
      if not (connects indent c w true)
      then failed
      else tx indent c w c.dao (codes "SettleMember") (first_or w.me a ∷ codes "0" ∷ [])

  pub sign : SignCommand → List Bytes → Done
  sign register (feed ∷ text ∷ memo) =
      paying text c.core (codes "Register") (feed ∷ joined memo ∷ [])
  sign topup (feed ∷ text ∷ a) = paying text c.core (codes "TopUp") (feed ∷ [])
  sign unbond (feed ∷ a) = tx indent c w c.core (codes "RequestUnbond") (feed ∷ [])
  sign withdraw (feed ∷ a) = tx indent c w c.core (codes "Withdraw") (feed ∷ [])
  sign unjail (feed ∷ a) = tx indent c w c.core (codes "Unjail") (feed ∷ [])
  sign claim (feed ∷ a) = tx indent c w c.core (codes "ClaimRewards") (feed ∷ [])
  sign submit (feed ∷ round ∷ text ∷ a) = submit_value (uint_or_zero feed) round text
  sign finalize (feed ∷ a) =
      tx indent c w c.core (codes "CatchUp") (feed ∷ first_or (codes "0") a ∷ [])
  sign deposit (text ∷ a) = deposit_for text a
  sign subscribe (feed ∷ realm ∷ periods ∷ text ∷ a) =
      paying text c.core (codes "SubscribeRealm") (feed ∷ realm ∷ periods ∷ [])
  sign propose_feed (path ∷ text ∷ a) = propose_spec path text
  sign sponsor (feed ∷ periods ∷ text ∷ a) =
      paying text c.core (codes "Sponsor") (feed ∷ periods ∷ [])
  sign dispute_open (feed ∷ round ∷ text ∷ severity ∷ evidence ∷ bond ∷ a) =
      open_dispute feed round text severity evidence bond
  sign appeal (d ∷ bond ∷ a) = paying bond c.core (codes "Appeal") (d ∷ [])
  sign resolve (d ∷ a) = tx indent c w c.core (codes "ResolveDispute") (d ∷ [])
  sign stake (text ∷ a) = stake_approved text
  sign unstake (text ∷ a) =
      tx indent c w c.dao (codes "RequestUnstake") (pyth rat_of_text lower text ∷ [])
  sign dao_withdraw a = tx indent c w c.dao (codes "Withdraw") []
  sign dao_claim a =
      and_then (tx indent c w c.dao (codes "ClaimFees") [])
        (tx indent c w c.dao (codes "ClaimRewards") [])
  sign settle a = settle_member a
  sign commit_choice a = voted_done (commit sum256 upper chain w.votes w.files a)
  sign reveal_choice a = voted_done (reveal sum256 upper chain w.votes w.files a)
  sign vote (p ∷ choice ∷ a) = tx indent c w c.dao (codes "Vote") (p ∷ upper choice ∷ [])
  sign execute (p ∷ a) = tx indent c w c.dao (codes "Execute") (p ∷ [])
  sign propose (kind ∷ payload ∷ title ∷ text ∷ a) =
      paying text c.dao (codes "Propose") (kind ∷ payload ∷ title ∷ [])
  sign call (pkg ∷ func ∷ a) = tx indent c w pkg func a
  sign kourt_crank (d ∷ a) = tx indent c w c.kourt (codes "Crank") (d ∷ [])
  sign _ _ = failed
