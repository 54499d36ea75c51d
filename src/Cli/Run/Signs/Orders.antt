-- ===== src/Cli/Run/Signs/Orders.antt =====
-- cmd/gnoracle/main.go: the order and the coins of what the commands that sign send.
use gnoracle.Base.{
  ℕ, Bool, true, false, List, [], ◌∷◌, map, Option, none, some, ◌≡◌, inl, refl, if◌then◌else◌, not,
}
use gnoracle.Base.Result.{Result, ok, err}
use gnoracle.Base.Text.{Bytes, codes, is_empty}
use gnoracle.Base.Text.Decimal.{format_int, format_uint, uint_or_zero}
use gnoracle.Agent.Aggregate.{Rat}
use gnoracle.Cli.Args.{amount, round_arg, feed_value, pyth}
use gnoracle.Cli.Votes.{Call, Ran, commit, reveal}
use gnoracle.Cli.Run.{
  Flags, World, Tx, voted, Done, failed, and_then, transactions, connects, tx, tx_with,
}
use gnoracle.Cli.Run.Signs.{
  SignCommand, register, topup, unbond, withdraw, unjail, claim, submit, finalize, deposit,
  subscribe, propose_feed, sponsor, dispute_open, first_or, joined, appeal, resolve, stake, unstake,
  dao_withdraw, dao_claim, settle, commit_choice, reveal_choice, vote, execute, propose, call,
  kourt_crank, sign, paying, submit_value, deposit_for, propose_spec, open_dispute, stake_approved,
  settle_member, voted_done, feed_read, joined,
}
use gnoracle.Cli.Run.Laws.{Orderly, failed-Orderly, tx_with-Orderly, two-Orderly, printed-Orderly}

-- The argument of a command that is an amount to pay, for those that have one.
unfoldable pub price_of : SignCommand → List Bytes → Option Bytes
price_of register (_ ∷ text ∷ _) = some text
price_of topup (_ ∷ text ∷ _) = some text
price_of deposit (text ∷ _) = some text
price_of subscribe (_ ∷ _ ∷ _ ∷ text ∷ _) = some text
price_of propose_feed (_ ∷ text ∷ _) = some text
price_of sponsor (_ ∷ _ ∷ text ∷ _) = some text
price_of dispute_open (_ ∷ _ ∷ _ ∷ _ ∷ _ ∷ text ∷ _) = some text
price_of appeal (_ ∷ text ∷ _) = some text
price_of propose (_ ∷ _ ∷ _ ∷ text ∷ _) = some text
price_of _ _ = none

module _ (rat_of_text : Bytes → Option Rat) (lower upper : Bytes → Bytes)
    (valid_json : Bytes → Bool) (sum256 : Bytes → Bytes) (chain : Bytes)
    (indent : Bytes → Option Bytes) (c : Flags) (w : World) where
  -- The coins of a command's transactions: the amount that it names, or those of the flag.
  unfoldable pub Paid : SignCommand → List Bytes → Tx → Type 0
  Paid s a t = elim (price_of s a) [
    | none ↦ t.coins ≡ c.send
    | some text ↦ amount rat_of_text lower text ≡ some t.coins
  ]

  -- What a command does behind an early return, or with an answer that may be missing.
  guarded :
      (P : Tx → Type 0) (stops : Bool) (d : Done)
      → Orderly indent c w P d
      → Orderly indent c w P (if stops then failed else d)
  guarded P true d h = failed-Orderly indent c w P
  guarded P false d h = h

  answered :
      {A : Type 0} (P : Tx → Type 0) (o : Option A) (next : A → Done)
      → ((a : A) → o ≡ some a → Orderly indent c w P (next a))
      → Orderly indent c w P (elim o [ none ↦ failed | some a ↦ next a ])
  answered P none next h = failed-Orderly indent c w P
  answered P (some a) next h = h a refl

  reported :
      {E A : Type 0} (P : Tx → Type 0) (r : Result E A) (next : A → Done)
      → ((a : A) → r ≡ ok a → Orderly indent c w P (next a))
      → Orderly indent c w P (elim r [ err _ ↦ failed | ok a ↦ next a ])
  reported P (err e) next h = failed-Orderly indent c w P
  reported P (ok a) next h = h a refl

  Flagged : Tx → Type 0
  Flagged t = t.coins ≡ c.send

  Priced : Bytes → Tx → Type 0
  Priced text t = amount rat_of_text lower text ≡ some t.coins

  tx-Orderly :
      (pkg func : Bytes) (args : List Bytes)
      → Orderly indent c w Flagged (tx indent c w pkg func args)
  unfolding tx Flagged
  tx-Orderly pkg func args = tx_with-Orderly indent c w Flagged c.send pkg func args refl

  coins-Orderly :
      (text coins pkg func : Bytes) (args : List Bytes)
      → amount rat_of_text lower text ≡ some coins
      → Orderly indent c w (Priced text) (tx_with indent c w coins pkg func args)
  unfolding Priced
  coins-Orderly text coins pkg func args e =
      tx_with-Orderly indent c w (Priced text) coins pkg func args e

  paying-Orderly :
      (text pkg func : Bytes) (args : List Bytes)
      → Orderly indent c w
          (Priced text)
          (paying rat_of_text lower upper valid_json sum256 chain indent c w text pkg func args)
  unfolding paying
  paying-Orderly text pkg func args =
      answered (Priced text) (amount rat_of_text lower text) _
        (λ coins e. coins-Orderly text coins pkg func args e)

  submit_value-Orderly :
      (id : ℕ) (r text : Bytes)
      → Orderly indent c w Flagged
          (submit_value rat_of_text lower upper valid_json sum256 chain indent c w id r text)
  unfolding submit_value
  submit_value-Orderly id r text =
      let known = feed_read rat_of_text lower upper valid_json sum256 chain indent c w id in
      answered Flagged (round_arg rat_of_text lower known r) _ (λ n _.
        answered Flagged (feed_value rat_of_text lower known text) _ (λ vf _.
          printed-Orderly indent c w Flagged _ _ (
            tx-Orderly c.core (codes "Submit")
              (format_uint id ∷ format_uint n ∷ format_int vf.0 ∷ []))))

  deposit_for-Orderly :
      (text : Bytes) (a : List Bytes)
      → Orderly indent c w
          (Priced text)
          (deposit_for rat_of_text lower upper valid_json sum256 chain indent c w text a)
  unfolding deposit_for
  deposit_for-Orderly text a = answered (Priced text) (amount rat_of_text lower text) _ (λ coins e.
      guarded (Priced text) (not (connects indent c w true)) _
        (coins-Orderly text coins c.core (codes "DepositFor") (first_or w.me a ∷ []) e))

  propose_spec-Orderly :
      (path text : Bytes)
      → Orderly indent c w
          (Priced text)
          (propose_spec rat_of_text lower upper valid_json sum256 chain indent c w path text)
  unfolding propose_spec
  propose_spec-Orderly path text = answered (Priced text) (w.file path) _ (λ spec _.
      guarded (Priced text) (not (valid_json spec)) _
        (paying-Orderly text c.core (codes "ProposeFeed") (spec ∷ [])))

  open_dispute-Orderly :
      (id n text severity evidence bond : Bytes)
      → Orderly indent c w (Priced bond) (
          open_dispute rat_of_text lower upper valid_json sum256 chain indent c w id n text severity
            evidence bond)
  unfolding open_dispute
  open_dispute-Orderly id n text severity evidence bond =
      let known =
        feed_read rat_of_text lower upper valid_json sum256 chain indent c w (uint_or_zero id) in
      answered (Priced bond) (feed_value rat_of_text lower known text) _ (λ vf _.
        paying-Orderly bond c.core (codes "Dispute")
          (id ∷ n ∷ format_int vf.0 ∷ severity ∷ evidence ∷ []))

  stake_approved-Orderly :
      (text : Bytes)
      → Orderly indent c w Flagged
          (stake_approved rat_of_text lower upper valid_json sum256 chain indent c w text)
  unfolding stake_approved tx Flagged
  stake_approved-Orderly text = guarded Flagged (not (connects indent c w false)) _ (
      reported Flagged w.dao_now _ (λ head _. guarded Flagged (is_empty (codes head.address)) _ (
        two-Orderly indent c w Flagged c.send c.token (codes "Approve")
          (codes head.address ∷ pyth rat_of_text lower text ∷ []) c.dao (codes "Stake")
          (pyth rat_of_text lower text ∷ []) refl refl)))

  settle_member-Orderly :
      (a : List Bytes)
      → Orderly indent c w Flagged
          (settle_member rat_of_text lower upper valid_json sum256 chain indent c w a)
  unfolding settle_member
  settle_member-Orderly a =
      guarded Flagged (not (connects indent c w true)) _
        (tx-Orderly c.dao (codes "SettleMember") (first_or w.me a ∷ codes "0" ∷ []))

  voted-Orderly : (P : Tx → Type 0) (r : Ran) → Orderly indent c w P (voted_done r)
  unfolding Orderly voted_done transactions
  voted-Orderly P r = inl (no_tx r.calls)
    where
      no_tx : (calls : List Call) → transactions (map (λ t. voted t) calls) ≡ []
      no_tx [] = refl
      no_tx (x ∷ xs) = no_tx xs

  claims-Orderly : Orderly indent c w Flagged (
      and_then
        (tx indent c w c.dao (codes "ClaimFees") [])
        (tx indent c w c.dao (codes "ClaimRewards") []))
  unfolding tx Flagged
  claims-Orderly =
      two-Orderly indent c w Flagged c.send c.dao (codes "ClaimFees") [] c.dao
        (codes "ClaimRewards") [] refl refl

  -- The transactions of a command that signs.
  pub sign-Orderly :
      (s : SignCommand) (a : List Bytes)
      → Orderly indent c w
          (Paid s a)
          (sign rat_of_text lower upper valid_json sum256 chain indent c w s a)
  unfolding sign Paid price_of Flagged Priced
  sign-Orderly register [] = failed-Orderly indent c w _
  sign-Orderly register (x ∷ []) = failed-Orderly indent c w _
  sign-Orderly register (x ∷ y ∷ a) = paying-Orderly y c.core (codes "Register") (x ∷ joined a ∷ [])
  sign-Orderly topup [] = failed-Orderly indent c w _
  sign-Orderly topup (x ∷ []) = failed-Orderly indent c w _
  sign-Orderly topup (x ∷ y ∷ a) = paying-Orderly y c.core (codes "TopUp") (x ∷ [])
  sign-Orderly unbond [] = failed-Orderly indent c w _
  sign-Orderly unbond (x ∷ a) = tx-Orderly c.core (codes "RequestUnbond") (x ∷ [])
  sign-Orderly withdraw [] = failed-Orderly indent c w _
  sign-Orderly withdraw (x ∷ a) = tx-Orderly c.core (codes "Withdraw") (x ∷ [])
  sign-Orderly unjail [] = failed-Orderly indent c w _
  sign-Orderly unjail (x ∷ a) = tx-Orderly c.core (codes "Unjail") (x ∷ [])
  sign-Orderly claim [] = failed-Orderly indent c w _
  sign-Orderly claim (x ∷ a) = tx-Orderly c.core (codes "ClaimRewards") (x ∷ [])
  sign-Orderly submit [] = failed-Orderly indent c w _
  sign-Orderly submit (x ∷ []) = failed-Orderly indent c w _
  sign-Orderly submit (x ∷ y ∷ []) = failed-Orderly indent c w _
  sign-Orderly submit (x ∷ y ∷ z ∷ a) = submit_value-Orderly (uint_or_zero x) y z
  sign-Orderly finalize [] = failed-Orderly indent c w _
  sign-Orderly finalize (x ∷ a) =
      tx-Orderly c.core (codes "CatchUp") (x ∷ first_or (codes "0") a ∷ [])
  sign-Orderly deposit [] = failed-Orderly indent c w _
  sign-Orderly deposit (x ∷ a) = deposit_for-Orderly x a
  sign-Orderly subscribe [] = failed-Orderly indent c w _
  sign-Orderly subscribe (x ∷ []) = failed-Orderly indent c w _
  sign-Orderly subscribe (x ∷ y ∷ []) = failed-Orderly indent c w _
  sign-Orderly subscribe (x ∷ y ∷ z ∷ []) = failed-Orderly indent c w _
  sign-Orderly subscribe (x ∷ y ∷ z ∷ u ∷ a) =
      paying-Orderly u c.core (codes "SubscribeRealm") (x ∷ y ∷ z ∷ [])
  sign-Orderly propose_feed [] = failed-Orderly indent c w _
  sign-Orderly propose_feed (x ∷ []) = failed-Orderly indent c w _
  sign-Orderly propose_feed (x ∷ y ∷ a) = propose_spec-Orderly x y
  sign-Orderly sponsor [] = failed-Orderly indent c w _
  sign-Orderly sponsor (x ∷ []) = failed-Orderly indent c w _
  sign-Orderly sponsor (x ∷ y ∷ []) = failed-Orderly indent c w _
  sign-Orderly sponsor (x ∷ y ∷ z ∷ a) = paying-Orderly z c.core (codes "Sponsor") (x ∷ y ∷ [])
  sign-Orderly dispute_open [] = failed-Orderly indent c w _
  sign-Orderly dispute_open (x ∷ []) = failed-Orderly indent c w _
  sign-Orderly dispute_open (x ∷ y ∷ []) = failed-Orderly indent c w _
  sign-Orderly dispute_open (x ∷ y ∷ z ∷ []) = failed-Orderly indent c w _
  sign-Orderly dispute_open (x ∷ y ∷ z ∷ u ∷ []) = failed-Orderly indent c w _
  sign-Orderly dispute_open (x ∷ y ∷ z ∷ u ∷ v ∷ []) = failed-Orderly indent c w _
  sign-Orderly dispute_open (x ∷ y ∷ z ∷ u ∷ v ∷ o ∷ a) = open_dispute-Orderly x y z u v o
  sign-Orderly appeal [] = failed-Orderly indent c w _
  sign-Orderly appeal (x ∷ []) = failed-Orderly indent c w _
  sign-Orderly appeal (x ∷ y ∷ a) = paying-Orderly y c.core (codes "Appeal") (x ∷ [])
  sign-Orderly resolve [] = failed-Orderly indent c w _
  sign-Orderly resolve (x ∷ a) = tx-Orderly c.core (codes "ResolveDispute") (x ∷ [])
  sign-Orderly stake [] = failed-Orderly indent c w _
  sign-Orderly stake (x ∷ a) = stake_approved-Orderly x
  sign-Orderly unstake [] = failed-Orderly indent c w _
  sign-Orderly unstake (x ∷ a) =
      tx-Orderly c.dao (codes "RequestUnstake") (pyth rat_of_text lower x ∷ [])
  sign-Orderly dao_withdraw a = tx-Orderly c.dao (codes "Withdraw") []
  sign-Orderly dao_claim a = claims-Orderly
  sign-Orderly settle a = settle_member-Orderly a
  sign-Orderly commit_choice a = voted-Orderly Flagged (commit sum256 upper chain w.votes w.files a)
  sign-Orderly reveal_choice a = voted-Orderly Flagged (reveal sum256 upper chain w.votes w.files a)
  sign-Orderly vote [] = failed-Orderly indent c w _
  sign-Orderly vote (x ∷ []) = failed-Orderly indent c w _
  sign-Orderly vote (x ∷ y ∷ a) = tx-Orderly c.dao (codes "Vote") (x ∷ upper y ∷ [])
  sign-Orderly execute [] = failed-Orderly indent c w _
  sign-Orderly execute (x ∷ a) = tx-Orderly c.dao (codes "Execute") (x ∷ [])
  sign-Orderly propose [] = failed-Orderly indent c w _
  sign-Orderly propose (x ∷ []) = failed-Orderly indent c w _
  sign-Orderly propose (x ∷ y ∷ []) = failed-Orderly indent c w _
  sign-Orderly propose (x ∷ y ∷ z ∷ []) = failed-Orderly indent c w _
  sign-Orderly propose (x ∷ y ∷ z ∷ u ∷ a) =
      paying-Orderly u c.dao (codes "Propose") (x ∷ y ∷ z ∷ [])
  sign-Orderly call [] = failed-Orderly indent c w _
  sign-Orderly call (x ∷ []) = failed-Orderly indent c w _
  sign-Orderly call (x ∷ y ∷ a) = tx-Orderly x y a
  sign-Orderly kourt_crank [] = failed-Orderly indent c w _
  sign-Orderly kourt_crank (x ∷ a) = tx-Orderly c.kourt (codes "Crank") (x ∷ [])
