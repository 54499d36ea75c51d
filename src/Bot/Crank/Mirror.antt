-- ===== src/Bot/Crank/Mirror.antt =====
-- bot/cranker.go, crankResolve, crankKourt and crankSettle: disputes, the court mirror and members.
pub mod Laws
pub mod Follows
use gnoracle.Base.{
  ℕ, ltb, leb, ◌+◌, ℤ, pos, ltb_ℤ, leb_ℤ, eqb_ℤ, Bool, true, false, ◌&&◌, ◌||◌, not, List, [], ◌∷◌,
  ◌++◌, Option, none, some, if◌then◌else◌, str_eq,
}
use gnoracle.Base.Int64.{div64}
use gnoracle.Base.Result.{ok, err}
use gnoracle.Base.Text.{Bytes, codes, bytes_eq}
use gnoracle.Base.Text.Decimal.{format_uint}
use gnoracle.Gnochain.Broadcast.{TxResult}
use gnoracle.Gnochain.Views.Votes.{
  DisputeInfo, BallotInfo, KourtRecord, MemberInfo, terminal, due as is_due,
}
use gnoracle.Agent.Config.{second}
use gnoracle.Bot.Chain.{Chain, Effect, sent, post, resolve_dispute, crank_mirror, settle_member}
use gnoracle.Bot.Config.{Config, Params, MemberConfig}
use gnoracle.Bot.State.{State, due}
use gnoracle.Bot.Text.{link}
use gnoracle.Bot.Crank.Finalize.{Bot, Cranked}

abbrev with_state : Bot → State → Bot
with_state b s = record b { state = s }

module _ (p : Params) (chain : Chain) where
  -- Whether a dispute's ballot or appeal window is over. A reading that fails says no.
  pub ready : DisputeInfo → Bool
  ready d =
      if str_eq d.status "open" || str_eq d.status "appealed"
      then elim (chain.ballot_of_dispute d.id) [
        | some (some bl) ↦ eqb_ℤ bl.resolved_at (pos 0) && leb_ℤ bl.reveal_ends d.head.now
        | some none ↦ false
        | none ↦ false
      ]
      else str_eq d.status "decided"
        && (ltb_ℤ (pos 0) d.appeal_window_ends && leb_ℤ d.appeal_window_ends d.head.now)

  abbrev resolve_key : DisputeInfo → Bytes
  resolve_key d = codes "resolve:" ++ (format_uint d.id ++ (b':' ∷ codes d.status))

  pub resolve_one : DisputeInfo → Bot → Cranked
  resolve_one d b =
      let (state, may) =
        due (resolve_key d) (div64 p.crank_every (pos second)) chain.clock b.state in
      if not (ready d) then record { bot = b; log = [] } else record {
        bot = with_state b state;
        log = if may then sent (resolve_dispute d.id) ∷ [] else [];
      }

  pub resolve_all : List DisputeInfo → Bot → Cranked
  resolve_all [] b = record { bot = b; log = [] }
  resolve_all (d ∷ ds) b =
      let c = resolve_one d b in
      let c' = resolve_all ds c.bot in record c' { log = c.log ++ c'.log }

  unfoldable pub crank_resolve : Bot → Cranked
  unfolding resolve_all
  crank_resolve b = elim chain.all_disputes [
    | none ↦ record { bot = b; log = [] }
    | some disputes ↦ resolve_all disputes b
  ]

module _ (cfg : Config) (chain : Chain) where
  -- A dissent of the court is posted.
  pub dissent : ℕ → Effect
  dissent id = post (
      codes "Kourt DISSENT on dispute "
      ++ (format_uint id
          ++ (codes ": the court's vote disagreed with the DAO. "
              ++ link cfg cfg.kourt (codes "dispute/" ++ format_uint id))))

  pub mirror_state : TxResult → Bytes
  mirror_state res = elim res.results [ [] ↦ [] | r ∷ rs ↦ r ]

  pub crank_record : ℕ → List Effect
  crank_record id = sent (crank_mirror id) ∷ elim (chain.call (crank_mirror id)) [
    | err e ↦ []
    | ok res ↦ if bytes_eq (mirror_state res) (codes "dissent") then dissent id ∷ [] else []
  ]

  -- The court's clocks have not run, or the case is over.
  pub rests : KourtRecord → Bool
  rests r = r.exists && (terminal r || not (is_due r r.now))

  pub kourt_one : DisputeInfo → Bot → Cranked
  kourt_one d b =
      let (state, may) =
        due (codes "kourt-contested:" ++ format_uint d.id) (pos 86400) chain.clock b.state in
      if not (str_eq d.status "resolved")
      then record { bot = b; log = [] }
      else elim (chain.kourt_record d.id) [
        | none ↦ record { bot = b; log = [] }
        | some r ↦
            if rests r
            then record { bot = b; log = [] }
            else if r.exists && str_eq r.state "contested"
            then record { bot = with_state b state; log = if may then crank_record d.id else [] }
            else record { bot = b; log = crank_record d.id }
      ]

  pub kourt_all : List DisputeInfo → Bot → Cranked
  kourt_all [] b = record { bot = b; log = [] }
  kourt_all (d ∷ ds) b =
      let c = kourt_one d b in let c' = kourt_all ds c.bot in record c' { log = c.log ++ c'.log }

  unfoldable pub crank_kourt : Bot → Cranked
  unfolding kourt_all
  crank_kourt b = elim chain.all_disputes [
    | none ↦ record { bot = b; log = [] }
    | some disputes ↦ kourt_all disputes b
  ]

  -- Whether a member has a final ballot behind their cursor.
  pub owes : ℕ → MemberConfig → Bool
  owes ballot_count m = elim (chain.member m.addr) [
    | none ↦ false
    | some mi ↦
        mi.exists
        && (ltb mi.cursor ballot_count
            && elim (chain.ballot (mi.cursor + 1)) [ some next ↦ next.final | none ↦ false ])
  ]

  pub settle_all : ℕ → List MemberConfig → List Effect
  settle_all ballot_count [] = []
  settle_all ballot_count (m ∷ ms) =
      let rest = settle_all ballot_count ms in
      if m.settle && owes ballot_count m then sent (settle_member m.addr) ∷ rest else rest

  unfoldable pub crank_settle : Bot → Cranked
  unfolding settle_all
  crank_settle b = elim chain.dao_now [
    | none ↦ record { bot = b; log = [] }
    | some head ↦ record { bot = b; log = settle_all head.ballot_count cfg.members }
  ]
