-- ===== src/Bot/Format.antt =====
-- bot/watcher.go, format: the text of an announced event. The prints of a date, of an amount in floating
-- point and of a quoted text are parameters, and the texts of a view are taken as ASCII.
use gnoracle.Base.{
  ℕ, ◌==◌, ℤ, pos, ltb_ℤ, eqb_ℤ, ◌&&◌, not, List, [], ◌∷◌, ◌++◌, none, some, if◌then◌else◌, str_eq,
}
use gnoracle.Base.Text.{Bytes, codes, bytes_eq, is_empty}
use gnoracle.Base.Text.Decimal.{format_uint, format_int, uint_or_zero}
use gnoracle.Gnochain.Events.{Event, attr, event_string}
use gnoracle.Gnochain.Views.Feeds.{FeedInfo}
use gnoracle.Gnochain.Views.Votes.{DisputeInfo, ProposalInfo}
use gnoracle.Bot.Chain.{Chain}
use gnoracle.Bot.Config.{Config}
use gnoracle.Bot.Scan.{has}
use gnoracle.Bot.Text.{link, when}

abbrev dispute_kinds : List Bytes
dispute_kinds =
    codes "DisputeOpened"
    ∷ codes "DisputeBallotOpened"
    ∷ codes "DisputeRolled"
    ∷ codes "AppealOpened"
    ∷ codes "DisputeDecided"
    ∷ codes "DisputeResolved"
    ∷ codes "KourtDissent"
    ∷ []

abbrev proposal_kinds : List Bytes
proposal_kinds = codes "ProposalCreated" ∷ codes "ProposalStatus" ∷ []

abbrev feed_kinds : List Bytes
feed_kinds =
    codes "ProviderJailed"
    ∷ codes "ProviderSlashed"
    ∷ codes "ProviderEjected"
    ∷ codes "FeedProposed"
    ∷ codes "FeedActivated"
    ∷ codes "FeedDeprecated"
    ∷ codes "FeedUnfunded"
    ∷ codes "FeedReopened"
    ∷ []

-- The pieces of a text, put together.
joined : List Bytes → Bytes
joined [] = []
joined (s ∷ ss) = s ++ joined ss

module _ (format_time : ℤ → Bytes) (float_text : ℤ → Bytes) (quote : Bytes → Bytes) (cfg : Config)
    (chain : Chain) where
  -- The realm that an event is of; the upgrade package counts as the proxy.
  realm_of : Bytes → Bytes
  realm_of path =
      if bytes_eq path cfg.core
      then codes "core"
      else if bytes_eq path cfg.dao
      then codes "dao"
      else if bytes_eq path cfg.kourt
      then codes "kourt"
      else codes "proxy"

  gnot : ℤ → Bytes
  gnot amount = float_text amount ++ codes " GNOT"

  -- A link on a line of its own, where there is one.
  link_line : Bytes → Bytes → Bytes
  link_line path render = let l = link cfg path render in if is_empty l then [] else b'\n' ∷ l

  -- The running ballot of a dispute, with how to vote.
  ballot_line : ℕ → ℤ → Bytes
  ballot_line id now = elim (chain.ballot_of_dispute id) [
    | none ↦ []
    | some none ↦ []
    | some (some bl) ↦
        if not (eqb_ℤ bl.resolved_at (pos 0))
        then []
        else joined (
            codes "\nballot round "
            ∷ format_int bl.round
            ∷ codes ": commit until "
            ∷ when format_time bl.commit_ends now
            ∷ codes ", reveal until "
            ∷ when format_time bl.reveal_ends now
            ∷ codes "\nvote: gnoracle commit "
            ∷ format_uint id
            ∷ codes " <UPHOLD|OVERTURN|OVERTURN_MINOR|VOID|ABSTAIN>, then gnoracle reveal "
            ∷ format_uint id
            ∷ codes " after the commit phase"
            ∷ [])
  ]

  dispute_lines : ℕ → DisputeInfo → Bytes
  dispute_lines id d = joined (
      codes "\nfeed "
      ∷ format_uint d.feed
      ∷ codes " round "
      ∷ format_uint d.round
      ∷ codes ", disputer "
      ∷ codes d.disputer
      ∷ codes ", bond "
      ∷ gnot d.bond
      ∷ codes ", asks "
      ∷ codes d.tier_asked
      ∷ codes ", status "
      ∷ codes d.status
      ∷ (if str_eq d.outcome "" then [] else codes ", outcome " ++ codes d.outcome)
      ∷ (if str_eq d.status "decided" && ltb_ℤ (pos 0) d.appeal_window_ends
          then codes "\nappeal window ends " ++ when format_time d.appeal_window_ends d.head.now
          else [])
      ∷ ballot_line id d.head.now
      ∷ [])

  dispute_text : Event → Bytes
  dispute_text ev =
      let id = uint_or_zero (attr ev (codes "dispute")) in
      let lines : Bytes = elim (chain.dispute id) [ none ↦ [] | some d ↦ dispute_lines id d ] in
      if id == 0 then [] else lines ++ link_line cfg.core (codes "dispute/" ++ format_uint id)

  proposal_lines : ProposalInfo → Bytes
  proposal_lines p = joined (
      codes "\n#"
      ∷ format_uint p.id
      ∷ codes " "
      ∷ codes p.kind
      ∷ codes ": "
      ∷ codes p.title
      ∷ codes " ("
      ∷ codes p.status
      ∷ codes ") "
      ∷ (0xe2 ∷ 0x80 ∷ 0x94 ∷ [])
      ∷ codes " voting ends "
      ∷ when format_time p.voting_ends p.head.now
      ∷ (if str_eq p.status "passed" && ltb_ℤ (pos 0) p.executable
          then codes ", executable from " ++ when format_time p.executable p.head.now
          else [])
      ∷ [])

  proposal_text : Event → Bytes
  proposal_text ev =
      let id = uint_or_zero (attr ev (codes "id")) in
      let lines : Bytes = elim (chain.proposal id) [ none ↦ [] | some p ↦ proposal_lines p ] in
      lines ++ link_line cfg.dao (codes "proposal/" ++ format_uint id)

  feed_lines : FeedInfo → Bytes
  feed_lines f = joined (
      codes "\nfeed "
      ∷ format_uint f.id
      ∷ codes " "
      ∷ quote (codes f.spec.name)
      ∷ codes " ("
      ∷ codes f.spec.kind
      ∷ codes ", "
      ∷ codes f.status
      ∷ codes "), "
      ∷ format_int f.active_count
      ∷ codes " active provider(s)"
      ∷ [])

  feed_text : Event → Bytes
  feed_text ev =
      let id = uint_or_zero (attr ev (codes "feed")) in
      let lines : Bytes = elim (chain.feed id) [ none ↦ [] | some f ↦ feed_lines f ] in
      lines ++ link_line cfg.core (codes "feed/" ++ format_uint id)

  details : Event → Bytes
  details ev =
      if has dispute_kinds ev.kind
      then dispute_text ev
      else if has proposal_kinds ev.kind
      then proposal_text ev
      else if has feed_kinds ev.kind
      then feed_text ev
      else []

  pub format_event : Event → Bytes
  format_event ev = (b'[' ∷ realm_of ev.pkg_path) ++ (codes "] " ++ (event_string ev ++ details ev))
