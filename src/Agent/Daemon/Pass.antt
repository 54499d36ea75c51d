-- ===== src/Agent/Daemon/Pass.antt =====
-- What one pass of the daemon does to the memory and to the state file.
use gnoracle.Base.{
  ℕ, ◌==◌, ==_iff, ◌||◌, if◌then◌else◌, ℤ, Bool, true, false, List, [], map, Option, none, some,
  ◌≡◌, ◌≢◌, ◌⊎◌, inl, inr, arith, refl, sym, ap, ◌∙◌, subst, Option-cases, Bool-cases, String,
}
use gnoracle.Base.Files.{Found, holds, Saving}
use gnoracle.Base.Result.{ok, err}
use gnoracle.Base.Text.{Bytes, is_empty}
use gnoracle.Agent.Store.{State, no_memory, snapshot, load_state, save_state, for_chain}
use gnoracle.Agent.Store.Laws.{for_chain_lem}
use gnoracle.Agent.Runner.Defs.{Settings, Runner, Replies, is_saved}
use gnoracle.Agent.Runner.Marks.{mark, Reaches}
use gnoracle.Agent.Runner.Tick.Memory.{tick-Accounts}
use gnoracle.Agent.Runner.Tick.{Ticked, tick}
use gnoracle.Agent.Daemon.{
  Passed, Agent, Turn, passes, restarts, get_elem?, set_runner, pass, pass_saved, accepted_for,
}
use gnoracle.Agent.Daemon.Rounds.{
  tagged, accepted_for-own, accepted_for-other, ids, ids-set_runner, get_elem?-ids, Reads,
  reading_start,
}

module _ {File : Type 0} (encode : State → File) (decode : File → Option State) (path : Bytes)
    (chain_id : Bytes) (settings : List Settings) (unquote : Bytes → Option Bytes) (me : String)
    (id : ℕ) (start : ℤ) where
  -- The memory that a start from the file has.
  unfoldable pub resumed : Found File → State
  resumed file = elim (load_state decode file) [
    | ok s ↦ (for_chain chain_id s).0
    | err _ ↦ no_memory
  ]

  -- The first round that a start from the file may submit.
  unfoldable pub bound : Found File → ℕ
  unfolding resumed
  bound file = mark start (snapshot id (resumed file))

  -- An agent of this chain, whose memory and file leave the same rounds open.
  pub record IsKept (a : Agent) (file : Found File) : Type 0 where
    pub chain : a.store.chain ≡ chain_id
    pub same : mark start (snapshot id a.store) ≡ bound file
    pub runners : ids a.runners ≡ map (λ s. s.feed_id) settings

  -- A turn whose saves succeed and that, where it is a pass over this feed, reads this schedule.
  unfoldable pub IsAllowed : Turn → Type 0
  IsAllowed (restarts _) = Unit
  IsAllowed (passes n replies fs) =
      ((fs.in_place || fs.dir_made) ≡ true)
      × (fs.written ≡ true)
      × (fs.renamed ≡ true)
      × ((get_elem? (map (λ s. s.feed_id) settings) n ≢ some id) ⊎ Reads start replies)

  module _
      (reads_back : (s : State)
        → (s' : State) × (decode (encode s) ≡ some s')
          × (s'.chain ≡ s.chain)
          × ((j : ℕ) → snapshot j s' ≡ snapshot j s)) where
    same_chain :
        (s : State) → s.chain ≡ chain_id → snapshot id (for_chain chain_id s).0 ≡ snapshot id s
    same_chain s chain = elim (for_chain_lem chain_id s id).1 [
      | inl (_, other, _, _) ↦ absurd (other chain)
      | inr (_, _, kept) ↦ kept
    ]

    resumed-encode :
        (s : State) → s.chain ≡ chain_id → snapshot id (resumed (holds (encode s))) ≡ snapshot id s
    unfolding resumed load_state
    resumed-encode s chain =
        let (s', e, chain', same) = reads_back s in
        let found : resumed (holds (encode s)) ≡ (for_chain chain_id s').0 =
          rw (resumed, load_state, e) refl in
        ap (snapshot id) found ∙ (same_chain s' (chain' ∙ chain) ∙ same id)

    -- What a pass leaves in the file, by whether it saved.
    left : Saving → State → Found File → Bool → Found File
    left fs store file saved = if saved then (save_state encode path fs store file).0 else file

    bound-left :
        (fs : Saving) (store store' : State) (file : Found File) (saved : Bool)
        → is_empty path ≡ false
        → ((fs.in_place || fs.dir_made) ≡ true)
        → fs.written ≡ true
        → fs.renamed ≡ true
        → store'.chain ≡ chain_id
        → mark start (snapshot id store) ≡ bound file
        → (saved ≡ true) ⊎ (mark start (snapshot id store) ≡ mark start (snapshot id store'))
        → mark start (snapshot id store') ≡ bound (left fs store' file saved)
    unfolding left save_state bound
    bound-left fs store store' file true named dir written renamed chain same h =
        let put : left fs store' file true ≡ holds (encode store') =
          ground (arith, named, dir, written, renamed) in
        ap (mark start) (sym (resumed-encode store' chain)) ∙ ap bound (sym put)
    bound-left fs store store' file false named dir written renamed chain same (inl e) = absurd cc
    bound-left fs store store' file false named dir written renamed chain same (inr e) =
        sym e ∙ same

    -- A pass at a place: the runner there ticks with the shared time of the last self-send.
    ticked : Settings → Runner → Replies → Agent → Ticked
    ticked s r replies a =
        tick unquote s me replies (record r { last_self_send = a.last_self_send }) a.store

    module _ (n : ℕ) (replies : Replies) (fs : Saving) (a : Agent) (file : Found File) where
      unfoldable pub Goes : Passed × Found File → Type 0
      Goes (p, file') =
          IsKept p.agent file' × Reaches (bound file) (accepted_for id p.log) (bound file')

      absent-Goes :
          get_elem? a.runners n ≡ none
          → IsKept a file
          → Goes (pass_saved encode decode path chain_id settings unquote me n replies fs a file)
      unfolding pass_saved pass Goes Reaches accepted_for
      absent-Goes missing kept = rw (pass_saved, pass, missing) (kept, omega arith)

      -- What a pass that accounts for itself comes to.
      accounted-Goes :
          (s : Settings) (r : Runner)
          → is_empty path ≡ false
          → ((fs.in_place || fs.dir_made) ≡ true)
          → fs.written ≡ true
          → fs.renamed ≡ true
          → get_elem? a.runners n ≡ some (s, r)
          → IsKept a file
          → let t = ticked s r replies a in
            t.store.chain ≡ a.store.chain
            → (is_saved t.log ≡ true)
              ⊎ (mark start (snapshot id a.store) ≡ mark start (snapshot id t.store))
            → Reaches
                (mark start (snapshot id a.store))
                (accepted_for id (tagged s.feed_id t.log))
                (mark start (snapshot id t.store))
            → Goes (pass_saved encode decode path chain_id settings unquote me n replies fs a file)
      unfolding pass_saved pass Goes ticked left
      accounted-Goes s r named dir written renamed found kept chain h rounds =
          let t = ticked s r replies a in
          let file' = left fs t.store file (is_saved t.log) in
          let p : Passed = record {
            agent = record {
              store = t.store;
              last_self_send = t.runner.last_self_send;
              runners = set_runner n t.runner a.runners;
            };
            log = tagged s.feed_id t.log;
            saved = is_saved t.log;
            outcome = t.outcome;
          } in
          let same : pass_saved encode decode path chain_id settings unquote me n replies fs a file
              ≡ (p, file') =
            rw (pass_saved, pass, found) refl in
          let kept_mark : mark start (snapshot id t.store) ≡ bound file' =
            bound-left fs a.store t.store file (is_saved t.log) named dir written renamed
              (chain ∙ kept.chain) kept.same h in
          subst Goes (sym same) (
            record {
              chain = chain ∙ kept.chain;
              same = kept_mark;
              runners = ids-set_runner n t.runner a.runners ∙ kept.runners;
            },
            subst (λ m. Reaches m (accepted_for id (tagged s.feed_id t.log)) (bound file'))
                kept.same
                (subst
                  (λ m.
                    Reaches (mark start (snapshot id a.store))
                      (accepted_for id (tagged s.feed_id t.log)) m)
                  kept_mark rounds),
          )

      unmoved : (m m' : ℕ) (cs : List ℕ) → m ≡ m' → cs ≡ [] → Reaches m cs m'
      unfolding Reaches
      unmoved m m' cs e none_accepted = rw none_accepted (omega arith)

      placed :
          (s : Settings) (r : Runner)
          → get_elem? a.runners n ≡ some (s, r)
          → IsKept a file
          → get_elem? (map (λ s. s.feed_id) settings) n ≡ some s.feed_id
      placed s r found kept =
          subst (λ js. get_elem? js n ≡ some s.feed_id) kept.runners
            (get_elem?-ids n a.runners s r found)

      found-Goes :
          (s : Settings) (r : Runner)
          → is_empty path ≡ false
          → IsAllowed (passes n replies fs)
          → get_elem? a.runners n ≡ some (s, r)
          → IsKept a file
          → Goes (pass_saved encode decode path chain_id settings unquote me n replies fs a file)
      unfolding IsAllowed Reads ticked
      found-Goes s r named (dir, written, renamed, here) found kept =
          let t = ticked s r replies a in
          let r' : Runner = record r { last_self_send = a.last_self_send } in
          let other : s.feed_id ≢ id
              → Goes
                  (pass_saved encode decode path chain_id settings unquote me n replies fs a file) =
            λ differ.
              let (begun, reads) = reading_start replies in
              let acct = tick-Accounts unquote s me replies begun r' a.store reads in
              let quiet : snapshot id t.store ≡ snapshot id a.store = elim (acct.others id) [
                | inl own ↦ absurd (differ (sym own))
                | inr same ↦ same
              ] in
              accounted-Goes s r named dir written renamed found kept acct.chain
                (inr (ap (mark start) (sym quiet)))
                (unmoved (mark start (snapshot id a.store)) (mark start (snapshot id t.store)) _
                  (ap (mark start) (sym quiet)) (accepted_for-other id s.feed_id t.log differ)) in
          elim (Bool-cases (s.feed_id == id)) [
            | inr differ ↦ other (λ e. absurd (ground (arith, e)))
            | inl own ↦ elim here [
              | inl elsewhere ↦ other (λ e. elsewhere (placed s r found kept ∙ ap some e))
              | inr reads ↦
                  let e : s.feed_id ≡ id = (==_iff s.feed_id id).0 own in
                  let acct = tick-Accounts unquote s me replies start r' a.store reads in
                  accounted-Goes s r named dir written renamed found kept acct.chain
                    (subst
                      (λ j.
                        (is_saved t.log ≡ true)
                        ⊎ (mark start (snapshot j a.store) ≡ mark start (snapshot j t.store)))
                      e acct.written)
                    (subst
                      (λ j.
                        Reaches (mark start (snapshot j a.store))
                          (accepted_for j (tagged s.feed_id t.log))
                          (mark start (snapshot j t.store)))
                      e
                      (subst
                        (λ cs.
                          Reaches (mark start (snapshot s.feed_id a.store)) cs
                            (mark start (snapshot s.feed_id t.store)))
                        (sym (accepted_for-own s.feed_id t.log)) acct.rounds))
            ]
          ]

      pub pass_saved-Goes :
          is_empty path ≡ false
          → IsAllowed (passes n replies fs)
          → IsKept a file
          → Goes (pass_saved encode decode path chain_id settings unquote me n replies fs a file)
      pass_saved-Goes named allowed kept = elim (Option-cases (get_elem? a.runners n)) [
        | inl missing ↦ absent-Goes missing kept
        | inr ((s, r), found) ↦ found-Goes s r named allowed found kept
      ]
