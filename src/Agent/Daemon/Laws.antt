-- ===== src/Agent/Daemon/Laws.antt =====
-- agent/agent.go and agent/state.go: what the daemon submits over passes and restarts.
use gnoracle.Base.{
  ℕ, ℤ, pos, Bool, true, false, List, [], ◌∷◌, map, Option, none, some, ◌≡◌, inl, inr, arith, refl,
  sym, ap, subst, All, String,
}
use gnoracle.Base.Files.{Found, Saving}
use gnoracle.Base.Result.{Result-cases, ok}
use gnoracle.Base.Text.{Bytes, is_empty}
use gnoracle.Agent.Store.{State, snapshot, load_state, for_chain}
use gnoracle.Agent.Store.Laws.{for_chain_lem}
use gnoracle.Agent.Runner.Defs.{Settings, Replies}
use gnoracle.Agent.Runner.Marks.{mark, Reaches, Reaches-append}
use gnoracle.Agent.Daemon.{
  stopped, Agent, System, Log, Turn, passes, restarts, new_runner, new, turn, run, accepted_for,
}
use gnoracle.Agent.Daemon.Rounds.{accepted_for-append, ids}
use gnoracle.Agent.Daemon.Pass.{resumed, bound, IsKept, IsAllowed, Goes, pass_saved-Goes}

module _ {File : Type 0} (encode : State → File) (decode : File → Option State) (path : Bytes)
    (chain_id : Bytes) (settings : List Settings) (unquote : Bytes → Option Bytes) (me : String)
    (id : ℕ) (start : ℤ) where
  module _
      (reads_back : (s : State)
        → (s' : State) × (decode (encode s) ≡ some s')
          × (s'.chain ≡ s.chain)
          × ((j : ℕ) → snapshot j s' ≡ snapshot j s)) where
    -- A system whose agent, if it runs, has a kept memory.
    IsSound : System File → Type 0
    IsSound sys = elim sys.agent [
      | none ↦ Unit
      | some a ↦ IsKept encode decode path chain_id settings unquote me id start a sys.file
    ]

    fresh : State → Agent
    fresh s = record {
      store = (for_chain chain_id s).0;
      last_self_send = pos 0;
      runners = map (λ settings. (settings, new_runner)) settings;
    }

    ids_of_new :
        (xs : List Settings) → ids (map (λ s. (s, new_runner)) xs) ≡ map (λ s. s.feed_id) xs
    ids_of_new [] = refl
    ids_of_new (x ∷ xs) = ap (◌∷◌ x.feed_id) (ids_of_new xs)

    resumed-ok :
        (s : State) (file : Found File)
        → load_state decode file ≡ ok s
        → resumed encode decode path chain_id settings unquote me id start file
          ≡ (for_chain chain_id s).0
    unfolding resumed
    resumed-ok s file e = rw (resumed, e) refl

    fresh-IsKept :
        (s : State) (file : Found File)
        → load_state decode file ≡ ok s
        → IsKept encode decode path chain_id settings unquote me id start (fresh s) file
    unfolding bound resumed fresh
    fresh-IsKept s file e = record {
      chain = (for_chain_lem chain_id s id).0;
      same = ap (λ st. mark start (snapshot id st)) (sym (resumed-ok s file e));
      runners = ids_of_new settings;
    }

    -- What a turn leads to: a sound system, and the rounds accepted between the two bounds.
    Leads : System File → System File × Log → Type 0
    Leads sys (sys', log) =
        IsSound sys'
        × Reaches (bound encode decode path chain_id settings unquote me id start sys.file)
            (accepted_for id log)
            (bound encode decode path chain_id settings unquote me id start sys'.file)

    restart-Leads :
        (can_sign : Bool) (sys : System File)
        → Leads sys (turn encode decode path chain_id settings unquote me (restarts can_sign) sys)
    unfolding Leads turn new IsSound accepted_for Reaches fresh
    restart-Leads false sys = (tt, omega arith)
    restart-Leads true sys = elim (Result-cases (load_state decode sys.file)) [
      | inr (er, e) ↦
          let same : turn encode decode path chain_id settings unquote me (restarts true) sys
              ≡ (record { file = sys.file; agent = none }, []) =
            rw (turn, new, e) refl in
          subst (Leads sys) (sym same) (tt, omega arith)
      | inl (s, e) ↦
          let same : turn encode decode path chain_id settings unquote me (restarts true) sys
              ≡ (record { file = sys.file; agent = some (fresh s) }, []) =
            rw (turn, new, e) refl in
          subst (Leads sys) (sym same) (fresh-IsKept s sys.file e, omega arith)
    ]

    passes-Leads :
        (n : ℕ) (replies : Replies) (fs : Saving) (file : Found File) (agent : Option Agent)
        → is_empty path ≡ false
        → IsAllowed encode decode path chain_id settings unquote me id start (passes n replies fs)
        → IsSound (record { file = file; agent = agent })
        → Leads
            (record { file = file; agent = agent })
            (turn encode decode path chain_id settings unquote me
              (passes n replies fs)
              (record { file = file; agent = agent }))
    unfolding turn Leads IsSound accepted_for Reaches Goes
    passes-Leads n replies fs file none named allowed sound = (tt, omega arith)
    passes-Leads n replies fs file (some a) named allowed sound =
        pass_saved-Goes encode decode path chain_id settings unquote me id start reads_back n
          replies fs a file named allowed sound

    turn-Leads :
        (t : Turn) (sys : System File)
        → is_empty path ≡ false
        → IsAllowed encode decode path chain_id settings unquote me id start t
        → IsSound sys
        → Leads sys (turn encode decode path chain_id settings unquote me t sys)
    unfolding turn Leads IsSound accepted_for Reaches Goes
    turn-Leads (restarts can_sign) sys named allowed sound = restart-Leads can_sign sys
    turn-Leads (passes n replies fs) sys named allowed sound =
        passes-Leads n replies fs sys.file sys.agent named allowed sound

    run-Reaches :
        (turns : List Turn) (sys : System File)
        → is_empty path ≡ false
        → All (IsAllowed encode decode path chain_id settings unquote me id start) turns
        → IsSound sys
        → let (sys', log) = run encode decode path chain_id settings unquote me turns sys in
          Reaches
            (bound encode decode path chain_id settings unquote me id start sys.file)
            (accepted_for id log)
            (bound encode decode path chain_id settings unquote me id start sys'.file)
    unfolding run accepted_for Reaches Leads
    run-Reaches [] sys named allowed sound = omega arith
    run-Reaches (t ∷ turns) sys named (first, rest) sound =
        let (sys', log) = turn encode decode path chain_id settings unquote me t sys in
        let (sound', rounds) = turn-Leads t sys named first sound in
        let (end, log') = run encode decode path chain_id settings unquote me turns sys' in
        subst
          (λ cs.
            Reaches (bound encode decode path chain_id settings unquote me id start sys.file) cs
              (bound encode decode path chain_id settings unquote me id start end.file))
          (sym (accepted_for-append id log log'))
          (Reaches-append _ (accepted_for id log) (accepted_for id log') _ _ rounds
            (run-Reaches turns sys' named rest sound'))

    -- From a process that does not run yet, however the passes over the feeds and the restarts follow
    -- one another: the rounds of one feed that the chain accepts rise strictly, so none is submitted
    -- twice; they begin at the first that the state file leaves open, and behind them it leaves open
    -- only rounds beyond them. The passes over this feed read one schedule, the file has a path and
    -- the saves to it succeed, and a state is read back as it was written.
    pub no_round_twice :
        (turns : List Turn) (file : Found File)
        → is_empty path ≡ false
        → All (IsAllowed encode decode path chain_id settings unquote me id start) turns
        → let (sys, log) =
            run encode decode path chain_id settings unquote me turns (stopped file) in
          Reaches
            (bound encode decode path chain_id settings unquote me id start file)
            (accepted_for id log)
            (bound encode decode path chain_id settings unquote me id start sys.file)
    unfolding IsSound
    no_round_twice turns file named allowed = run-Reaches turns (stopped file) named allowed tt
