-- ===== src/Cli/Run/Laws.antt =====
-- Which transactions a command sends, with which coins, and how the run ends.
use gnoracle.Base.{
  Bool, true, false, List, [], ◌∷◌, ◌++◌, map, Option, none, some, ◌≡◌, ◌⊎◌, inl, inr, arith, refl,
  sym, ap, subst, Bool-cases, Option-cases,
}
use gnoracle.Base.Text.{Bytes}
use gnoracle.Gnochain.Broadcast.{TxResult}
use gnoracle.Cli.Run.{
  Flags, World, Tx, Action, sent, voted, printed, Done, failed, and_then, transactions, connects,
  view, tx_with, ok_line, result_lines,
}

pub transactions-append :
    (xs ys : List Action) → transactions (xs ++ ys) ≡ transactions xs ++ transactions ys
unfolding transactions
transactions-append [] ys = refl
transactions-append (sent t ∷ xs) ys = ap (◌∷◌ t) (transactions-append xs ys)
transactions-append (voted t ∷ xs) ys = transactions-append xs ys
transactions-append (printed line ∷ xs) ys = transactions-append xs ys

pub printed-silent : (lines : List Bytes) → transactions (map (λ line. printed line) lines) ≡ []
unfolding transactions
printed-silent [] = refl
printed-silent (line ∷ lines) = printed-silent lines

module _ (indent : Bytes → Option Bytes) (c : Flags) (w : World) where
  -- What became of a run's last transaction is what became of the run.
  unfoldable pub Ends : Tx → Bool → Type 0
  Ends t succeeded =
      ((w.answers t ≡ none) × (succeeded ≡ false))
      ⊎ ((res : TxResult) × (w.answers t ≡ some res) × (succeeded ≡ true))

  -- No transaction; or one, which decides how the run ends; or two, of which the second is sent only
  -- when the first was accepted, and decides. Each is as `P` says, and sent by a client with a key.
  unfoldable pub Orderly : (Tx → Type 0) → Done → Type 0
  Orderly P d =
      (transactions d.log ≡ [])
      ⊎ ((c.has_key ≡ true) × (t : Tx) × (transactions d.log ≡ t ∷ []) × P t × Ends t d.succeeded)
      ⊎ ((c.has_key ≡ true)
          × (t : Tx) × (u : Tx) × (transactions d.log ≡ t ∷ u ∷ [])
          × P t
          × P u
          × Ends t true
          × Ends u d.succeeded)

  pub failed-Orderly : (P : Tx → Type 0) → Orderly P failed
  unfolding Orderly transactions
  failed-Orderly P = inl refl

  pub view-silent : (pkg path : Bytes) → transactions (view indent c w pkg path).log ≡ []
  unfolding view transactions
  view-silent pkg path = ground arith

  connects-key : connects indent c w true ≡ true → c.has_key ≡ true
  unfolding connects
  connects-key e = ground (arith, e)

  results-silent : (results : List Bytes) → transactions (result_lines indent c w results) ≡ []
  unfolding transactions result_lines
  results-silent [] = refl
  results-silent (r ∷ rs) = results-silent rs

  -- A single transaction.
  OneSent : Tx → Done → Type 0
  OneSent t d =
      ((connects indent c w true ≡ false) × (d ≡ failed))
      ⊎ ((connects indent c w true ≡ true) × (transactions d.log ≡ t ∷ []) × Ends t d.succeeded)

  tx_with-OneSent :
      (coins pkg func : Bytes) (args : List Bytes)
      → OneSent
          (record { pkg = pkg; func = func; args = args; coins = coins })
          (tx_with indent c w coins pkg func args)
  unfolding tx_with transactions Ends OneSent result_lines
  tx_with-OneSent coins pkg func args =
      let t : Tx = record { pkg = pkg; func = func; args = args; coins = coins } in
      elim (Bool-cases (connects indent c w true)) [
        | inr off ↦ inl (off, rw (tx_with, off) refl)
        | inl on ↦ elim (Option-cases (w.answers t)) [
          | inl refused ↦
              let same : tx_with indent c w coins pkg func args
                  ≡ record { log = sent t ∷ []; succeeded = false } =
                rw (tx_with, on, refused) refl in
              subst (OneSent t) (sym same) (inr (on, refl, inl (refused, refl)))
          | inr (res, accepted) ↦
              let shown = ok_line indent c w t res in
              let same : tx_with indent c w coins pkg func args ≡ record {
                log = sent t ∷ printed shown ∷ result_lines indent c w res.results;
                succeeded = true;
              } =
                rw (tx_with, on, accepted) refl in
              subst (OneSent t) (sym same)
                (inr (on, ap (◌∷◌ t) (results-silent res.results), inr (res, accepted, refl)))
        ]
      ]

  -- One transaction is orderly where it is as wanted.
  OneSent-Orderly : (P : Tx → Type 0) (t : Tx) (d : Done) → P t → OneSent t d → Orderly P d
  unfolding OneSent Orderly
  OneSent-Orderly P t d p (inl (_, e)) = subst (Orderly P) (sym e) (failed-Orderly P)
  OneSent-Orderly P t d p (inr (on, e, end)) = inr (inl (connects-key on, t, e, p, end))

  pub tx_with-Orderly :
      (P : Tx → Type 0) (coins pkg func : Bytes) (args : List Bytes)
      → P (record { pkg = pkg; func = func; args = args; coins = coins })
      → Orderly P (tx_with indent c w coins pkg func args)
  tx_with-Orderly P coins pkg func args p =
      OneSent-Orderly P _ (tx_with indent c w coins pkg func args) p
        (tx_with-OneSent coins pkg func args)

  -- Of two, the second is sent only behind an accepted first.
  OneSent-two :
      (P : Tx → Type 0) (t u : Tx) (d e : Done)
      → P t
      → P u
      → OneSent t d
      → OneSent u e
      → Orderly P (and_then d e)
  unfolding OneSent Orderly Ends transactions
  OneSent-two P t u d e p q (inl (_, stopped)) second =
      subst (λ d. Orderly P (and_then d e)) (sym stopped) (inl refl)
  OneSent-two P t u d e p q (inr (on, only, inl (refused, ended))) second =
      let same : and_then d e ≡ d = ground (arith, ended) in
      subst (Orderly P) (sym same) (inr (inl (connects-key on, t, only, p, inl (refused, ended))))
  OneSent-two P t u d e p q (inr (on, only, inr (res, accepted, ended))) (inl (off, _)) = absurd cc
  OneSent-two P t u d e p q (inr (on, only, inr (res, accepted, ended))) (inr (_, next, end)) =
      let same : and_then d e ≡ record { log = d.log ++ e.log; succeeded = e.succeeded } =
        ground (arith, ended) in
      let both : transactions (d.log ++ e.log) ≡ t ∷ u ∷ [] =
        rw (transactions-append d.log e.log, only, next) refl in
      subst (Orderly P) (sym same)
        (inr (inr (connects-key on, t, u, both, p, q, inr (res, accepted, refl), end)))

  pub two-Orderly :
      (P : Tx → Type 0) (coins pkg func : Bytes) (args : List Bytes) (pkg' func' : Bytes)
      (args' : List Bytes)
      → P (record { pkg = pkg; func = func; args = args; coins = coins })
      → P (record { pkg = pkg'; func = func'; args = args'; coins = coins })
      → Orderly P (
          and_then
            (tx_with indent c w coins pkg func args)
            (tx_with indent c w coins pkg' func' args'))
  two-Orderly P coins pkg func args pkg' func' args' p q =
      OneSent-two P _ _ _ _ p q (tx_with-OneSent coins pkg func args)
        (tx_with-OneSent coins pkg' func' args')

  -- A line printed before changes nothing of the transactions.
  pub printed-Orderly :
      (P : Tx → Type 0) (line : Bytes) (d : Done)
      → Orderly P d
      → Orderly P (and_then (record { log = printed line ∷ []; succeeded = true }) d)
  unfolding Orderly transactions
  printed-Orderly P line d h = h
