-- ===== src/Cli/Run/Reads/Laws.antt =====
-- cmd/gnoracle/main.go: the transactions of the commands that read.
use gnoracle.Base.{
  false, List, [], ◌∷◌, ◌++◌, Option, ◌≡◌, refl, ap, ◌∙◌, arith, Option-cases, Bool-cases, inl, inr,
}
use gnoracle.Base.Text.{Bytes, codes}
use gnoracle.Cli.Run.{Flags, World, Done, and_then, transactions, connects, view}
use gnoracle.Cli.Run.Laws.{view-silent, printed-silent, transactions-append}
use gnoracle.Cli.Run.Reads.{
  ReadCommand, status, feeds, feed, round, rounds, provider, providers, dispute, disputes, ballot,
  member, proposal, params, health, kourt, subscribers, subscription, commitment_of, read,
  status_done, status_lines,
}

-- Nothing is sent by two steps that send nothing.
and_then-silent :
    (d e : Done)
    → transactions d.log ≡ []
    → transactions e.log ≡ []
    → transactions (and_then d e).log ≡ []
and_then-silent d e hd he = elim (Bool-cases d.succeeded) [
  | inl on ↦
      let same : (and_then d e).log ≡ d.log ++ e.log = ground (arith, on) in
      ap transactions same ∙ (transactions-append d.log e.log ∙ rw (hd, he) refl)
  | inr off ↦
      let same : (and_then d e).log ≡ d.log = ground (arith, off) in ap transactions same ∙ hd
]

module _ (indent : Bytes → Option Bytes) (sum256 : Bytes → Bytes) (c : Flags) (w : World) where
  status-silent : transactions (status_done indent sum256 c w).log ≡ []
  unfolding status_done transactions
  status-silent = elim (Bool-cases (connects indent c w false)) [
    | inr off ↦ rw (status_done, off) refl
    | inl on ↦ elim (Option-cases w.node_status) [
      | inl lost ↦ rw (status_done, on, lost) refl
      | inr (st, e) ↦ rw (status_done, on, e) (printed-silent (status_lines indent sum256 c w st))
    ]
  ]

  pub read-silent :
      (r : ReadCommand) (a : List Bytes) → transactions (read indent sum256 c w r a).log ≡ []
  unfolding read transactions
  read-silent status a = status-silent
  read-silent feeds a = view-silent indent c w _ _
  read-silent feed [] = refl
  read-silent feed (x ∷ a) = view-silent indent c w _ _
  read-silent round [] = refl
  read-silent round (x ∷ []) = refl
  read-silent round (x ∷ y ∷ a) = view-silent indent c w _ _
  read-silent rounds [] = refl
  read-silent rounds (x ∷ a) = view-silent indent c w _ _
  read-silent provider [] = refl
  read-silent provider (x ∷ []) = refl
  read-silent provider (x ∷ y ∷ a) = view-silent indent c w _ _
  read-silent providers [] = refl
  read-silent providers (x ∷ a) = view-silent indent c w _ _
  read-silent dispute [] = refl
  read-silent dispute (x ∷ a) = view-silent indent c w _ _
  read-silent disputes a = view-silent indent c w _ _
  read-silent ballot [] = refl
  read-silent ballot (x ∷ a) = view-silent indent c w _ _
  read-silent member [] = refl
  read-silent member (x ∷ a) = view-silent indent c w _ _
  read-silent proposal [] = refl
  read-silent proposal (x ∷ a) = view-silent indent c w _ _
  read-silent kourt [] = refl
  read-silent kourt (x ∷ a) = view-silent indent c w _ _
  read-silent subscribers [] = refl
  read-silent subscribers (x ∷ a) = view-silent indent c w _ _
  read-silent subscription [] = refl
  read-silent subscription (x ∷ []) = refl
  read-silent subscription (x ∷ y ∷ a) = view-silent indent c w _ _
  read-silent params [] = view-silent indent c w _ _
  read-silent params (x ∷ a) = view-silent indent c w _ _
  read-silent health a =
      and_then-silent (view indent c w c.core (codes "health"))
        (view indent c w c.dao (codes "health")) (view-silent indent c w _ _)
        (view-silent indent c w _ _)
  read-silent commitment_of [] = refl
  read-silent commitment_of (x ∷ []) = refl
  read-silent commitment_of (x ∷ y ∷ []) = refl
  read-silent commitment_of (x ∷ y ∷ z ∷ []) = refl
  read-silent commitment_of (x ∷ y ∷ z ∷ u ∷ []) = refl
  read-silent commitment_of (x ∷ y ∷ z ∷ u ∷ v ∷ a) = refl
