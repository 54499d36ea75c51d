-- ===== src/Cli/Votes/Laws.antt =====
-- cmd/gnoracle/main.go, commit: the record that a commitment leaves.
use gnoracle.Base.{
  ℕ, ℤ, true, [], ◌∷◌, Option, none, some, ◌≡◌, ◌⊎◌, inl, inr, refl, sym, subst, arith, Bool-cases,
  Option-cases,
}
use gnoracle.Base.Dict.{get, put, remove}
use gnoracle.Base.Dict.Laws.{get-put}
use gnoracle.Base.Text.{Bytes}
use gnoracle.Base.Text.Search.{bytes_eq_iff}
use gnoracle.Gnochain.Commitment.{commitment}
use gnoracle.Gnochain.Views.Votes.{BallotInfo}
use gnoracle.Cli.Votes.{
  VoteRecord, Files, commit_vote, World, Ran, reusable, path_of, pending_of, new_record,
  commit_fresh, commit_again, commit_on,
}

module _ (sum256 : Bytes → Bytes) (upper : Bytes → Bytes) (chain : Bytes) where
  -- A record spells out its commitment.
  pub record Opens (dispute : ℕ) (round : ℤ) (rec : VoteRecord) : Type 0 where
    pub opens : rec.commitment ≡ commitment sum256 dispute round rec.choice rec.salt rec.voter

  -- What a dispute's file holds, if anything, spells out its commitment.
  abbrev pub Fits : ℕ → ℤ → Option VoteRecord → Type 0
  Fits dispute round none = Unit
  Fits dispute round (some rec) = Opens dispute round rec

  -- What a commitment that succeeds comes to: the file holds a record of the choice, which spells out
  -- the commitment that was sent.
  pub record Committed (dispute : ℕ) (choice : Bytes) (round : ℤ) (r : Ran) (rec : VoteRecord)
      : Type 0 where
    pub saved : get (path_of sum256 upper chain dispute round) r.files ≡ some rec
    pub chosen : rec.choice ≡ choice
    pub sent : r.calls ≡ commit_vote dispute rec.commitment ∷ []
    pub spelled : Opens dispute round rec

  pub reusable-some :
      (o : Option VoteRecord) (choice : Bytes) {rec : VoteRecord}
      → reusable o choice ≡ some rec
      → (o ≡ some rec) × (rec.choice ≡ choice)
  unfolding reusable
  reusable-some none choice e = ground (arith, e)
  reusable-some (some rec) choice e = ground (arith, e, bytes_eq_iff rec.choice choice)

  commit_again-Committed :
      (w : World) (files : Files) (dispute : ℕ) (choice : Bytes) (round : ℤ) (rec : VoteRecord)
      → Fits dispute round (get (path_of sum256 upper chain dispute round) files)
      → reusable (get (path_of sum256 upper chain dispute round) files) choice ≡ some rec
      → Committed dispute choice round (commit_again sum256 upper chain w files dispute rec) rec
        × (get (path_of sum256 upper chain dispute round) files ≡ some rec)
  unfolding commit_again
  commit_again-Committed w files dispute choice round rec fits e =
      let (there, same) =
        reusable-some (get (path_of sum256 upper chain dispute round) files) choice e in
      (
        record {
          saved = there;
          chosen = same;
          sent = refl;
          spelled = subst (Fits dispute round) there fits;
        },
        there,
      )

  commit_fresh_done :
      (w : World) (files : Files) (dispute : ℕ) (path : Bytes) (rec : VoteRecord)
      → (commit_fresh sum256 upper chain w files dispute path rec).succeeded ≡ true
      → (get path (commit_fresh sum256 upper chain w files dispute path rec).files ≡ some rec)
        × ((commit_fresh sum256 upper chain w files dispute path rec).calls
            ≡ commit_vote dispute rec.commitment ∷ [])
  unfolding commit_fresh
  commit_fresh_done w files dispute path rec e =
      let beside = put (pending_of sum256 upper chain path) rec files in
      let cleared = remove (pending_of sum256 upper chain path) beside in
      ground (arith, e, get-put path path rec cleared, bytes_eq_iff path path)

  -- A commitment that succeeds leaves a record of the choice in the dispute's file, and that record
  -- spells out the commitment that was sent, under the signer or under the voter of a record that the
  -- file held before. (What the file held before spells out its own commitment.)
  pub commit_on-Committed :
      (w : World) (files : Files) (dispute : ℕ) (choice : Bytes) (bl : BallotInfo)
      → Fits dispute bl.round (get (path_of sum256 upper chain dispute bl.round) files)
      → (commit_on sum256 upper chain w files dispute choice bl).succeeded ≡ true
      → (rec : VoteRecord) × Committed dispute choice bl.round
          (commit_on sum256 upper chain w files dispute choice bl)
          rec
        × ((rec.voter ≡ w.voter)
            ⊎ (get (path_of sum256 upper chain dispute bl.round) files ≡ some rec))
  unfolding commit_on new_record
  commit_on-Committed w files dispute choice bl fits e =
      let path = path_of sum256 upper chain dispute bl.round in
      elim (Bool-cases w.has_dir) [
        | inr homeless ↦ absurd (ground (arith, homeless, e))
        | inl home ↦ elim (Option-cases (reusable (get path files) choice)) [
          | inr (rec, again) ↦
              let same : commit_on sum256 upper chain w files dispute choice bl
                  ≡ commit_again sum256 upper chain w files dispute rec =
                ground (arith, home, again) in
              let (done, there) =
                commit_again-Committed w files dispute choice bl.round rec fits again in
              (rec, subst (λ r. Committed dispute choice bl.round r rec) (sym same) done, inr there)
          | inl fresh ↦ elim (Option-cases w.new_salt) [
            | inl dry ↦ absurd (ground (arith, home, fresh, dry, e))
            | inr (salt, drawn) ↦
                let rec = new_record sum256 upper chain w dispute choice bl salt in
                let same : commit_on sum256 upper chain w files dispute choice bl
                    ≡ commit_fresh sum256 upper chain w files dispute path rec =
                  ground (arith, home, fresh, drawn) in
                let (saved, sent) =
                  commit_fresh_done w files dispute path rec
                    (subst (λ r. r.succeeded ≡ true) same e) in
                (
                  rec,
                  subst (λ r. Committed dispute choice bl.round r rec) (sym same)
                      (record {
                        saved = saved;
                        chosen = refl;
                        sent = sent;
                        spelled = record { opens = refl };
                      }),
                  inl refl,
                )
          ]
        ]
      ]
