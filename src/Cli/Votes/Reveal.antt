-- ===== src/Cli/Votes/Reveal.antt =====
-- What a later reveal makes of the file that a commitment left.
use gnoracle.Base.{
  ℕ, true, false, [], ◌∷◌, some, if◌then◌else◌, str_eq, ◌≡◌, ◌≢◌, refl, subst, ap, ◌∙◌, arith,
}
use gnoracle.Base.Dict.{get}
use gnoracle.Base.Text.{Bytes, bytes_eq, is_empty}
use gnoracle.Base.Text.Search.{bytes_eq_iff}
use gnoracle.Gnochain.Views.Votes.{BallotInfo, live_phase}
use gnoracle.Cli.Votes.{
  VoteRecord, Files, commit_vote, reveal_vote, World, reusable, path_of, commit_again, commit_on,
  reveal_saved, reveal_on,
}
use gnoracle.Cli.Votes.Laws.{Fits, Committed, commit_on-Committed}

module _ (sum256 : Bytes → Bytes) (upper : Bytes → Bytes) (chain : Bytes) where
  reveal_on-saved :
      (w : World) (files : Files) (dispute : ℕ) (bl : BallotInfo) (rec : VoteRecord)
      → w.has_dir ≡ true
      → get (path_of sum256 upper chain dispute bl.round) files ≡ some rec
      → reveal_on sum256 upper chain w files dispute bl
        ≡ reveal_saved sum256 upper chain w files dispute bl rec
  unfolding reveal_on
  reveal_on-saved w files dispute bl rec home there = ground (arith, home, there)

  reveal_saved-calls :
      (w : World) (files : Files) (dispute : ℕ) (bl : BallotInfo) (rec : VoteRecord)
      → str_eq (live_phase bl bl.head.now) "reveal" ≡ true
      → (reveal_saved sum256 upper chain w files dispute bl rec).calls
        ≡ (if bytes_eq rec.voter w.voter then reveal_vote dispute rec.choice rec.salt ∷ [] else [])
  unfolding reveal_saved
  reveal_saved-calls w files dispute bl rec phase = ground (arith, phase)

  -- Behind a commitment that succeeded, a reveal in the same round, in its phase and with the votes
  -- directory at hand, sends the committed choice with the salt that opens the commitment when the
  -- signer is the voter of the saved record, and sends nothing when not. (What the file held
  -- before spells out its own commitment.)
  pub commit_on-reveal_on :
      (w later : World) (files : Files) (dispute : ℕ) (choice : Bytes) (bl then_bl : BallotInfo)
      → Fits sum256 upper chain dispute bl.round
          (get (path_of sum256 upper chain dispute bl.round) files)
      → (commit_on sum256 upper chain w files dispute choice bl).succeeded ≡ true
      → then_bl.round ≡ bl.round
      → later.has_dir ≡ true
      → str_eq (live_phase then_bl then_bl.head.now) "reveal" ≡ true
      → let r = commit_on sum256 upper chain w files dispute choice bl in
        (rec : VoteRecord) × Committed sum256 upper chain dispute choice bl.round r rec
        × ((reveal_on sum256 upper chain later r.files dispute then_bl).calls ≡ (
            if bytes_eq rec.voter later.voter
            then reveal_vote dispute choice rec.salt ∷ []
            else []))
  commit_on-reveal_on w later files dispute choice bl then_bl fits done round home phase =
      let r = commit_on sum256 upper chain w files dispute choice bl in
      let (rec, committed, voted) =
        commit_on-Committed sum256 upper chain w files dispute choice bl fits done in
      let there =
        ap (λ n. get (path_of sum256 upper chain dispute n) r.files) round ∙ committed.saved in
      let read = reveal_on-saved later r.files dispute then_bl rec home there in
      let sent = reveal_saved-calls later r.files dispute then_bl rec phase in
      (
        rec,
        committed,
        rw read (
            subst
              (λ c. (reveal_saved sum256 upper chain later r.files dispute then_bl rec).calls ≡ (
                if bytes_eq rec.voter later.voter then reveal_vote dispute c rec.salt ∷ [] else []))
              committed.chosen sent),
      )

  commit_on-again :
      (w : World) (files : Files) (dispute : ℕ) (choice : Bytes) (bl : BallotInfo)
      (rec : VoteRecord)
      → get (path_of sum256 upper chain dispute bl.round) files ≡ some rec
      → w.has_dir ≡ true
      → is_empty rec.salt ≡ false
      → rec.choice ≡ choice
      → commit_on sum256 upper chain w files dispute choice bl
        ≡ commit_again sum256 upper chain w files dispute rec
  unfolding commit_on reusable
  commit_on-again w files dispute choice bl rec there home salted same =
      ground (arith, there, home, salted, bytes_eq_iff rec.choice choice, same)

  -- A record with a salt for the same choice is used again whoever signs: the commitment of another
  -- voter is sent, and a reveal by the signer then sends nothing. (The votes directory is at hand.)
  pub commit_on_of_other :
      (w later : World) (files : Files) (dispute : ℕ) (choice : Bytes) (bl then_bl : BallotInfo)
      (rec : VoteRecord)
      → get (path_of sum256 upper chain dispute bl.round) files ≡ some rec
      → w.has_dir ≡ true
      → is_empty rec.salt ≡ false
      → rec.choice ≡ choice
      → rec.voter ≢ w.voter
      → later.voter ≡ w.voter
      → then_bl.round ≡ bl.round
      → let r = commit_on sum256 upper chain w files dispute choice bl in
        (r.calls ≡ commit_vote dispute rec.commitment ∷ [])
        × (r.files ≡ files)
        × ((reveal_on sum256 upper chain later r.files dispute then_bl).calls ≡ [])
  unfolding commit_again reveal_on reveal_saved
  commit_on_of_other w later files dispute choice bl then_bl rec there home salted same other signer
        round =
      let again = commit_on-again w files dispute choice bl rec there home salted same in
      let there' = ap (λ n. get (path_of sum256 upper chain dispute n) files) round ∙ there in
      rw again
        (refl, refl, ground (arith, there', other, signer, bytes_eq_iff rec.voter later.voter))
