-- ===== src/Cli/Votes/Kept.antt =====
-- commit of cmd/gnoracle/main.go: what it makes of the salt files on every branch.
use gnoracle.Base.{
  ℕ, true, false, [], ◌∷◌, ◌++◌, All, some, ap, length, length-append, ◌≡◌, ◌≢◌, ◌⊎◌, inl, inr,
  refl, sym, subst, arith, Bool-cases, Option-cases,
}
use gnoracle.Base.Dict.{get, put, remove}
use gnoracle.Base.Dict.Laws.{get-put, get-remove}
use gnoracle.Base.Text.{Bytes, codes}
use gnoracle.Base.Text.Search.{bytes_eq_iff}
use gnoracle.Gnochain.Views.Votes.{BallotInfo}
use gnoracle.Cli.Votes.{
  VoteRecord, Files, Call, commit_vote, World, Ran, stopped, reusable, path_of, pending_of,
  new_record, commit_fresh, commit_again, commit_on,
}
use gnoracle.Cli.Votes.Laws.{reusable-some}

path_apart : (path : Bytes) → path ≢ path ++ codes ".pending"
path_apart path e = omega (arith, ap length e, length-append path (codes ".pending"))

module _ (sum256 : Bytes → Bytes) (upper : Bytes → Bytes) (chain : Bytes) (w : World)
    (files : Files) (dispute : ℕ) (path : Bytes) where
  -- A commitment that the chain took, whose record is in its file or beside it.
  pub record IsKept (r : Ran) (rec : VoteRecord) : Type 0 where
    pub sent : r.calls ≡ commit_vote dispute rec.commitment ∷ []
    pub taken : w.accepts (commit_vote dispute rec.commitment) ≡ true
    pub kept :
        (get path r.files ≡ some rec)
        ⊎ (get (pending_of sum256 upper chain path) r.files ≡ some rec)

  -- A run that fails without a commitment that the chain took; the dispute's file is told apart.
  pub record IsVoid (r : Ran) : Type 0 where
    pub failed : r.succeeded ≡ false
    pub refused : All (λ (c : Call). w.accepts c ≡ false) r.calls
    pub untouched :
        (k : Bytes) → k ≢ pending_of sum256 upper chain path → get k r.files ≡ get k files
    pub same : get path r.files ≡ get path files

  abbrev pub Keeps : Ran → Type 0
  Keeps r = ((rec : VoteRecord) × IsKept r rec) ⊎ IsVoid r

  kept_as : (r : Ran) (rec : VoteRecord) {r' : Ran} → r ≡ r' → IsKept r' rec → Keeps r
  kept_as r rec e h = inl (rec, subst (λ r. IsKept r rec) (sym e) h)

  void_as : (r : Ran) {r' : Ran} → r ≡ r' → IsVoid r' → Keeps r
  void_as r e h = inr (subst IsVoid (sym e) h)

  stopped-IsVoid : IsVoid (stopped files)
  stopped-IsVoid = record { failed = refl; refused = tt; untouched = λ k differ. refl; same = refl }

  commit_again-Keeps :
      (rec : VoteRecord)
      → get path files ≡ some rec
      → Keeps (commit_again sum256 upper chain w files dispute rec)
  unfolding commit_again
  commit_again-Keeps rec there =
      elim (Bool-cases (w.accepts (commit_vote dispute rec.commitment))) [
        | inl taken ↦ inl (rec, record { sent = refl; taken = taken; kept = inl there })
        | inr refused ↦ inr (record {
          failed = refused;
          refused = (refused, tt);
          untouched = λ k differ. refl;
          same = refl;
        })
      ]

  cleared_lem :
      (rec : VoteRecord) (k : Bytes)
      → let pending = pending_of sum256 upper chain path in
        k ≢ pending → get k (remove pending (put pending rec files)) ≡ get k files
  cleared_lem rec k differ =
      let pending = pending_of sum256 upper chain path in
      ground (
        arith,
        differ,
        get-remove k pending (put pending rec files) differ,
        get-put k pending rec files,
        bytes_eq_iff pending k,
      )

  commit_fresh-Keeps :
      (rec : VoteRecord) → Keeps (commit_fresh sum256 upper chain w files dispute path rec)
  unfolding commit_fresh
  commit_fresh-Keeps rec =
      let call = commit_vote dispute rec.commitment in
      let pending = pending_of sum256 upper chain path in
      let beside = put pending rec files in
      let cleared = remove pending beside in
      let r = commit_fresh sum256 upper chain w files dispute path rec in
      elim (Bool-cases w.writes) [
        | inr full ↦ let e : r ≡ stopped files = ground (arith, full) in void_as r e stopped-IsVoid
        | inl written ↦ elim (Bool-cases (w.accepts call)) [
          | inr refused ↦
              let e : r ≡ record { files = cleared; calls = call ∷ []; succeeded = false } =
                ground (arith, written, refused) in
              void_as r e (record {
                failed = refl;
                refused = (refused, tt);
                untouched = cleared_lem rec;
                same = cleared_lem rec path (path_apart path);
              })
          | inl taken ↦ elim (Bool-cases w.renames) [
            | inr stuck ↦
                let e : r ≡ record { files = beside; calls = call ∷ []; succeeded = false } =
                  ground (arith, written, taken, stuck) in
                let there : get pending beside ≡ some rec =
                  ground (arith, get-put pending pending rec files, bytes_eq_iff pending pending) in
                kept_as r rec e (record { sent = refl; taken = taken; kept = inr there })
            | inl moved ↦
                let e : r
                    ≡ record { files = put path rec cleared; calls = call ∷ []; succeeded = true } =
                  ground (arith, written, taken, moved) in
                let there : get path (put path rec cleared) ≡ some rec =
                  ground (arith, get-put path path rec cleared, bytes_eq_iff path path) in
                kept_as r rec e (record { sent = refl; taken = taken; kept = inl there })
          ]
        ]
      ]

module _ (sum256 : Bytes → Bytes) (upper : Bytes → Bytes) (chain : Bytes) where
  -- A commit either sends one commitment that the chain is known to have taken, and then the record
  -- with it stands in the dispute's file or in the pending file beside it; or it fails, nothing that
  -- it sent is known to be taken, and every file but the pending one is as it was, the dispute's file
  -- among them.
  pub commit_on-Keeps :
      (w : World) (files : Files) (dispute : ℕ) (choice : Bytes) (bl : BallotInfo)
      → Keeps sum256 upper chain w files dispute
          (path_of sum256 upper chain dispute bl.round)
          (commit_on sum256 upper chain w files dispute choice bl)
  unfolding commit_on
  commit_on-Keeps w files dispute choice bl =
      let path = path_of sum256 upper chain dispute bl.round in
      let r = commit_on sum256 upper chain w files dispute choice bl in
      let halted : r ≡ stopped files → Keeps sum256 upper chain w files dispute path r = λ e.
        void_as sum256 upper chain w files dispute path r e
          (stopped-IsVoid sum256 upper chain w files dispute path) in
      let goes : (r' : Ran)
          → r ≡ r'
          → Keeps sum256 upper chain w files dispute path r'
          → Keeps sum256 upper chain w files dispute path r =
        λ r' e. subst (Keeps sum256 upper chain w files dispute path) (sym e) in
      elim (Bool-cases w.has_dir) [
        | inr homeless ↦ halted (ground (arith, homeless))
        | inl home ↦ elim (Option-cases (reusable (get path files) choice)) [
          | inr (rec, again) ↦
              goes (commit_again sum256 upper chain w files dispute rec)
                (ground (arith, home, again))
                (commit_again-Keeps sum256 upper chain w files dispute path rec
                  (reusable-some sum256 upper chain (get path files) choice again).0)
          | inl fresh ↦ elim (Option-cases w.new_salt) [
            | inl dry ↦ halted (ground (arith, home, fresh, dry))
            | inr (salt, drawn) ↦
                let rec = new_record sum256 upper chain w dispute choice bl salt in
                goes (commit_fresh sum256 upper chain w files dispute path rec)
                  (ground (arith, home, fresh, drawn))
                  (commit_fresh-Keeps sum256 upper chain w files dispute path rec)
          ]
        ]
      ]
