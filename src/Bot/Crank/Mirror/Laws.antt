-- ===== src/Bot/Crank/Mirror/Laws.antt =====
-- What crankResolve, crankKourt and crankSettle call.
use gnoracle.Base.{
  and-true, ℕ, pos, true, false, ◌&&◌, List, [], ◌∷◌, ◌++◌, some, ◌≡◌, ◌⊎◌, inl, inr, refl, All,
  All-++, All-imp, In, Bool-cases, Option-cases, str_eq,
}
use gnoracle.Base.Int64.{div64}
use gnoracle.Base.Result.{Result-cases}
use gnoracle.Base.Text.{codes, bytes_eq}
use gnoracle.Base.Text.Decimal.{format_uint}
use gnoracle.Gnochain.Views.Votes.{DisputeInfo, KourtRecord}
use gnoracle.Agent.Config.{second}
use gnoracle.Bot.Chain.{calls-++, Chain, Call, resolve_dispute, crank_mirror, settle_member, calls}
use gnoracle.Bot.Config.{Config, Params, MemberConfig}
use gnoracle.Bot.State.{due}
use gnoracle.Bot.Crank.Finalize.{Bot}
use gnoracle.Bot.Crank.Mirror.{
  ready, resolve_key, resolve_one, resolve_all, dissent, mirror_state, crank_record, rests,
  kourt_one, kourt_all, owes, settle_all,
}

module _ (p : Params) (chain : Chain) where
  -- The transaction resolves a listed dispute that is ready.
  pub Resolves : List DisputeInfo → Call → Type 0
  Resolves ds c =
      (d : DisputeInfo) × In d ds × (c ≡ resolve_dispute d.id) × (ready p chain d ≡ true)

  resolve_one-calls :
      (d : DisputeInfo) (b : Bot) → All (Resolves (d ∷ [])) (calls (resolve_one p chain d b).log)
  unfolding resolve_one calls Resolves
  resolve_one-calls d b =
      let may =
        due (resolve_key p chain d) (div64 p.crank_every (pos second)) chain.clock b.state in
      elim (Bool-cases (ready p chain d)) [
        | inr waiting ↦ rw (resolve_one, waiting) tt
        | inl over ↦ elim (Bool-cases may.1) [
          | inr early ↦ rw (resolve_one, over, early) tt
          | inl on_time ↦ rw (resolve_one, over, on_time) ((d, inl refl, refl, over), tt)
        ]
      ]

  pub resolve_all-calls :
      (ds : List DisputeInfo) (b : Bot) → All (Resolves ds) (calls (resolve_all p chain ds b).log)
  unfolding resolve_all Resolves calls
  resolve_all-calls [] b = tt
  resolve_all-calls (d ∷ ds) b =
      let c = resolve_one p chain d b in
      let c' = resolve_all p chain ds c.bot in
      rw (calls-++ c.log c'.log) (
        All-++ (Resolves (d ∷ ds)) (calls c.log) (calls c'.log)
          (All-imp (Resolves (d ∷ [])) (Resolves (d ∷ ds)) (calls c.log)
            (λ k (e, member, h, r).
              (e, elim member [ inl same ↦ inl same | inr nowhere ↦ elim nowhere [ ] ], h, r))
            (resolve_one-calls d b))
          (All-imp (Resolves ds) (Resolves (d ∷ ds)) (calls c'.log)
            (λ k (e, member, h, r). (e, inr member, h, r)) (resolve_all-calls ds c.bot)))

module _ (cfg : Config) (chain : Chain) where
  -- The transaction cranks the mirror of a listed, resolved dispute whose record can be read and does
  -- not rest.
  pub Mirrors : List DisputeInfo → Call → Type 0
  Mirrors ds c =
      (d : DisputeInfo) × (r : KourtRecord) × In d ds
      × (c ≡ crank_mirror d.id)
      × (str_eq d.status "resolved" ≡ true)
      × (chain.kourt_record d.id ≡ some r)
      × (rests cfg chain r ≡ false)

  crank_record-calls : (id : ℕ) → calls (crank_record cfg chain id) ≡ crank_mirror id ∷ []
  unfolding crank_record calls dissent
  crank_record-calls id = elim (Result-cases (chain.call (crank_mirror id))) [
    | inr (why, refused) ↦ rw (crank_record, refused) refl
    | inl (res, made) ↦
        elim (Bool-cases (bytes_eq (mirror_state cfg chain res) (codes "dissent"))) [
          | inl dissents ↦ rw (crank_record, made, dissents) refl
          | inr agrees ↦ rw (crank_record, made, agrees) refl
        ]
  ]

  kourt_one-calls :
      (d : DisputeInfo) (b : Bot)
      → (calls (kourt_one cfg chain d b).log ≡ [])
        ⊎ ((calls (kourt_one cfg chain d b).log ≡ crank_mirror d.id ∷ [])
            × (str_eq d.status "resolved" ≡ true)
            × ((r : KourtRecord) × (chain.kourt_record d.id ≡ some r)
                × (rests cfg chain r ≡ false)))
  unfolding kourt_one calls
  kourt_one-calls d b =
      let may =
        due (codes "kourt-contested:" ++ format_uint d.id) (pos 86400) chain.clock b.state in
      elim (Bool-cases (str_eq d.status "resolved")) [
        | inr other ↦ inl (rw (kourt_one, other) refl)
        | inl over ↦ elim (Option-cases (chain.kourt_record d.id)) [
          | inl unread ↦ inl (rw (kourt_one, over, unread) refl)
          | inr (r, e) ↦ elim (Bool-cases (rests cfg chain r)) [
            | inl quiet ↦ inl (rw (kourt_one, over, e, quiet) refl)
            | inr awake ↦ elim (Bool-cases (r.exists && str_eq r.state "contested")) [
              | inr plain ↦ inr (
                rw (kourt_one, over, e, awake, plain) (crank_record-calls d.id),
                over,
                (r, e, awake),
              )
              | inl contested ↦ elim (Bool-cases may.1) [
                | inr early ↦ inl (rw (kourt_one, over, e, awake, contested, early) refl)
                | inl on_time ↦ inr (
                  rw (kourt_one, over, e, awake, contested, on_time) (crank_record-calls d.id),
                  over,
                  (r, e, awake),
                )
              ]
            ]
          ]
        ]
      ]

  -- Every transaction of crankKourt cranks the mirror of a listed, resolved dispute whose record can be
  -- read, is not terminal and whose court clock has run.
  pub kourt_all-calls :
      (ds : List DisputeInfo) (b : Bot) → All (Mirrors ds) (calls (kourt_all cfg chain ds b).log)
  unfolding kourt_all Mirrors calls
  kourt_all-calls [] b = tt
  kourt_all-calls (d ∷ ds) b =
      let c = kourt_one cfg chain d b in
      let c' = kourt_all cfg chain ds c.bot in
      let rest =
        All-imp (Mirrors ds) (Mirrors (d ∷ ds)) (calls c'.log)
          (λ k (e, r, member, call, over, read, awake). (e, r, inr member, call, over, read, awake))
          (kourt_all-calls ds c.bot) in
      rw (calls-++ c.log c'.log) (elim (kourt_one-calls d b) [
        | inl quiet ↦ rw quiet rest
        | inr (one, over, (r, e, awake)) ↦ rw one ((d, r, inl refl, refl, over, e, awake), rest)
      ])

  -- The transaction settles a listed, opted-in member with a final ballot behind the cursor.
  pub Settles : ℕ → List MemberConfig → Call → Type 0
  Settles n ms c =
      (m : MemberConfig) × In m ms
      × (c ≡ settle_member m.addr)
      × (m.settle ≡ true)
      × (owes cfg chain n m ≡ true)

  pub settle_all-calls :
      (n : ℕ) (ms : List MemberConfig) → All (Settles n ms) (calls (settle_all cfg chain n ms))
  unfolding settle_all calls Settles
  settle_all-calls n [] = tt
  settle_all-calls n (m ∷ ms) =
      let rest =
        All-imp (Settles n ms) (Settles n (m ∷ ms)) (calls (settle_all cfg chain n ms))
          (λ k (m', member, e, o, h). (m', inr member, e, o, h)) (settle_all-calls n ms) in
      elim (Bool-cases (m.settle && owes cfg chain n m)) [
        | inr other ↦ rw (settle_all, other) rest
        | inl chosen ↦
            let (opted, owing) = and-true m.settle (owes cfg chain n m) chosen in
            rw (settle_all, chosen) ((m, inl refl, refl, opted, owing), rest)
      ]
