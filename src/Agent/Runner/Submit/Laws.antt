-- ===== src/Agent/Runner/Submit/Laws.antt =====
-- What a submission was checked against.
use gnoracle.Base.{
  ℕ, ℤ, true, false, List, [], ◌∷◌, ◌++◌, none, some, ◌≡◌, ◌⊎◌, inl, inr, arith, refl, Bool-cases,
  Option-cases, map,
}
use gnoracle.Base.Result.{Result-cases}
use gnoracle.Base.Text.{Bytes, codes}
use gnoracle.Gnochain.Views.Feeds.{FeedInfo, is_numeric}
use gnoracle.Agent.Aggregate.{Rat, aggregate, number, option_label, rejected, Aggregated}
use gnoracle.Agent.Scale.{scale_to_int}
use gnoracle.Agent.Options.{option_index}
use gnoracle.Agent.Store.{FeedState, State}
use gnoracle.Agent.Runner.Defs.{
  Settings, Runner, Replies, Effect, submissions, submit_call, Refusal, deviates, journal, refusal,
  refusal_alert, fetched, overridden,
}
use gnoracle.Agent.Runner.Submit.{
  submit, fetch, checked, send, refuse, strays, value_of, Fetched, number_value, label_value, below,
  above, refused_as, no_value, unfit, fetched_from,
}

pub submissions-append :
    (xs ys : List Effect) → submissions (xs ++ ys) ≡ submissions xs ++ submissions ys
unfolding submissions
submissions-append [] ys = refl
submissions-append (x ∷ xs) ys = ground (arith, submissions-append xs ys)

module _ (s : Settings) (replies : Replies) (f : FeedInfo) (round : ℕ) where
  -- A value is what the sources agreed on, on the feed's scale: a number within the bounds, rounded, or
  -- the place of a label among the options.
  pub Agreed : ℤ → Type 0
  Agreed v =
      ((r : Rat) × (aggregate replies.samples (is_numeric f.spec) s.min_sources ≡ number r)
        × (below r s.params.lower_bound ≡ false)
        × (above r s.params.upper_bound ≡ false)
        × (scale_to_int (some r) f.spec.decimals ≡ some v))
      ⊎ ((l : Bytes) × (aggregate replies.samples (is_numeric f.spec) s.min_sources
            ≡ option_label l)
          × (option_index (map codes f.spec.options) l s.mapping ≡ some v))

  number_value-eq :
      (r : Rat) (v : ℤ)
      → number_value s replies f round r ≡ value_of v
      → (below r s.params.lower_bound ≡ false)
        × (above r s.params.upper_bound ≡ false)
        × (scale_to_int (some r) f.spec.decimals ≡ some v)
  unfolding number_value
  number_value-eq r v e = ground arith

  label_value-eq :
      (l : Bytes) (v : ℤ)
      → label_value s replies f round l ≡ value_of v
      → option_index (map codes f.spec.options) l s.mapping ≡ some v
  unfolding label_value
  label_value-eq l v e = ground arith

  fetched_from-Agreed :
      (a : Aggregated) (v : ℤ)
      → fetched_from s replies f round a ≡ value_of v
      → aggregate replies.samples (is_numeric f.spec) s.min_sources ≡ a
      → Agreed v
  unfolding fetched_from Agreed
  fetched_from-Agreed (number r) v e a =
      let (lo, hi, scaled) = number_value-eq r v e in inl (r, a, lo, hi, scaled)
  fetched_from-Agreed (option_label l) v e a = inr (l, a, label_value-eq l v e)
  fetched_from-Agreed (rejected er) v e a = absurd cc

  fetch-Agreed : (v : ℤ) → fetch s replies f round ≡ value_of v → Agreed v
  unfolding fetch
  fetch-Agreed v e = fetched_from-Agreed _ v e refl

  -- What a pass may send: nothing, or the value that was agreed on, once, for this round, and within
  -- the sanity band of the reference unless the operator overrides it.
  unfoldable pub Sends : FeedState → ℤ → List Effect → Type 0
  Sends st headroom log =
      (submissions log ≡ [])
      ⊎ ((v : ℤ) × (submissions log ≡ (round, v, headroom) ∷ [])
          × Agreed v
          × ((strays s replies f round st v ≡ none) ⊎ (s.override ≡ true)))

  refuse-submits :
      (why : Refusal) (r : Runner) (store : State) (log : List Effect)
      → submissions log ≡ []
      → submissions (refuse s replies f round why r store log).log ≡ []
  unfolding refuse submissions
  refuse-submits why r store log h =
      let noted = journal (refusal round why replies.samples) ∷ [] in
      ground (
        arith,
        submissions-append log noted,
        submissions-append log (noted ++ refusal_alert round why ∷ []),
        h,
      )

  send-submits :
      (v headroom : ℤ) (r : Runner) (store : State) (log : List Effect)
      → submissions log ≡ []
      → submissions (send s replies f round v headroom r store log).log ≡ (round, v, headroom) ∷ []
  unfolding send submissions
  send-submits v headroom r store log h =
      let sent = log ++ submit_call round v headroom ∷ [] in
      elim (Result-cases replies.submit) [
        | inl (res, e) ↦ rw (e, submissions-append sent _, submissions-append log _, h) refl
        | inr (er, e) ↦ rw (e, submissions-append sent _, submissions-append log _, h) refl
      ]

  checked-Sends :
      (v : ℤ) (st : FeedState) (headroom : ℤ) (r : Runner) (store : State)
      → Agreed v
      → Sends st headroom (checked s replies f round v st headroom r store).log
  unfolding checked Sends submissions
  checked-Sends v st headroom r store agreed =
      let log = journal (fetched round v replies.samples) ∷ [] in
      elim (Option-cases (strays s replies f round st v)) [
        | inl near ↦
            inr (v, rw (checked, near) (send-submits v headroom r store log refl), agreed, inl near)
        | inr (ref, far) ↦ elim (Bool-cases s.override) [
          | inl over ↦ inr (
            v,
            rw (checked, far, over)
                (send-submits v headroom r store (log ++ journal (overridden round v ref) ∷ [])
                  refl),
            agreed,
            inr over,
          )
          | inr refused ↦
              inl (rw (checked, far, refused) (refuse-submits (deviates v ref) r store log refl))
        ]
      ]

  submitted-Sends :
      (o : Fetched)
      → fetch s replies f round ≡ o
      → (st : FeedState) (headroom : ℤ) (r : Runner) (store : State)
      → Sends st headroom (submit s replies f round st headroom r store).log
  unfolding submit Sends submissions
  submitted-Sends (value_of v) e st headroom r store =
      rw (submit, submissions, e) (checked-Sends v st headroom r store (fetch-Agreed v e))
  submitted-Sends (refused_as why) e st headroom r store =
      rw (submit, submissions, e) (inl (refuse-submits why r store [] refl))
  submitted-Sends unfit e st headroom r store = rw (submit, submissions, e) (inl refl)
  submitted-Sends (no_value er) e st headroom r store =
      rw (submit, submissions, e)
        (elim (Bool-cases s.from_file) [
          | inl file ↦ inl (rw file refl)
          | inr other ↦ inl (rw other refl)
        ])

  -- A pass sends nothing, or once the value that the samples agree on (a number within the bounds
  -- and rounded to the feed's decimals, or the place of a label among its options), for its round
  -- and with its headroom; and a value beyond the sanity band only under the operator's override.
  pub submit_sound :
      (st : FeedState) (headroom : ℤ) (r : Runner) (store : State)
      → Sends st headroom (submit s replies f round st headroom r store).log
  submit_sound = submitted-Sends _ refl
