-- ===== src/Agent/Runner/Marks.antt =====
-- agent/agent.go: how a feed's memory bounds the rounds that may still be submitted.
use gnoracle.Base.{
  ℕ, suc, ◌≤◌, ℤ, eqb_ℤ, true, ◌&&◌, ◌||◌, List, [], ◌∷◌, ◌++◌, if◌then◌else◌, ◌≡◌, ◌⊎◌, inl, inr,
  arith, subst, refl, sym, ◌∙◌,
}
use gnoracle.Agent.Store.{FeedState, State, update, snapshot}
use gnoracle.Agent.Store.Laws.{snapshot-update}
use gnoracle.Agent.Runner.Defs.{Effect, accepted, is_saved}

-- The first round that the memory leaves open under a schedule.
abbrev pub mark : ℤ → FeedState → ℕ
mark start fs = if eqb_ℤ fs.start_at start && fs.has_round then suc fs.last_round else 0

-- The rounds rise strictly from the first bound on, and the last bound is past all of them.
unfoldable pub Reaches : ℕ → List ℕ → ℕ → Type 0
Reaches m [] n = m ≤ n
Reaches m (c ∷ cs) n = (m ≤ c) × Reaches (suc c) cs n

Reaches-weaken : (m m' : ℕ) (cs : List ℕ) (n : ℕ) → m ≤ m' → Reaches m' cs n → Reaches m cs n
unfolding Reaches
Reaches-weaken m m' [] n h r = omega arith
Reaches-weaken m m' (c ∷ cs) n h (le, r) = (omega arith, r)

pub Reaches-append :
    (m : ℕ) (cs ds : List ℕ) (n k : ℕ) → Reaches m cs n → Reaches n ds k → Reaches m (cs ++ ds) k
unfolding Reaches
Reaches-append m [] ds n k h r = Reaches-weaken m n ds k h r
Reaches-append m (c ∷ cs) ds n k (le, h) r = (le, Reaches-append (suc c) cs ds n k h r)

pub accepted-append : (xs ys : List Effect) → accepted (xs ++ ys) ≡ accepted xs ++ accepted ys
unfolding accepted
accepted-append [] ys = refl
accepted-append (x ∷ xs) ys = ground (arith, accepted-append xs ys)

pub is_saved-append : (xs ys : List Effect) → is_saved (xs ++ ys) ≡ (is_saved xs || is_saved ys)
unfolding is_saved
is_saved-append [] ys = refl
is_saved-append (x ∷ xs) ys = ground (arith, is_saved-append xs ys)

module _ (id : ℕ) (start : ℤ) where
  -- What a pass over one feed may do to the memory: nothing to that of another feed or to the chain's
  -- name; and of its own feed it accounts for every round that was accepted, and has written to the
  -- file what changes the bound.
  pub record Accounts (store store' : State) (log : List Effect) : Type 0 where
    pub chain : store'.chain ≡ store.chain
    pub others : (j : ℕ) → (j ≡ id) ⊎ (snapshot j store' ≡ snapshot j store)
    pub written :
        (is_saved log ≡ true) ⊎ (mark start (snapshot id store) ≡ mark start (snapshot id store'))
    pub rounds :
        Reaches (mark start (snapshot id store)) (accepted log) (mark start (snapshot id store'))

  pub Accounts-same :
      (store : State) (log : List Effect) → accepted log ≡ [] → Accounts store store log
  unfolding Reaches
  Accounts-same store log e = record {
    chain = refl;
    others = λ j. inr refl;
    written = inr refl;
    rounds = rw e (omega arith);
  }

  pub Accounts-update :
      (store : State) (fn : FeedState → FeedState) (log : List Effect)
      → (is_saved log ≡ true)
        ⊎ (mark start (snapshot id store) ≡ mark start (fn (snapshot id store)))
      → Reaches
          (mark start (snapshot id store))
          (accepted log)
          (mark start (fn (snapshot id store)))
      → Accounts store (update id fn store) log
  unfolding update
  Accounts-update store fn log w h =
      let shown : snapshot id (update id fn store) ≡ fn (snapshot id store) =
        ground (arith, snapshot-update id id fn store) in
      let old = mark start (snapshot id store) in
      record {
        chain = refl;
        others = λ j. ground (arith, snapshot-update id j fn store);
        written = subst (λ fs. (is_saved log ≡ true) ⊎ (old ≡ mark start fs)) (sym shown) w;
        rounds = subst (λ fs. Reaches old (accepted log) (mark start fs)) (sym shown) h;
      }

  pub Accounts-append :
      (s1 s2 s3 : State) (l l' : List Effect)
      → Accounts s1 s2 l
      → Accounts s2 s3 l'
      → Accounts s1 s3 (l ++ l')
  Accounts-append s1 s2 s3 l l' first next = record {
    chain = next.chain ∙ first.chain;
    others = λ j. elim (first.others j) [
      | inl own ↦ inl own
      | inr same ↦ elim (next.others j) [ inl own ↦ inl own | inr same' ↦ inr (same' ∙ same) ]
    ];
    written = ground (arith, is_saved-append l l', first.written, next.written);
    rounds =
        subst (λ cs. Reaches (mark start (snapshot id s1)) cs (mark start (snapshot id s3)))
          (sym (accepted-append l l'))
          (Reaches-append _ (accepted l) (accepted l') _ _ first.rounds next.rounds);
  }
