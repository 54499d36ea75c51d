-- ===== src/Gnochain/Client/Key.antt =====
-- The lookups of a key, and what an opened key is.
use gnoracle.Base.{
  ◌==◌, ==_iff, subst, sym, ℕ, zero, suc, ◌+◌, ◌≤◌, leb, Bool, true, false, ◌≡◌, ◌⊎◌, inl, inr,
  arith, refl, Bool-cases, if◌then◌else◌,
}
use gnoracle.Base.Result.{Result, ok, err, Result-cases, bind_ok, then_ok, ensure_ok}
use gnoracle.Base.Text.{Bytes, is_empty}
use gnoracle.Gnochain.Client.{
  KeyConfig, KeyReplies, Signer, ClientError, not_found, held, or_else, is_locked, look_up_from,
  disk_key, signer_of, open_key, from_mnemonic, from_disk, exported, given_password,
}

module _ (cfg : KeyConfig) (replies : KeyReplies) where
  -- An attempt that finds the keybase held by another process.
  pub locked_at : ℕ → Bool
  locked_at n = elim (replies.look_up n) [ ok _ ↦ false | err e ↦ is_locked cfg replies e ]

  -- What an attempt decides: the key, an error that is no lock, or the lock at the last attempt.
  unfoldable pub Decides : ℕ → Result ClientError Bytes → Type 0
  Decides n r =
      ((name : Bytes) × (replies.look_up n ≡ ok name) × (r ≡ ok name))
      ⊎ ((e : Bytes) × (replies.look_up n ≡ err e)
          × (((is_locked cfg replies e ≡ false) × (r ≡ err (not_found e)))
              ⊎ ((n ≡ 40) × (is_locked cfg replies e ≡ true) × (r ≡ err (held e)))))

  -- All attempts from one on and before another found the lock.
  unfoldable pub Waited : ℕ → ℕ → Type 0
  Waited from n = (j : ℕ) → (suc j ≤ from) ⊎ (n ≤ j) ⊎ (locked_at j ≡ true)

  Looked : ℕ → Result ClientError Bytes → Type 0
  Looked attempt r = (n : ℕ) × (attempt ≤ n) × (n ≤ 40) × Waited attempt n × Decides n r

  decided_at :
      (attempt : ℕ) (r : Result ClientError Bytes)
      → attempt ≤ 40
      → Decides attempt r
      → Looked attempt r
  unfolding Looked Waited
  decided_at attempt r le d = (attempt, omega arith, le, λ j. omega arith, d)

  -- A lock with attempts left.
  look_on :
      (attempt : ℕ) (r : Result ClientError Bytes)
      → locked_at attempt ≡ true
      → Looked (attempt + 1) r
      → Looked attempt r
  unfolding Looked Waited
  look_on attempt r locked (n, ge, le, waited, d) = (n, omega arith, le, λ j. still j (waited j), d)
    where
      still :
          (j : ℕ)
          → (suc j ≤ attempt + 1) ⊎ (n ≤ j) ⊎ (locked_at j ≡ true)
          → (suc j ≤ attempt) ⊎ (n ≤ j) ⊎ (locked_at j ≡ true)
      still j (inr done) = inr done
      still j (inl before) = elim (Bool-cases (j == attempt)) [
        | inl same ↦
            inr (inr (subst (λ i. locked_at i ≡ true) (sym ((==_iff j attempt).0 same)) locked))
        | inr other ↦ inl (ground (arith, other))
      ]

  locked_lem :
      (attempt : ℕ) (e : Bytes)
      → replies.look_up attempt ≡ err e
      → is_locked cfg replies e ≡ true
      → locked_at attempt ≡ true
  unfolding locked_at
  locked_lem attempt e answer locked = rw (locked_at, answer) locked

  look_up-Looked :
      (fuel attempt : ℕ)
      → attempt ≤ 40
      → ((e : Bytes)
          → replies.look_up attempt ≡ err e
          → is_locked cfg replies e ≡ true
          → Looked attempt (look_up_from cfg replies (suc fuel) attempt))
      → Looked attempt (look_up_from cfg replies (suc fuel) attempt)
  unfolding look_up_from Decides
  look_up-Looked fuel attempt le onward = elim (Result-cases (replies.look_up attempt)) [
    | inl (name, e) ↦ decided_at attempt _ le (inl (name, e, rw (look_up_from, e) refl))
    | inr (er, e) ↦ elim (Bool-cases (is_locked cfg replies er)) [
      | inr other ↦
          decided_at attempt _ le (inr (er, e, inl (other, rw (look_up_from, e, other) refl)))
      | inl locked ↦ onward er e locked
    ]
  ]

  look_up_from-Looked :
      (fuel attempt : ℕ)
      → attempt + fuel ≡ 40
      → Looked attempt (look_up_from cfg replies (suc fuel) attempt)
  unfolding look_up_from Decides
  look_up_from-Looked zero attempt sum = look_up-Looked 0 attempt (omega arith) (λ e answer locked.
      let last : leb 40 attempt ≡ true = ground arith in
      decided_at attempt _ (omega arith)
        (inr (e, answer, inr (omega arith, locked, rw (look_up_from, answer, locked, last) refl))))
  look_up_from-Looked (suc fuel) attempt sum =
      look_up-Looked (suc fuel) attempt (omega arith) (λ e answer locked.
        let more : leb 40 attempt ≡ false = ground arith in
        let same : look_up_from cfg replies (suc (suc fuel)) attempt
            ≡ look_up_from cfg replies (suc fuel) (attempt + 1) =
          rw (look_up_from, answer, locked, more) refl in
        subst (Looked attempt) (sym same) (
          look_on attempt _ (locked_lem attempt e answer locked)
            (look_up_from-Looked fuel (attempt + 1) (omega arith))))

  -- The lookups of the key on disk end by themselves: at the first attempt of at most forty-one that
  -- does not find the keybase locked, which gives the key or its own error, or at the last of them.
  pub disk_key_lem :
      (n : ℕ) × (n ≤ 40)
      × ((j : ℕ) → (n ≤ j) ⊎ (locked_at j ≡ true))
      × Decides n (disk_key cfg replies)
  unfolding disk_key Looked Waited
  disk_key_lem =
      let (n, ge, le, waited, d) = look_up_from-Looked 40 0 refl in
      (n, le, λ j. started j (waited j), d)
    where
      started : (j : ℕ) {A B : Type 0} → (suc j ≤ 0) ⊎ (A ⊎ B) → A ⊎ B
      started j (inl past) = absurd (omega (arith, past))
      started j (inr h) = h

  Works : Signer → Type 0
  Works s = (replies.lists s.account ≡ true) × (replies.signs s.account s.secret ≡ true)

  signer_of-Works :
      (name password : Bytes) (s : Signer) → signer_of cfg replies name password ≡ ok s → Works s
  unfolding signer_of Works
  signer_of-Works name password s e =
      let (listed, e1) = then_ok _ _ s e in
      let (signing, e2) = then_ok _ _ s e1 in
      let l = ensure_ok (replies.lists name) _ listed in
      let g = ensure_ok (replies.signs name password) _ signing in
      let same : record { account = name; secret = password } ≡ s = cc in
      subst (λ s. (replies.lists s.account ≡ true) × (replies.signs s.account s.secret ≡ true)) same
        (l, g)

  from_mnemonic-Works :
      (mnemonic given : Bytes) (s : Signer)
      → from_mnemonic cfg replies mnemonic given ≡ ok s
      → Works s
  unfolding from_mnemonic
  from_mnemonic-Works mnemonic given s e = signer_of-Works _ _ s (then_ok _ _ s e).1

  from_disk-Works : (given : Bytes) (s : Signer) → from_disk cfg replies given ≡ ok s → Works s
  unfolding from_disk
  from_disk-Works given s e =
      let (name, _, e1) = bind_ok (disk_key cfg replies) _ s (then_ok _ _ s e).1 in
      let (secret, _, e2) = bind_ok (exported cfg replies name _) _ s e1 in
      signer_of-Works _ _ s (then_ok _ _ s e2).1

  -- A key that was opened is listed, and has signed with the password that is kept.
  open_key-Works : (s : Signer) → open_key cfg replies ≡ ok s → Works s
  unfolding open_key
  open_key-Works s e =
      let mnemonic = or_else cfg.mnemonic replies.env_mnemonic in
      let (given, _, e1) = bind_ok (given_password cfg replies) _ s e in
      elim (Bool-cases (is_empty mnemonic)) [
        | inl none_given ↦ from_disk-Works given s (
            subst
              (λ b.
                (if b
                  then from_disk cfg replies given
                  else from_mnemonic cfg replies mnemonic given)
                ≡ ok s)
              none_given e1)
        | inr some_given ↦ from_mnemonic-Works mnemonic given s (
            subst
              (λ b.
                (if b
                  then from_disk cfg replies given
                  else from_mnemonic cfg replies mnemonic given)
                ≡ ok s)
              some_given e1)
      ]
