-- ===== src/Notify/Laws.antt =====
-- internal/notify/notify.go: the token in the text of an error.
use gnoracle.Base.{
  ℕ, zero, suc, ◌==◌, ◌/◌, ◌-◌, ◌||◌, ℤ, pos, eqb_ℤ, true, false, [], ◌∷◌, ◌++◌, Option, none, some,
  ◌≡◌, ◌≢◌, ◌⊎◌, inl, inr, arith, refl, sym, ◌∙◌, subst, Bool-cases, or-false, length, take,
}
use mathlib.Core.List.{append_assoc}
use gnoracle.Base.Text.{Bytes, codes, has_prefix, contains, before_first}
use gnoracle.Base.Text.Search.{Lacks}
use gnoracle.Notify.{
  address, clip, telegram_send, send, send_all, new_notifier, new_telegram, logged, Telegram,
  Response, transport_error, answered, replace_from, replace_all, hide_token, error_of,
}

contains-step : (c : ℕ) (s t : Bytes) → contains (c ∷ s) t ≡ (has_prefix (c ∷ s) t || contains s t)
unfolding contains before_first
contains-step c s t = ground arith

prefix_before :
    (c : ℕ) (a t b : Bytes) → Lacks c t → has_prefix (a ++ c ∷ b) t ≡ true → has_prefix a t ≡ true
unfolding has_prefix
prefix_before c a [] b lacks h = ground arith
prefix_before c [] (x ∷ t) b (differ, lacks) h = absurd (ground (arith, differ))
prefix_before c (y ∷ a) (x ∷ t) b (differ, lacks) h = ground (arith, prefix_before c a t b lacks)

-- A text that neither side of a byte holds is not held across it, where it lacks that byte.
contains-append :
    (c : ℕ) (a b t : Bytes)
    → Lacks c t
    → contains a t ≡ false
    → contains b t ≡ false
    → contains (a ++ c ∷ b) t ≡ false
unfolding contains before_first
contains-append c [] b t lacks ha hb =
    ground (arith, contains-step c b t, prefix_before c [] t b lacks)
contains-append c (x ∷ a) b t lacks ha hb =
    let (here, behind) =
      or-false (has_prefix (x ∷ a) t) (contains a t) (sym (contains-step x a t) ∙ ha) in
    ground (
      arith,
      contains-step x (a ++ c ∷ b) t,
      prefix_before c (x ∷ a) t b lacks,
      here,
      contains-append c a b t lacks behind hb,
    )

replace_hit :
    (old : Bytes) (c : ℕ) (s : Bytes)
    → has_prefix (c ∷ s) old ≡ true
    → replace_from old (codes "***") 0 (c ∷ s)
      ≡ b'*' ∷ b'*' ∷ b'*' ∷ replace_from old (codes "***") (length old - 1) s
unfolding replace_from
replace_hit old c s hit = rw hit refl

replace_kept :
    (old : Bytes) (c : ℕ) (s : Bytes)
    → has_prefix (c ∷ s) old ≡ false
    → replace_from old (codes "***") 0 (c ∷ s) ≡ c ∷ replace_from old (codes "***") 0 s
unfolding replace_from
replace_kept old c s kept = rw kept refl

replace_nothing : (old : Bytes) → replace_from old (codes "***") 0 [] ≡ []
unfolding replace_from
replace_nothing old = refl

-- A text without a star that the replaced text begins with is where the text began.
kept_prefix :
    (old : Bytes) (s t : Bytes)
    → Lacks b'*' t
    → has_prefix (replace_from old (codes "***") 0 s) t ≡ true
    → has_prefix s t ≡ true
unfolding has_prefix
kept_prefix old s [] lacks h = ground arith
kept_prefix old [] (x ∷ t) lacks h =
    subst (λ r. has_prefix r (x ∷ t) ≡ true) (replace_nothing old) h
kept_prefix old (c ∷ s) (x ∷ t) (differ, lacks) h = elim (Bool-cases (has_prefix (c ∷ s) old)) [
  | inl hit ↦
      let h' = subst (λ r. has_prefix r (x ∷ t) ≡ true) (replace_hit old c s hit) h in
      absurd (ground (arith, h', differ))
  | inr kept ↦
      let h' = subst (λ r. has_prefix r (x ∷ t) ≡ true) (replace_kept old c s kept) h in
      ground (arith, h', kept_prefix old s t lacks)
]

contains-nil : (t : Bytes) → t ≢ [] → contains [] t ≡ false
unfolding contains before_first has_prefix
contains-nil [] named = absurd (named refl)
contains-nil (c ∷ t) named = refl

-- The replaced text does not hold what was replaced.
replace_from_hides :
    (old : Bytes) (left : ℕ) (s : Bytes)
    → old ≢ []
    → Lacks b'*' old
    → contains (replace_from old (codes "***") left s) old ≡ false
unfolding replace_from
replace_from_hides old left [] named lacks = contains-nil old named
replace_from_hides old (suc left) (c ∷ s) named lacks = replace_from_hides old left s named lacks
replace_from_hides old zero (c ∷ s) named lacks = elim (Bool-cases (has_prefix (c ∷ s) old)) [
  | inl hit ↦
      let starred : (r : Bytes) → contains r old ≡ false → contains (b'*' ∷ r) old ≡ false =
        λ r h. contains-append b'*' [] r old lacks (contains-nil old named) h in
      rw hit
        (starred _ (starred _ (starred _ (replace_from_hides old (length old - 1) s named lacks))))
  | inr kept ↦
      let rest = replace_from old (codes "***") 0 s in
      let e : has_prefix (c ∷ rest) old ≡ true → has_prefix (c ∷ s) old ≡ true = λ h.
        kept_prefix old (c ∷ s) old lacks
          (subst (λ r. has_prefix r old ≡ true) (sym (replace_kept old c s kept)) h) in
      rw kept
        (ground (arith, e, kept, contains-step c rest old, replace_from_hides old 0 s named lacks))
]

-- What an error says before the text that may quote the token.
unfoldable pub heading : Response → Bytes
heading (transport_error e) = codes "telegram:"
heading (answered code status body) = codes "telegram: " ++ status ++ codes ":"

spaced :
    (status hidden : Bytes)
    → codes "telegram: " ++ status ++ codes ": " ++ hidden
      ≡ (codes "telegram: " ++ status ++ codes ":") ++ b' ' ∷ hidden
spaced status hidden = simp (append_assoc)

-- Where the token is not empty and has no star and no space, and what the error says before does not
-- hold it, the error of an answer does not hold the token, whatever the answer quotes.
error_of-hides :
    (t : Telegram) (r : Response)
    → t.token ≢ []
    → Lacks b'*' t.token
    → Lacks b' ' t.token
    → contains (heading r) t.token ≡ false
    → (error_of t r ≡ none) ⊎ ((e : Bytes) × (error_of t r ≡ some e) × (contains e t.token ≡ false))
unfolding error_of hide_token replace_all heading
error_of-hides t (transport_error e) named star space quiet = inr (
  _,
  refl,
  contains-append b' ' (codes "telegram:") _ t.token space quiet
      (replace_from_hides t.token 0 e named star),
)
error_of-hides t (answered code status body) named star space quiet =
    elim (Bool-cases (code / 100 == 2)) [
      | inl fine ↦ inl (rw fine refl)
      | inr failed ↦
          let hidden = replace_from t.token (codes "***") 0 (take 2000 body) in
          inr (
            codes "telegram: " ++ status ++ codes ": " ++ hidden,
            rw failed refl,
            subst (λ e. contains e t.token ≡ false) (sym (spaced status hidden))
                (contains-append b' ' (codes "telegram: " ++ status ++ codes ":") hidden t.token
                  space quiet (replace_from_hides t.token 0 (take 2000 body) named star)),
          )
    ]

module _ (request_error : Bytes → Option Bytes) (http : Bytes → ℤ → Bytes → Response) where
  -- Where the request can be made, the token is not empty and has no star and no space, and what the
  -- error says before it quotes the answer does not hold the token: the error that a message to a
  -- chat returns, if any, does not hold the token, whatever the client or the server quotes.
  pub telegram_send-hides :
      (t : Telegram) (chat_id : ℤ) (text : Bytes)
      → t.token ≢ []
      → Lacks b'*' t.token
      → Lacks b' ' t.token
      → request_error (address t) ≡ none
      → contains (heading (http (address t) chat_id (clip text))) t.token ≡ false
      → let e = (telegram_send request_error http t chat_id text).1 in
        (e ≡ none) ⊎ ((said : Bytes) × (e ≡ some said) × (contains said t.token ≡ false))
  unfolding telegram_send
  telegram_send-hides t chat_id text named star space made quiet =
      elim (Bool-cases (eqb_ℤ chat_id (pos 0))) [
        | inl nowhere ↦ inl (rw nowhere refl)
        | inr somewhere ↦
            rw (somewhere, made)
              (error_of-hides t (http (address t) chat_id (clip text)) named star space quiet)
      ]

  -- The log beside Telegram has the message whatever becomes of the request.
  send_echo :
      (token : Bytes) (chat_id : ℤ) (text : Bytes)
      → token ≢ []
      → let (sent, e) = send request_error http (new_notifier token true) chat_id text in
        let (sent', e') = telegram_send request_error http (new_telegram token) chat_id text in
        (sent ≡ sent' ++ logged chat_id text ∷ []) × (e ≡ e')
  unfolding send send_all new_notifier
  send_echo [] chat_id text named = absurd (named refl)
  send_echo (c ∷ token) chat_id text named = (refl, ground arith)
