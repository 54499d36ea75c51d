-- ===== src/Gnochain/Commitment/Laws.antt =====
-- internal/gnochain/commitment.go: the parts of the message that is hashed.
use gnoracle.Base.{ℕ, ◌<◌, true, ◌∷◌, ◌++◌, ℤ, ◌≡◌, ◌≢◌, ◌⊎◌, inl, inr, arith, All, Bool-cases}
use gnoracle.Base.Int64.{two64, IsInt64}
use gnoracle.Base.Text.{Bytes, bytes_eq}
use gnoracle.Base.Text.Search.{Lacks, bytes_eq_iff, split_eq}
use gnoracle.Base.Text.Decimal.{
  format_uint, format_int, format_uint-injective, format_uint-Lacks, parse_int-format_int,
  format_int-Lacks,
}
use gnoracle.Base.Text.Hex.{encode_hex-injective, IsByte}
use gnoracle.Gnochain.Commitment.{
  choice_uphold, choice_overturn, choice_overturn_minor, choice_void, choice_abstain, valid_choice,
  message, commitment,
}

valid_choice-Lacks : (s : Bytes) → valid_choice s ≡ true → Lacks b'|' s
unfolding valid_choice
valid_choice-Lacks s h = ground (
  arith,
  bytes_eq_iff s choice_uphold,
  bytes_eq_iff s choice_overturn,
  bytes_eq_iff s choice_overturn_minor,
  bytes_eq_iff s choice_void,
  bytes_eq_iff s choice_abstain,
)

-- The parts of a vote.
pub record Vote : Type 0 where
  pub dispute : ℕ
  pub round : ℤ
  pub choice : Bytes
  pub salt : Bytes
  pub voter : Bytes

-- What the tools commit to: machine-width numbers, one of the five choices, a salt with no bar.
pub record IsVote (v : Vote) : Type 0 where
  pub dispute_fits : v.dispute < two64
  pub round_fits : IsInt64 v.round
  pub choice_valid : valid_choice v.choice ≡ true
  pub salt_plain : Lacks b'|' v.salt

abbrev pub message_of : Vote → Bytes
message_of v = message v.dispute v.round v.choice v.salt v.voter

-- What follows the dispute and its bar, and what follows the round and its bar.
abbrev after_round : Vote → Bytes
after_round v = v.choice ++ b'|' ∷ (v.salt ++ b'|' ∷ v.voter)

abbrev after_dispute : Vote → Bytes
after_dispute v = format_int v.round ++ b'|' ∷ after_round v

message_tail :
    (v w : Vote)
    → message_of v ≡ message_of w
    → format_uint v.dispute ++ b'|' ∷ after_dispute v
      ≡ format_uint w.dispute ++ b'|' ∷ after_dispute w
unfolding message
message_tail v w e = cc

format_int-injective : (a b : ℤ) → IsInt64 a → IsInt64 b → format_int a ≡ format_int b → a ≡ b
format_int-injective a b ha hb e = cc (parse_int-format_int a ha, parse_int-format_int b hb)

after_round-injective :
    (v w : Vote)
    → IsVote v
    → IsVote w
    → after_round v ≡ after_round w
    → (v.choice ≡ w.choice) × (v.salt ≡ w.salt) × (v.voter ≡ w.voter)
after_round-injective v w hv hw e =
    let (ec, e3) =
      split_eq b'|' v.choice w.choice (v.salt ++ b'|' ∷ v.voter) (w.salt ++ b'|' ∷ w.voter)
        (valid_choice-Lacks v.choice hv.choice_valid) (valid_choice-Lacks w.choice hw.choice_valid)
        e in
    let (es, ev) = split_eq b'|' v.salt w.salt v.voter w.voter hv.salt_plain hw.salt_plain e3 in
    (ec, es, ev)

after_dispute-injective :
    (v w : Vote)
    → IsVote v
    → IsVote w
    → after_dispute v ≡ after_dispute w
    → (v.round ≡ w.round) × (after_round v ≡ after_round w)
after_dispute-injective v w hv hw e =
    let bar = format_int-Lacks b'|' v.round (inr (omega arith)) (omega arith) in
    let bar' = format_int-Lacks b'|' w.round (inr (omega arith)) (omega arith) in
    let (er, e2) =
      split_eq b'|' (format_int v.round) (format_int w.round) (after_round v) (after_round w) bar
        bar' e in
    (format_int-injective v.round w.round hv.round_fits hw.round_fits er, e2)

message-injective : (v w : Vote) → IsVote v → IsVote w → message_of v ≡ message_of w → v ≡ w
message-injective v w hv hw e =
    let bar = format_uint-Lacks b'|' v.dispute (inr (omega arith)) in
    let bar' = format_uint-Lacks b'|' w.dispute (inr (omega arith)) in
    let (ed, e1) =
      split_eq b'|' (format_uint v.dispute) (format_uint w.dispute) (after_dispute v)
        (after_dispute w) bar bar' (message_tail v w e) in
    let (er, e2) = after_dispute-injective v w hv hw e1 in
    let (ec, es, ev) = after_round-injective v w hv hw e2 in
    ground (
      arith,
      format_uint-injective v.dispute w.dispute hv.dispute_fits hw.dispute_fits ed,
      er,
      ec,
      es,
      ev,
    )

module _ (sum256 : Bytes → Bytes) (bytes_out : (m : Bytes) → All IsByte (sum256 m)) where
  abbrev pub commitment_of : Vote → Bytes
  commitment_of v = commitment sum256 v.dispute v.round v.choice v.salt v.voter

  -- Two votes with one commitment are the same vote in every part, or their messages are two
  -- different texts with one digest under the hash function. The votes have a uint64 dispute, an
  -- int64 round, one of the five choices and a salt without a bar; the voter may be any text; the
  -- hash returns bytes.
  pub commitment_binding :
      (v w : Vote)
      → IsVote v
      → IsVote w
      → commitment_of v ≡ commitment_of w
      → (v ≡ w) ⊎ ((message_of v ≢ message_of w) × (sum256 (message_of v) ≡ sum256 (message_of w)))
  unfolding commitment
  commitment_binding v w hv hw e = elim (Bool-cases (bytes_eq (message_of v) (message_of w))) [
    | inl same ↦ inl (message-injective v w hv hw ((bytes_eq_iff _ _).0 same))
    | inr differ ↦ inr (
      λ m. cc (differ, (bytes_eq_iff _ _).1 m),
      encode_hex-injective _ _ (bytes_out (message_of v)) (bytes_out (message_of w)) e,
    )
  ]
