-- ===== src/Gnochain/Client/Price.antt =====
-- internal/gnochain/client.go: the gas price, and whether a client signs.
use gnoracle.Base.{
  ℕ, ℤ, Bool, true, false, not, [], ◌∷◌, ◌++◌, Option, none, some, ◌≡◌, ◌≢◌, inl, inr, ◌↔◌, arith,
  refl, ap, subst, sym, ◌∙◌, Bool-cases, Option-cases, All,
}
use gnoracle.Base.Result.{Result, ok, bind_ok, then_ok, ensure, ◌>>=◌, ◌>>◌}
use gnoracle.Base.Text.{Bytes, is_empty, trim_space}
use gnoracle.Gnochain.Broadcast.{GasConfig, defaults}
use gnoracle.Gnochain.Client.{
  ClientError, KeyConfig, KeyReplies, Signer, Client, span_number, is_digit_or_point, price_number,
  price_of, parse_gas_price, open_key, wants_key, signer_wanted, client_of, no_remote, no_http,
  bad_max_deposit, new_client,
}

-- The number is digits and points, and the unit behind it begins with another byte.
pub IsSplit : Bytes → Bytes → Bytes → Type 0
IsSplit s number [] = (s ≡ number ++ []) × All (λ c. is_digit_or_point c ≡ true) number
IsSplit s number (u ∷ unit) =
    (s ≡ number ++ u ∷ unit)
    × All (λ c. is_digit_or_point c ≡ true) number
    × (is_digit_or_point u ≡ false)

span_number-IsSplit : (s : Bytes) → let (number, unit) = span_number s in IsSplit s number unit
unfolding span_number IsSplit
span_number-IsSplit [] = (refl, tt)
span_number-IsSplit (c ∷ s) = elim (Bool-cases (is_digit_or_point c)) [
  | inl digit ↦
      rw digit (extended c s (span_number s).0 (span_number s).1 digit (span_number-IsSplit s))
  | inr other ↦ rw other (refl, tt, other)
]
  where
    extended :
        (c : ℕ) (s number unit : Bytes)
        → is_digit_or_point c ≡ true
        → IsSplit s number unit
        → IsSplit (c ∷ s) (c ∷ number) unit
    extended c s number [] digit (e, all) = (ap (◌∷◌ c) e, (digit, all))
    extended c s number (u ∷ unit) digit (e, all, other) = (ap (◌∷◌ c) e, (digit, all), other)

module _ {Number : Type 0} (parse_float : Bytes → Option Number) (is_positive : Number → Bool) where
  price_number_sound :
      (s number : Bytes) (n : Number)
      → price_number parse_float is_positive s number ≡ ok n
      → (parse_float number ≡ some n) × (is_positive n ≡ true)
  unfolding price_number
  price_number_sound s number n e = elim (Option-cases (parse_float number)) [
    | inl bad ↦ absurd (ground (arith, e, bad))
    | inr (m, parsed) ↦ ground (arith, e, parsed)
  ]

  IsPrice : Bytes → Bytes → Bytes → Number → Bytes → Type 0
  IsPrice s number rest n unit =
      (rest ≡ unit)
      × (number ≢ [])
      × (unit ≢ [])
      × (parse_float number ≡ some n)
      × (is_positive n ≡ true)

  price_of-IsPrice :
      (t number rest : Bytes) (n : Number) (unit : Bytes)
      → price_of parse_float is_positive t number rest ≡ ok (n, unit)
      → IsPrice t number rest n unit
  unfolding IsPrice price_of
  price_of-IsPrice t [] rest n unit e = absurd cc
  price_of-IsPrice t (c ∷ number) [] n unit e = absurd cc
  price_of-IsPrice t (c ∷ number) (u ∷ rest) n unit e =
      let (m, parsed, same) =
        bind_ok (price_number parse_float is_positive t (c ∷ number)) _ (n, unit) e in
      let is_n : m ≡ n = cc in
      let is_unit : u ∷ rest ≡ unit = cc in
      let (p, q) = price_number_sound t (c ∷ number) m parsed in
      (
        is_unit,
        (cc),
        subst (λ v. v ≢ []) is_unit (cc),
        subst (λ x. parse_float (c ∷ number) ≡ some x) is_n p,
        subst (λ x. is_positive x ≡ true) is_n q,
      )

  -- A gas price that is read is, but for space around it, a number of digits and points that parses
  -- to a positive one, and a unit that is not empty and begins with another byte.
  pub parse_gas_price_sound :
      (s : Bytes) (n : Number) (unit : Bytes)
      → parse_gas_price parse_float is_positive s ≡ ok (n, unit)
      → (number : Bytes) × IsSplit (trim_space s) number unit
        × (number ≢ [])
        × (unit ≢ [])
        × (parse_float number ≡ some n)
        × (is_positive n ≡ true)
  unfolding parse_gas_price IsPrice
  parse_gas_price_sound s n unit e =
      let (number, rest) = span_number (trim_space s) in
      let (same, named, behind, parsed, positive) =
        price_of-IsPrice (trim_space s) number rest n unit e in
      (
        number,
        subst (IsSplit (trim_space s) number) same (span_number-IsSplit (trim_space s)),
        named,
        behind,
        parsed,
        positive,
      )

module _ {Number : Type 0} (parse_float : Bytes → Option Number) (is_positive : Number → Bool)
    (coins_parse : Bytes → Bool) (http_client : Bytes → Bool) where
  signer_wanted_lem :
      (key : KeyConfig) (replies : KeyReplies) (o : Option Signer)
      → signer_wanted parse_float is_positive coins_parse http_client key replies ≡ ok o
      → (o ≢ none) ↔ (wants_key parse_float is_positive coins_parse http_client key replies ≡ true)
  unfolding signer_wanted
  signer_wanted_lem key replies o e =
      elim (Bool-cases (wants_key parse_float is_positive coins_parse http_client key replies)) [
        | inr unwanted ↦
            let same : signer_wanted parse_float is_positive coins_parse http_client key replies
                ≡ ok none =
              rw (signer_wanted, unwanted) refl in
            ((λ some_signer. absurd (some_signer cc)), λ wanted. absurd cc)
        | inl wanted ↦
            let same : signer_wanted parse_float is_positive coins_parse http_client key replies
                ≡ (open_key key replies >>= λ s. ok (some s)) =
              rw (signer_wanted, wanted) refl in
            let (s, _, made) = bind_ok (open_key key replies) (λ s. ok (some s)) o (sym same ∙ e) in
            let is_some : some s ≡ o = cc in ((λ _. wanted), λ _. subst (λ v. v ≢ none) is_some cc)
      ]

  -- A client that was made has a signer exactly when its configuration or the environment names a key.
  new_client-signs :
      (remote : Bytes) (timeout : ℤ) (gas : GasConfig) (key : KeyConfig) (replies : KeyReplies)
      (c : Client Number)
      → new_client parse_float is_positive coins_parse http_client remote timeout gas key replies
        ≡ ok c
      → (c.signer ≢ none)
        ↔ (wants_key parse_float is_positive coins_parse http_client key replies ≡ true)
  unfolding new_client client_of
  new_client-signs remote timeout gas key replies c e =
      let made : Number × Bytes → Option Signer → Client Number =
        client_of parse_float is_positive coins_parse http_client remote timeout gas in
      let signed : Number × Bytes → Result ClientError (Client Number) = λ p.
        signer_wanted parse_float is_positive coins_parse http_client key replies >>= λ signer.
        ok (made p signer) in
      let priced : Number × Bytes → Result ClientError (Client Number) =
        λ p. ensure (coins_parse (defaults gas).max_deposit) bad_max_deposit >> signed p in
      let rest : Result ClientError (Client Number) =
        parse_gas_price parse_float is_positive (defaults gas).price >>= priced in
      let connected : Result ClientError (Client Number) =
        ensure (http_client remote) no_http >> rest in
      let (_, e1) = then_ok (ensure (not (is_empty remote)) no_remote) connected c e in
      let (_, e2) = then_ok (ensure (http_client remote) no_http) rest c e1 in
      let (p, _, e3) =
        bind_ok (parse_gas_price parse_float is_positive (defaults gas).price) priced c e2 in
      let (_, e4) =
        then_ok (ensure (coins_parse (defaults gas).max_deposit) bad_max_deposit) (signed p) c e3 in
      let (signer, wanted, e5) =
        bind_ok (signer_wanted parse_float is_positive coins_parse http_client key replies)
          (λ signer. ok (made p signer)) c e4 in
      let unwrap : made p signer ≡ c = cc in
      let same : signer ≡ c.signer = ap (λ c. c.signer) unwrap in
      subst
        (λ o.
          (o ≢ none)
          ↔ (wants_key parse_float is_positive coins_parse http_client key replies ≡ true))
        same (signer_wanted_lem key replies signer wanted)
