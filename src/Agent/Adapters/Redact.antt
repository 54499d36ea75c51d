-- ===== src/Agent/Adapters/Redact.antt =====
-- agent/adapters.go, redactURL: what the name of a source keeps of its URL.
use gnoracle.Base.{
  ltb, ◌<◌, [], ◌∷◌, ◌++◌, none, some, if◌then◌else◌, length, length-append, ◌≡◌, ◌∙◌, sym, arith,
  refl, ap,
}
use gnoracle.Base.Text.{Bytes, codes, ellipsis, cut_first, before_first, has_prefix}
use gnoracle.Base.Text.Search.{Lacks, cut_first_append}

without_query : Bytes → Bytes
unfolding cut_first
without_query raw = elim (cut_first b'?' raw) [
  | none ↦ raw
  | some (before, query) ↦ before ++ b'?' ∷ ellipsis
]

without_user : Bytes → Bytes
unfolding cut_first before_first
without_user raw = elim (cut_first b'@' raw) [
  | none ↦ raw
  | some (before, behind) ↦ elim (before_first (codes "://") raw) [
    | none ↦ raw
    | some scheme ↦
        if ltb (length scheme) (length before)
        then scheme ++ (codes "://" ++ (ellipsis ++ b'@' ∷ behind))
        else raw
  ]
]

unfoldable pub redact_url : Bytes → Bytes
unfolding without_query without_user
redact_url raw = without_user (without_query raw)

colon_first :
    (s t : Bytes) → Lacks b':' s → before_first (codes "://") (s ++ (codes "://" ++ t)) ≡ some s
unfolding before_first has_prefix
colon_first [] t h = ground arith
colon_first (c ∷ s) t (n, h) = ground (arith, colon_first s t h)

without_query_append :
    (s query : Bytes) → Lacks b'?' s → without_query (s ++ b'?' ∷ query) ≡ s ++ b'?' ∷ ellipsis
unfolding without_query
without_query_append s query h = rw (without_query, cut_first_append b'?' s query h) refl

-- A text in front of a bar, put together again.
regrouped : (s t u : Bytes) → s ++ (t ++ u) ≡ (s ++ t) ++ u
regrouped [] t u = refl
regrouped (c ∷ s) t u = ap (◌∷◌ c) (regrouped s t u)

without_user_append :
    (scheme user rest : Bytes)
    → Lacks b':' scheme
    → Lacks b'@' (scheme ++ (codes "://" ++ user))
    → without_user (scheme ++ (codes "://" ++ (user ++ b'@' ∷ rest)))
      ≡ scheme ++ (codes "://" ++ (ellipsis ++ b'@' ∷ rest))
unfolding without_user
without_user_append scheme user rest colon at =
    let before = scheme ++ (codes "://" ++ user) in
    let url = scheme ++ (codes "://" ++ (user ++ b'@' ∷ rest)) in
    let whole : url ≡ before ++ b'@' ∷ rest =
      regrouped scheme (codes "://" ++ user) (b'@' ∷ rest) in
    let cut : cut_first b'@' url ≡ some (before, rest) =
      ap (cut_first b'@') whole ∙ cut_first_append b'@' before rest at in
    let found = colon_first scheme (user ++ b'@' ∷ rest) colon in
    let behind : length scheme < length before =
      omega (arith, length-append scheme (codes "://" ++ user)) in
    ground (arith, cut, found, behind)

-- Of a URL `scheme://user@rest?query` the redaction keeps the scheme and the rest, and puts an
-- ellipsis for the user and for the query, when the scheme has no colon, no `@` stands before the one
-- behind the user, and no `?` before the one of the query.
pub redact_url_lem :
    (scheme user rest query : Bytes)
    → Lacks b':' scheme
    → Lacks b'@' (scheme ++ (codes "://" ++ user))
    → Lacks b'?' (scheme ++ (codes "://" ++ (user ++ b'@' ∷ rest)))
    → redact_url ((scheme ++ (codes "://" ++ (user ++ b'@' ∷ rest))) ++ b'?' ∷ query)
      ≡ scheme ++ (codes "://" ++ (ellipsis ++ b'@' ∷ (rest ++ b'?' ∷ ellipsis)))
unfolding redact_url
redact_url_lem scheme user rest query colon at mark =
    let url = scheme ++ (codes "://" ++ (user ++ b'@' ∷ rest)) in
    let tail = b'?' ∷ ellipsis in
    let short : without_query (url ++ b'?' ∷ query) ≡ url ++ tail =
      without_query_append url query mark in
    let parts : url ++ tail ≡ scheme ++ (codes "://" ++ (user ++ b'@' ∷ (rest ++ tail))) =
      sym (regrouped scheme (codes "://" ++ (user ++ b'@' ∷ rest)) tail)
      ∙ ap (λ u. scheme ++ (codes "://" ++ u)) (sym (regrouped user (b'@' ∷ rest) tail)) in
    ap without_user (short ∙ parts) ∙ without_user_append scheme user (rest ++ tail) colon at
