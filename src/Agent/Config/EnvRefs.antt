-- ===== src/Agent/Config/EnvRefs.antt =====
-- agent/config.go, envRefs: the variables that a header value names. The two nested loops over the
-- index are one pass over the bytes with a mode.
use gnoracle.Base.{
  ℕ, ◌==◌, leb, Bool, true, ◌&&◌, ◌||◌, List, [], ◌∷◌, ◌++◌, ◌≡◌, ◌≢◌, refl, ap, ◌∙◌, arith,
  if◌then◌else◌, All,
}
use mathlib.Core.List.{append-nil, append_assoc}
use gnoracle.Base.Text.{Bytes}

unfoldable pub is_name_char : ℕ → Bool
is_name_char c =
    c == b'_'
    || ((leb b'A' c && leb c b'Z') || ((leb b'a' c && leb c b'z') || (leb b'0' c && leb c b'9')))

-- Where the pass is: outside a reference, behind a dollar, or behind a name's first bytes.
pub data Mode : Type 0 where
  outside dollar : Mode
  naming : Bytes → Mode

unfoldable pub advance : Mode → ℕ → Mode
unfolding is_name_char
advance outside c = if c == b'$' then dollar else outside
advance dollar c =
    if c == b'{' then naming [] else if is_name_char c then naming (c ∷ []) else outside
advance (naming name) c = if is_name_char c then naming (name ++ c ∷ []) else outside

-- The name that a byte ends: the byte itself is passed over.
unfoldable pub ended : Mode → ℕ → List Bytes
unfolding is_name_char
ended outside c = []
ended dollar c = []
ended (naming []) c = []
ended (naming (b ∷ name)) c = if is_name_char c then [] else (b ∷ name) ∷ []

unfoldable pub refs_from : Mode → Bytes → List Bytes
unfolding advance ended
refs_from outside [] = []
refs_from dollar [] = []
refs_from (naming []) [] = []
refs_from (naming (b ∷ name)) [] = (b ∷ name) ∷ []
refs_from mode (c ∷ v) = ended mode c ++ refs_from (advance mode c) v

unfoldable pub env_refs : Bytes → List Bytes
unfolding refs_from
env_refs = refs_from outside

abbrev pub IsName : Bytes → Type 0
IsName = All (λ c. is_name_char c ≡ true)

refs_naming :
    (b : ℕ) (name a rest : Bytes)
    → IsName a
    → refs_from (naming (b ∷ name)) (a ++ rest) ≡ refs_from (naming (b ∷ (name ++ a))) rest
unfolding refs_from
refs_naming b name [] rest _ = rw append-nil
refs_naming b name (c ∷ a) rest (h, hs) =
    ground (arith, refs_naming b (name ++ c ∷ []) a rest hs, append_assoc name (c ∷ []) a)

refs_named :
    (a rest : Bytes) (b : ℕ)
    → is_name_char b ≡ true
    → IsName a
    → env_refs (b'$' ∷ b ∷ (a ++ rest)) ≡ refs_from (naming (b ∷ a)) rest
unfolding env_refs
refs_named a rest b h hs = ground (arith, refs_naming b [] a rest hs)

-- Text without a dollar names nothing.
refs_plain : (v : Bytes) → All (λ c. c ≢ b'$') v → refs_from outside v ≡ []
unfolding refs_from
refs_plain [] _ = refl
refs_plain (c ∷ v) (h, hs) = ground (arith, refs_plain v hs)

name_plain : (v : Bytes) → IsName v → All (λ c. c ≢ b'$') v
unfolding is_name_char
name_plain [] _ = tt
name_plain (c ∷ v) (h, hs) = (ground arith, name_plain v hs)

-- Of two plain references with nothing between them only the first is listed: the byte that ends a
-- name is passed over, and here it is the dollar of the second.
pub env_refs_adjacent :
    (b : ℕ) (a : Bytes) (d : ℕ) (e : Bytes)
    → IsName (b ∷ a)
    → IsName (d ∷ e)
    → env_refs (b'$' ∷ b ∷ (a ++ b'$' ∷ d ∷ e)) ≡ (b ∷ a) ∷ []
unfolding refs_from
env_refs_adjacent b a d e (h, hs) (h', hs') =
    refs_named a (b'$' ∷ d ∷ e) b h hs
    ∙ ap (λ rest. (b ∷ a) ∷ rest) (refs_plain (d ∷ e) (name_plain (d ∷ e) (h', hs')))
