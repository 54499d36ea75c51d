-- ===== src/Gnochain/Views/Readers/Paths.antt =====
-- internal/gnochain/views.go: the paths of the machine views.
use gnoracle.Base.{inl, ℕ, ◌<◌, ◌++◌, ◌≡◌, arith, ++-cancel}
use gnoracle.Base.Int64.{two64}
use gnoracle.Base.Text.{codes}
use gnoracle.Base.Text.Search.{split_eq}
use gnoracle.Base.Text.Decimal.{format_uint, format_uint-Lacks, format_uint-injective}
use gnoracle.Gnochain.Views.Readers.{round_path}

-- Two rounds of 64 bits, or of two feeds, are never read under one path.
round_path-inj :
    (f r f' r' : ℕ)
    → f < two64
    → r < two64
    → f' < two64
    → r' < two64
    → round_path f r ≡ round_path f' r'
    → (f ≡ f') × (r ≡ r')
unfolding round_path
round_path-inj f r f' r' hf hr hf' hr' e =
    let rest = codes "round/" ++ format_uint r in
    let rest' = codes "round/" ++ format_uint r' in
    let digits = format_uint-Lacks b'/' f (inl (omega arith)) in
    let digits' = format_uint-Lacks b'/' f' (inl (omega arith)) in
    let (same, behind) =
      split_eq b'/' (format_uint f) (format_uint f') rest rest' digits digits'
        (++-cancel (codes "feed/") e) in
    (
      format_uint-injective f f' hf hf' same,
      format_uint-injective r r' hr hr' (++-cancel (codes "round/") behind),
    )
