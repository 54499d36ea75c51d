-- ===== src/Agent/Adapters.antt =====
-- agent/adapters.go: from a source's answer to its sample. Sending a request, running a process,
-- reading a file and decoding JSON are parameters: an answer is what came of them.
pub mod Path
pub mod Redact
use gnoracle.Base.{
  ℕ, ltb, ◌+◌, ◌*◌, ◌/◌, ℤ, pos, abs, ltb_ℤ, leb_ℤ, eqb_ℤ, Bool, true, false, ◌&&◌, ◌||◌, not, List,
  [], ◌∷◌, ◌++◌, ◌*ℤ◌, Option, none, some, if◌then◌else◌, length, take, ◌==◌,
}
use gnoracle.Base.Result.{Result, ok, err}
use gnoracle.Base.Text.{Bytes, codes, bytes_eq, is_empty, trim_space, has_prefix, ellipsis}
use gnoracle.Base.Text.Decimal.{format_uint, parse_int}
use gnoracle.Gnochain.Results.{decode_results}
use gnoracle.Agent.Aggregate.{Rat, Sample, finish, parse_number_or_label}
use gnoracle.Agent.Config.{SourceConfig}
use gnoracle.Agent.Scale.{pow10}
use Path.{Json, extract}
use Redact.{redact_url}

abbrev pub raw_limit : ℕ
raw_limit = 800

unfoldable pub clip : Bytes → Bytes
unfolding take
clip b = if ltb raw_limit (length b) then take raw_limit b ++ ellipsis else b

-- The configured floor, else all of one URL or a majority.
unfoldable pub min_sources : SourceConfig → ℤ
min_sources cfg =
    if ltb_ℤ (pos 0) cfg.min_sources then cfg.min_sources else pos (length cfg.urls / 2 + 1)

abbrev pub blank_sample : Bytes → Sample
blank_sample source = record {
  source = source;
  raw = [];
  num = none;
  value = [];
  label = [];
  failure = [];
}

-- What came of a request: an error, or a status with its text and the body.
pub data HttpAnswer : Type 0 where
  unanswered : Bytes → HttpAnswer
  answered : ℕ → Bytes → Bytes → HttpAnswer

-- What came of a process: its error, if any, and what it printed on both streams.
pub record ExecAnswer : Type 0 where
  pub failure : Option Bytes
  pub stdout : Bytes
  pub stderr : Bytes

abbrev times : Rat → Rat → Rat
times a b = record { num = a.num *ℤ b.num; den = a.den * b.den }

module _ (float_string : Rat → Bytes) (rat_of_text : Bytes → Option Rat) where
  abbrev pub read_text : Sample → Bytes → Sample
  read_text s text = parse_number_or_label float_string rat_of_text s text

  -- The sample with its number on the scale of the source.
  scaled : Option Rat → Sample → Sample
  scaled scale s = elim s.num [
    | none ↦ s
    | some n ↦ elim scale [
      | none ↦ s
      | some k ↦ finish float_string rat_of_text (record s { num = some (times n k) })
    ]
  ]

  module _ (decode : Bytes → Result Bytes Json) where
    unfoldable pub http_one : SourceConfig → Option Rat → Bytes → HttpAnswer → Sample
    unfolding clip redact_url scaled
    http_one cfg scale url (unanswered e) = record (blank_sample (redact_url url)) { failure = e }
    http_one cfg scale url (answered code status body) =
        let s = record (blank_sample (redact_url url)) { raw = clip body } in
        if not (code / 100 == 2)
        then record s { failure = codes "http " ++ status }
        else elim (extract decode body cfg.path) [
          | err e ↦ record s { failure = e }
          | ok leaf ↦ scaled scale (read_text s leaf)
        ]

  -- The text of a process or a file, trimmed.
  unfoldable pub read_trimmed : Sample → Bytes → Bytes → Sample
  unfolding trim_space
  read_trimmed s empty out =
      let text = trim_space out in
      if is_empty text then record s { failure = empty } else read_text s text

  joined : List Bytes → Bytes
  joined [] = []
  joined (w ∷ []) = w
  joined (w ∷ v ∷ words) = w ++ b' ' ∷ joined (v ∷ words)

  unfoldable pub exec_fetch : SourceConfig → ExecAnswer → List Sample
  unfolding clip read_trimmed joined
  exec_fetch cfg answer =
      let s = record (blank_sample (joined cfg.command)) {
        raw = clip (answer.stdout ++ answer.stderr);
      } in
      elim answer.failure [
        | some e ↦ record s { failure = e } ∷ []
        | none ↦ read_trimmed s (codes "command printed nothing") answer.stdout ∷ []
      ]

  unfoldable pub file_fetch : SourceConfig → Result Bytes Bytes → List Sample
  unfolding clip read_trimmed
  file_fetch cfg (err e) =
      record (blank_sample cfg.file) { failure = codes "no answer yet: " ++ e } ∷ []
  file_fetch cfg (ok b) =
      read_trimmed (record (blank_sample cfg.file) { raw = clip b })
        (codes "no answer yet: file is empty") b
      ∷ []

  -- A number divided by ten to the decimals of the result.
  unfoldable pub unscaled : ℤ → Rat → Rat
  unfolding pow10
  unscaled decimals n =
      if ltb_ℤ (pos 0) decimals then record n { den = n.den * pow10 decimals } else n

  module _ (unquote : Bytes → Option Bytes) where
    unfoldable pub qeval_value : SourceConfig → Sample → List Bytes → Sample
    unfolding unscaled
    qeval_value cfg s [] = record s { failure = codes "no result" }
    qeval_value cfg s (r ∷ rs) = elim (rat_of_text r) [
      | none ↦ finish float_string rat_of_text (record s { label = r })
      | some n ↦
          finish float_string rat_of_text (record s { num = some (unscaled cfg.result_decimals n) })
    ]

    unfoldable pub qeval_fetch : SourceConfig → Result Bytes Bytes → List Sample
    unfolding clip decode_results qeval_value
    qeval_fetch cfg (err e) =
        record (blank_sample (cfg.pkg_path ++ b'.' ∷ cfg.expr)) { failure = e } ∷ []
    qeval_fetch cfg (ok out) =
        qeval_value cfg (record (blank_sample (cfg.pkg_path ++ b'.' ∷ cfg.expr)) { raw = clip out })
          (decode_results unquote out)
        ∷ []

-- The error that OracleConsult returned, if any: its third result, unless it is a nil.
unfoldable pub consult_error : List Bytes → Option Bytes
unfolding bytes_eq has_prefix
consult_error (tick ∷ liquidity ∷ e ∷ rest) =
    if bytes_eq e (codes "nil") || bytes_eq e (codes "undefined") || has_prefix e (codes "nil ")
    then none
    else some e
consult_error _ = none

module _ (float_string : Rat → Bytes) (rat_of_text : Bytes → Option Rat)
    (unquote : Bytes → Option Bytes) (quote : Bytes → Bytes)
    (tick_to_price : ℤ → ℤ → ℤ → Bool → Rat) where
  abbrev pub pool_of : SourceConfig → Bytes
  pool_of cfg = if is_empty cfg.pkg_path then codes "gno.land/r/gnoswap/pool" else cfg.pkg_path

  unfoldable pub consult : SourceConfig → Bytes
  unfolding format_uint
  consult cfg =
      codes "OracleConsult("
      ++ (quote cfg.pool
          ++ (codes ", "
              ++ (format_uint (if cfg.seconds_ago == 0 then 1800 else cfg.seconds_ago)
                  ++ codes ")")))

  unfoldable pub tick_sample : SourceConfig → Sample → List Bytes → Sample
  unfolding parse_int
  tick_sample cfg s [] = record s { failure = codes "no result" }
  tick_sample cfg s (r ∷ rs) = elim (parse_int r) [
    | none ↦ record s { failure = codes "tick" }
    | some tick ↦
        finish float_string rat_of_text
          (record s { num = some (tick_to_price tick cfg.decimals0 cfg.decimals1 cfg.invert) })
  ]

  unfoldable pub gnoswap_sample : SourceConfig → Sample → List Bytes → Sample
  unfolding consult_error tick_sample
  gnoswap_sample cfg s results = elim (consult_error results) [
    | some e ↦ record s { failure = codes "OracleConsult returned an error: " ++ e }
    | none ↦ tick_sample cfg s results
  ]

  unfoldable pub gnoswap_fetch : SourceConfig → Result Bytes Bytes → List Sample
  unfolding consult clip decode_results gnoswap_sample
  gnoswap_fetch cfg answer =
      let s = blank_sample (pool_of cfg ++ b'.' ∷ consult cfg) in
      elim answer [
        | err e ↦ record s { failure = e } ∷ []
        | ok out ↦
            gnoswap_sample cfg (record s { raw = clip out }) (decode_results unquote out) ∷ []
      ]
