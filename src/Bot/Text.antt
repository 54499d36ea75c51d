-- ===== src/Bot/Text.antt =====
-- bot/bot.go and bot/reminders.go: the texts of messages. The print of a date is a parameter.
use gnoracle.Base.{
  ℤ, pos, ltb_ℤ, leb_ℤ, not, ltb, [], ◌∷◌, ◌++◌, if◌then◌else◌, length, take, drop, ◌==◌,
}
use gnoracle.Base.Int64.{add64, sub64, mul64, div64}
use gnoracle.Base.Text.{Bytes, codes, is_empty, has_prefix, trim_right, ellipsis}
use gnoracle.Base.Text.Decimal.{format_int}
use gnoracle.Agent.Config.{second}
use gnoracle.Agent.Scale.{pad_zeros}
use gnoracle.Bot.Config.{Config, MemberConfig}

trim_prefix : Bytes → Bytes → Bytes
unfolding has_prefix drop
trim_prefix s prefix = if has_prefix s prefix then drop (length prefix) s else s

-- A gnoweb URL for a realm render path.
unfoldable pub link : Config → Bytes → Bytes → Bytes
unfolding trim_right trim_prefix
link c pkg_path render =
    let base = trim_right (λ b. b == b'/') c.gnoweb ++ trim_prefix pkg_path (codes "gno.land") in
    if is_empty c.gnoweb then [] else if is_empty render then base else base ++ b':' ∷ render

abbrev pub hour : ℤ
hour = pos 3600000000000

abbrev pub minute : ℤ
minute = pos 60000000000

abbrev rest_of : ℤ → ℤ → ℤ
rest_of d m = sub64 d (mul64 (div64 d m) m)

-- `Duration.Round` to the minute, of a duration that is not negative: half a minute goes up.
round_minute : ℤ → ℤ
unfolding sub64 mul64 div64 add64
round_minute d =
    let r = rest_of d minute in
    let up = sub64 (add64 d minute) r in
    if ltb_ℤ (add64 r r) minute
    then sub64 d r
    else if ltb_ℤ d up
    then up
    else pos 9223372036854775807

unfoldable pub short : ℤ → Bytes
unfolding round_minute format_int pad_zeros sub64 mul64 div64
short d' =
    let d = round_minute d' in
    let h = div64 d hour in
    let m = div64 (rest_of d hour) minute in
    if leb_ℤ (pos 48) h
    then format_int (div64 h (pos 24))
      ++ (codes "d " ++ (format_int (rest_of h (pos 24)) ++ codes "h"))
    else if ltb_ℤ (pos 0) h
    then format_int h ++ (codes "h " ++ (pad_zeros 2 m ++ codes "m"))
    else format_int m ++ codes "m"

-- An absolute time and the distance from now.
unfoldable pub when : (ℤ → Bytes) → ℤ → ℤ → Bytes
unfolding short sub64 mul64
when format_time unix now =
    let t = format_time unix in
    let d = mul64 (sub64 unix now) (pos second) in
    if ltb_ℤ (pos 0) d
    then t ++ (codes " (in " ++ (short d ++ codes ")"))
    else if ltb_ℤ d (pos 0)
    then t ++ (codes " (" ++ (short (sub64 (pos 0) d) ++ codes " ago)"))
    else t

unfoldable pub display_name : MemberConfig → Bytes
unfolding take
display_name m =
    if not (is_empty m.name)
    then m.name
    else if ltb 12 (length m.addr)
    then take 12 m.addr ++ ellipsis
    else m.addr
