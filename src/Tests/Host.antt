-- ===== src/Tests/Host.antt =====
-- The theorems on what is read of the host: src/helpers.rs, the interfaces of src/engine.rs, the agent
-- of src/cli.rs; and on the text of src/debug.rs; at concrete inputs.
use mathlib.Core.List.{Permᴰ}
use snmptrap_rs.Prelude.{
  ℕ, ◌-◌, ◌*◌, ◌/◌, min, ◌≡◌, refl, List, [], ◌∷◌, Option, some, Outcome, ok, err, Bytes, arith,
}
use snmptrap_rs.Text.{Str, codes}
use snmptrap_rs.Text.Number.{max_u32}
use snmptrap_rs.Helpers.{TimeVal, macos_clocks, host_uptime_centiseconds}
use snmptrap_rs.Helpers.Laws.{micros, host_uptime_centiseconds-macos}
use snmptrap_rs.Engine.Mac.{host_mac}
use snmptrap_rs.Engine.Mac.Stable.{host_mac-Perm}
use snmptrap_rs.Engine.Mac.Chosen.{Chosen}
use snmptrap_rs.Varbind.Hex.{parse_hex_string}
use snmptrap_rs.Debug.{write_hex_dump}
use snmptrap_rs.Debug.RoundTrip.{read_dump, parse_hex_string-read_dump}

-- Every interface has the same address.
abbrev same_address : Str → Option Str
same_address name = some (codes "02:00:00:00:00:01")

abbrev interfaces : List Str
interfaces = codes "eth1" ∷ codes "wlan0" ∷ codes "lo" ∷ []

abbrev listed_otherwise : List Str
listed_otherwise = codes "wlan0" ∷ codes "eth1" ∷ codes "lo" ∷ []

host_mac-Perm_example :
    host_mac same_address (some interfaces) ≡ host_mac same_address (some listed_otherwise)
host_mac-Perm_example = host_mac-Perm same_address ∣ Permᴰ.swap refl refl ∣₁

abbrev first_address : Bytes
first_address = 2 ∷ 0 ∷ 0 ∷ 0 ∷ 0 ∷ 1 ∷ []

parse_hex_string-read_dump_example :
    parse_hex_string (read_dump (write_hex_dump (48 ∷ 5 ∷ 104 ∷ []))) ≡ ok (48 ∷ 5 ∷ 104 ∷ [])
parse_hex_string-read_dump_example =
    parse_hex_string-read_dump (48 ∷ 5 ∷ 104 ∷ []) (omega arith) (omega arith)

-- A minute and a hundredth of a second, with a borrow of the microseconds.
abbrev boot : TimeVal
boot = record { tv_sec = 100; tv_usec = 995000 }

abbrev now : TimeVal
now = record { tv_sec = 161; tv_usec = 5000 }

-- A parser of whole seconds, one digit long.
abbrev digit_seconds : Str → Outcome Str ℕ
digit_seconds [] = err []
digit_seconds (c ∷ s) = ok (c - b'0')

host_uptime_centiseconds-macos_example :
    host_uptime_centiseconds digit_seconds (λ n. n * 100) (macos_clocks (ok boot) (ok now))
    ≡ ok (min ((micros now - micros boot) / 10000) max_u32)
host_uptime_centiseconds-macos_example =
    host_uptime_centiseconds-macos digit_seconds (λ n. n * 100) boot now (omega arith) (omega arith)
