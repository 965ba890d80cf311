-- ===== src/Tests/Engine.antt =====
-- The theorems on src/engine.rs, at concrete inputs.
use snmptrap_rs.Prelude.{◌≡◌, refl, [], ◌∷◌, ok}
use snmptrap_rs.Text.{codes, str_len}
use snmptrap_rs.Text.Hex.{hex_text}
use snmptrap_rs.Engine.Id.{EngineId, IsEngineId}
use snmptrap_rs.Engine.Parse.{parse_user_input}
use snmptrap_rs.Engine.Parse.Laws.{parse_user_input-IsEngineId}
use snmptrap_rs.Engine.Parse.RoundTrip.{parse_user_input-hex_text}

abbrev engine : EngineId
engine = record { bytes = 128 ∷ 0 ∷ 31 ∷ 136 ∷ 1 ∷ [] }

read : parse_user_input (codes "0x80:00:1F:88:01") ≡ ok engine
unfolding parse_user_input snmptrap_rs.Text.is_ascii_whitespace snmptrap_rs.Text.as_bytes
    snmptrap_rs.Text.utf8
read = refl

engine-IsEngineId : IsEngineId engine
engine-IsEngineId = parse_user_input-IsEngineId (codes "0x80:00:1F:88:01") engine read

parse_user_input-hex_text_example : parse_user_input (hex_text 1 engine.bytes) ≡ ok engine
parse_user_input-hex_text_example = parse_user_input-hex_text 1 engine engine-IsEngineId
