-- ===== src/Errors/EngineIdText.antt =====
-- The texts of `EngineIdParseError` of src/engine.rs.
use snmptrap_rs.Prelude.{◌∷◌, [], ◌++◌}
use snmptrap_rs.Text.{Str, codes}
use snmptrap_rs.Text.Number.{print}
use snmptrap_rs.Errors.{EngineIdParseError, empty, too_short, odd_length, bad_hex, too_long}
use snmptrap_rs.Errors.DetailText.{quoted}

-- `Display` of `EngineIdParseError`
abbrev pub engine_id_text : EngineIdParseError → Str
engine_id_text empty = codes "engine-ID is empty"
engine_id_text (too_short got least) =
    codes "engine-ID is "
    ++ (print got ++ (codes " octets long, RFC 3411 §5 requires at least " ++ print least))
engine_id_text (odd_length got) =
    codes "engine-ID hex string has odd length (" ++ (print got ++ codes " chars)")
engine_id_text (bad_hex c) = codes "engine-ID contains non-hex character " ++ quoted (c ∷ [])
engine_id_text (too_long got most) =
    codes "engine-ID is " ++ (print got ++ (codes " octets long, max is " ++ print most))
