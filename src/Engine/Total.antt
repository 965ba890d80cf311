-- ===== src/Engine/Total.antt =====
-- Panics in `parse_user_input` of src/engine.rs.
use snmptrap_rs.Prelude.{ℕ, [], ◌∷◌, Bytes}
use snmptrap_rs.Prelude.Calm.{Calm, calm_rules, Calm-ok, Calm->>=}
use snmptrap_rs.Text.{Str}
use snmptrap_rs.Engine.Parse.{decode_hex_nibble, decode_pairs, decode_id, parse_user_input}

decode_hex_nibble-Calm : (b : ℕ) → Calm (decode_hex_nibble b)
unfolding decode_hex_nibble
decode_hex_nibble-Calm b = search calm_rules

decode_pairs-Calm : (bs : Bytes) → Calm (decode_pairs bs)
unfolding decode_pairs
decode_pairs-Calm [] = Calm-ok []
decode_pairs-Calm (a ∷ []) = Calm-ok []
decode_pairs-Calm (a ∷ b ∷ bs) =
    let rest = decode_pairs-Calm bs in
    Calm->>= _ _ (decode_hex_nibble-Calm a)
      (λ hi. Calm->>= _ _ (decode_hex_nibble-Calm b) (λ lo. Calm->>= _ _ rest (λ bytes. Calm-ok _)))

decode_id-Calm : (s : Str) → Calm (decode_id s)
unfolding decode_id
decode_id-Calm s = search (calm_rules, decode_pairs-Calm) depth 16

pub parse_user_input-Calm : (s : Str) → Calm (parse_user_input s)
unfolding parse_user_input
parse_user_input-Calm s = decode_id-Calm _
