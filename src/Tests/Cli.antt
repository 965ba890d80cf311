-- ===== src/Tests/Cli.antt =====
-- The theorems on src/cli.rs, at concrete command lines.
use snmptrap_rs.Prelude.{◌≡◌, refl, Bool, false, [], ◌∷◌, none, some, ok}
use snmptrap_rs.Text.{Str, codes}
use snmptrap_rs.Usm.Types.{sha256, aes128}
use snmptrap_rs.Cli.Types.{v2c, v3, auth_priv}
use snmptrap_rs.Cli.Args.{Cli, validate, with_level}
use snmptrap_rs.Cli.Laws.{Ready, Common, validate-Ready}

-- No text is an IPv6 address.
abbrev pub no_ipv6 : Str → Bool
no_ipv6 s = false

abbrev pub plain : Cli
plain = record {
  version = v2c;
  community = codes "public";
  retries = 0;
  timeout = 1;
  src_addr = some (codes "10.0.0.1");
  src_port = none;
  debug_print_pdu = false;
  security_level = none;
  user_name = none;
  auth_protocol = none;
  auth_password = none;
  priv_protocol = none;
  priv_password = none;
  context_engine_id = none;
  authoritative_engine_id = none;
  context_name = none;
  agent = codes "127.0.0.1";
  trap_args = codes "5" ∷ codes "1.3.6" ∷ [];
}

abbrev pub secured : Cli
secured = record plain {
  version = v3;
  community = [];
  security_level = some auth_priv;
  user_name = some (codes "admin");
  auth_protocol = some sha256;
  auth_password = some (codes "maplesyrup");
  priv_protocol = some aes128;
  priv_password = some (codes "maplesyrup");
}

secured_passes : validate no_ipv6 secured ≡ ok secured
unfolding validate snmptrap_rs.Cli.Args.validate_common snmptrap_rs.Text.Net.parse_ipv4
    snmptrap_rs.Cli.Args.validate_v3 snmptrap_rs.Text.as_bytes snmptrap_rs.Text.utf8
secured_passes = refl

validate-Ready_example : (secured ≡ with_level secured) × Ready secured × Common no_ipv6 secured
validate-Ready_example = validate-Ready no_ipv6 secured secured refl secured_passes
