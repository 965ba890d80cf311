-- ===== src/Errors/UsageText.antt =====
-- The texts of `Error::Usage`: those that src/cli.rs, src/usm.rs, src/lib.rs and
-- src/transport/unprivileged.rs put in.
use snmptrap_rs.Prelude.{ℕ, ◌∷◌, [], ◌++◌, Option, none, some}
use snmptrap_rs.Text.{Str, codes}
use snmptrap_rs.Text.Number.{print}
use snmptrap_rs.Varbind.RoundTrip.{print_i32}
use snmptrap_rs.Usm.Keys.{min_usm_password_len}
use snmptrap_rs.Usm.Names.{auth_name, priv_name}
use snmptrap_rs.Cli.Types.{
  SnmpVersion, v1, v2c, v3, SecurityLevel, no_auth_no_priv, auth_no_priv, auth_priv,
}
use snmptrap_rs.Errors.{
  Errno, ErrorKind, Flag, flag_l, flag_u, flag_a, flag_A, flag_x, flag_X, flag_e, flag_E, flag_n,
  Usage, unsupported_version, unknown_level, command_line, empty_community, zero_timeout,
  zero_src_port, src_addr_ipv6, src_addr_invalid, v3_flag, user_required, required, empty_password,
  short_password, agent_ipv6, agent_port, agent_no_ipv4, agent_unresolved, md5_rejected,
  des_rejected, tdes_rejected, unknown_auth, unknown_priv, password_floor, key_too_short,
  v1_arguments, v2c_arguments, v3_arguments, sys_uptime_repeated, trap_oid_repeated,
  bad_authoritative_id, bad_context_id, internal_auth, internal_priv, oid, bad_generic,
  bad_specific, bad_uptime, generic_range, specific_negative, bad_agent_addr, not_triplets,
  letter_empty, letter_long, letter_unknown, value_bad, port_privileged, port_in_use,
}
use snmptrap_rs.Errors.DetailText.{quoted, int_text, oid_error_text, detail_text, io_text}
use snmptrap_rs.Errors.EngineIdText.{engine_id_text}

-- The two spellings of a flag.
abbrev pub short_flag : Flag → Str
short_flag flag_l = codes "-l"
short_flag flag_u = codes "-u"
short_flag flag_a = codes "-a"
short_flag flag_A = codes "-A"
short_flag flag_x = codes "-x"
short_flag flag_X = codes "-X"
short_flag flag_e = codes "-e"
short_flag flag_E = codes "-E"
short_flag flag_n = codes "-n"

abbrev pub long_flag : Flag → Str
long_flag flag_l = codes "-l/--security-level"
long_flag flag_u = codes "-u/--user"
long_flag flag_a = codes "-a/--auth-protocol"
long_flag flag_A = codes "-A/--auth-password"
long_flag flag_x = codes "-x/--priv-protocol"
long_flag flag_X = codes "-X/--priv-password"
long_flag flag_e = codes "-e/--context-engine-id"
long_flag flag_E = codes "-E/--authoritative-engine-id"
long_flag flag_n = codes "-n/--context-name"

abbrev pub v_label : SnmpVersion → Str
v_label v1 = codes "-v 1"
v_label v2c = codes "-v 2c"
v_label v3 = []

abbrev pub level_name : SecurityLevel → Str
level_name no_auth_no_priv = codes "noAuthNoPriv"
level_name auth_no_priv = codes "authNoPriv"
level_name auth_priv = codes "authPriv"

abbrev pub port_ctx : Option ℕ → Str
port_ctx (some p) = codes "--src-port " ++ print p
port_ctx none = codes "kernel-ephemeral source port"

abbrev pub floor_text : ℕ → Str
floor_text got =
    codes " must be at least "
    ++ (print min_usm_password_len ++ (codes " characters (RFC 3414 §11.2); got " ++ print got))

module _ (system : Errno → ErrorKind → Str) where
  abbrev pub usage_text : Usage → Str
  usage_text (unsupported_version s) =
      codes "unsupported SNMP version " ++ (quoted s ++ codes "; supported: 1, 2c, 3")
  usage_text (unknown_level s) =
      codes "unknown security level "
      ++ (quoted s ++ codes "; supported: noAuthNoPriv, authNoPriv, authPriv")
  usage_text (command_line s) = s
  usage_text empty_community =
      codes "community string (-c) must be non-empty for SNMPv1 and SNMPv2c"
  usage_text zero_timeout = codes "--timeout must be > 0 (in seconds)"
  usage_text zero_src_port =
      codes "--src-port 0 is not allowed; on UDP it means 'kernel-selected ephemeral'. "
      ++ codes "Omit the flag to get an ephemeral port."
  usage_text src_addr_ipv6 =
      codes "--src-addr accepts IPv4 only; IPv6 source spoofing is not supported"
  usage_text (src_addr_invalid s) =
      codes "--src-addr must be a valid IPv4 literal, got " ++ quoted s
  usage_text (v3_flag flag v) =
      long_flag flag ++ (codes " is an SNMPv3 flag and is not valid with " ++ v_label v)
  usage_text user_required =
      codes "-u <USER> is required with -v 3 (USM identifies the sender by user name)"
  usage_text (required flag level) =
      short_flag flag ++ (codes " is required with -l " ++ level_name level)
  usage_text (empty_password flag) = short_flag flag ++ codes " must be a non-empty password"
  usage_text (short_password flag got) = short_flag flag ++ floor_text got
  usage_text (agent_ipv6 s) =
      codes "AGENT " ++ (quoted s ++ codes " looks like IPv6; only IPv4 destinations are supported")
  usage_text (agent_port s) = codes "invalid port in AGENT: " ++ s
  usage_text (agent_no_ipv4 s) =
      codes "AGENT " ++ (quoted s ++ codes " did not resolve to any IPv4 address")
  usage_text (agent_unresolved s e) =
      codes "could not resolve AGENT " ++ (quoted s ++ (codes ": " ++ io_text system e))
  usage_text md5_rejected =
      codes "HMAC-MD5 (RFC 3414 default) is not supported by this build; "
      ++ codes "use SHA, SHA-224, SHA-256, SHA-384, or SHA-512 (RFC 7860)."
  usage_text des_rejected =
      codes "DES-CBC (RFC 3414 default) is not supported by this build; "
      ++ codes "use AES, AES-192, or AES-256."
  usage_text tdes_rejected = codes "3DES-CBC is not supported by this build; use AES-256."
  usage_text (unknown_auth s) =
      codes "unknown auth protocol "
      ++ (quoted s ++ codes "; supported: SHA, SHA-224, SHA-256, SHA-384, SHA-512")
  usage_text (unknown_priv s) =
      codes "unknown priv protocol " ++ (quoted s ++ codes "; supported: AES, AES-192, AES-256")
  usage_text (password_floor got) = codes "USM password" ++ floor_text got
  usage_text (key_too_short a p got need) =
      codes "auth protocol "
      ++ (auth_name a
          ++ (codes " produces a "
              ++ (print got
                  ++ (codes "-byte localized key, but priv protocol "
                      ++ (priv_name p
                          ++ (codes " requires "
                              ++ (print need
                                  ++ (codes " bytes. Use SHA-224 or higher with AES-192, or "
                                      ++ codes "SHA-256 or higher with AES-256."))))))))
  usage_text v1_arguments =
      codes "v1 trap requires: <ENTERPRISE-OID> <AGENT-ADDR> <GENERIC> <SPECIFIC> <UPTIME> "
      ++ codes "[OID TYPE VALUE]..."
  usage_text v2c_arguments =
      codes "v2c trap requires at minimum: <UPTIME> <TRAP-OID> [OID TYPE VALUE]..."
  usage_text v3_arguments =
      codes "v3 trap requires at minimum: <UPTIME> <TRAP-OID> [OID TYPE VALUE]..."
  usage_text sys_uptime_repeated =
      codes "sysUpTime.0 (1.3.6.1.2.1.1.3.0) is auto-prepended; do not pass it as a trailing "
      ++ codes "varbind. Use the <UPTIME> positional (or '' to substitute host uptime)."
  usage_text trap_oid_repeated =
      codes "snmpTrapOID.0 (1.3.6.1.6.3.1.1.4.1.0) is auto-prepended; do not pass it as a "
      ++ codes "trailing varbind. Use the <TRAP-OID> positional."
  usage_text (bad_authoritative_id e) = codes "--authoritative-engine-id (-E): " ++ engine_id_text e
  usage_text (bad_context_id e) = codes "--context-engine-id (-e): " ++ engine_id_text e
  usage_text internal_auth = codes "internal: -a auth protocol expected after validation"
  usage_text internal_priv = codes "internal: -x priv protocol expected after validation"
  usage_text (oid e) = oid_error_text e
  usage_text (bad_generic s e) =
      codes "invalid generic-trap " ++ (quoted s ++ (codes ": " ++ int_text e))
  usage_text (bad_specific s e) =
      codes "invalid specific-trap " ++ (quoted s ++ (codes ": " ++ int_text e))
  usage_text (bad_uptime s e) = codes "invalid uptime " ++ (quoted s ++ (codes ": " ++ int_text e))
  usage_text (generic_range z) = codes "generic-trap must be 0..=6, got " ++ print_i32 z
  usage_text (specific_negative z) =
      codes "specific-trap must be non-negative (RFC 1157), got " ++ print_i32 z
  usage_text (bad_agent_addr s) =
      codes "v1 agent-addr positional must be a dotted-quad IPv4 (or empty), got " ++ quoted s
  usage_text (not_triplets n) =
      codes "trailing var-binds must come in OID TYPE VALUE triplets; got "
      ++ (print n ++ codes " extra args")
  usage_text (letter_empty name) =
      codes "type letter for OID " ++ (quoted name ++ codes " is empty")
  usage_text (letter_long name s) =
      codes "type letter for OID "
      ++ (quoted name ++ (codes " must be a single character, got " ++ quoted s))
  usage_text (letter_unknown c name) =
      codes "unknown type letter " ++ (quoted (c ∷ []) ++ (codes " after OID " ++ quoted name))
  usage_text (value_bad c name d) =
      codes "bad value for type "
      ++ (quoted (c ∷ []) ++ (codes " (OID " ++ (quoted name ++ (codes "): " ++ detail_text d))))
  usage_text (port_privileged p e) =
      port_ctx p
      ++ (codes " requires root or CAP_NET_BIND_SERVICE (port < 1024); bind failed: "
          ++ io_text system e)
  usage_text (port_in_use p e) =
      port_ctx p
      ++ (codes " is already in use by another process; bind failed: " ++ io_text system e)
