-- ===== src/Errors/Display.antt =====
-- `Display` and `report_to_stderr` of src/error.rs. The texts of the system's own errors are a
-- parameter.
use snmptrap_rs.Prelude.{ℕ, ◌+◌, ◌∷◌, [], ◌++◌}
use snmptrap_rs.Text.{Str, codes}
use snmptrap_rs.Text.Number.{print}
use snmptrap_rs.Errors.{
  Errno, ErrorKind, Platform, linux, macos, other, Error, usage, raw_socket_denied, unsupported,
  payload_exceeds_mtu, routing, encode, other_io,
}
use snmptrap_rs.Errors.DetailText.{io_text, encode_text}
use snmptrap_rs.Errors.UsageText.{usage_text}

-- `writeln!`
abbrev pub line : Str → Str
line s = s ++ (b'\n' ∷ [])

-- How to get the capability, for each platform.
abbrev pub remediation : Platform → Str
remediation linux =
    line []
    ++ (line (codes "On Linux, grant it once with:")
        ++ (line []
            ++ (line (codes "    sudo setcap cap_net_raw+ep \"$(command -v snmptrap-rs)\"")
                ++ (line [] ++ line (codes "Or run as root.")))))
remediation macos =
    line []
    ++ line (codes "On macOS, run as root (sudo). macOS has no per-binary capability grant.")
remediation other = line [] ++ line (codes "On this platform, run as root.")

-- The length of the packet around a payload.
abbrev pub wire_total : ℕ → ℕ
wire_total payload_len = payload_len + 20 + 8

abbrev pub mtu_text : ℕ → Str
mtu_text n =
    line (
      codes "SNMP payload is "
      ++ (print n
          ++ (codes " bytes ("
              ++ (print (wire_total n)
                  ++ codes
                      " bytes on the wire after IP+UDP headers) and exceeds the egress interface path MTU."))))
    ++ (line []
        ++ (line (
              codes "The --src-addr code path sets the IPv4 Don't-Fragment bit by design, so "
              ++ codes "the kernel refuses to fragment and returns EMSGSIZE.")
            ++ (line []
                ++ line (
                    codes "Reduce the trap size — drop optional varbinds or split it across "
                    ++ codes
                        "multiple traps — or send without --src-addr to let the kernel fragment."))))

module _ (system : Errno → ErrorKind → Str) where
  -- `fmt`
  abbrev pub display : Error → Str
  display (usage m) = usage_text system m
  display (raw_socket_denied platform e) =
      line (codes "--src-addr requires raw IP socket capability, which this binary does not have.")
      ++ (remediation platform
          ++ (codes "(raw socket open failed: " ++ (io_text system e ++ codes ")")))
  display unsupported =
      codes "--src-addr is not supported on this platform; only Linux and macOS/BSD are supported"
  display (payload_exceeds_mtu n e) =
      mtu_text n ++ (codes "(raw send failed: " ++ (io_text system e ++ codes ")"))
  display (routing e) = codes "send failed: " ++ io_text system e
  display (encode m) = codes "encoding error: " ++ encode_text m
  display (other_io e) = io_text system e

  -- `report_to_stderr`
  abbrev pub report_to_stderr : Error → Str
  report_to_stderr e = line (codes "error: " ++ display e)
