-- ===== src/Transport/Packet/Laws.antt =====
-- Receivers verify the checksums of the packets.
use snmptrap_rs.Prelude.{
  ℕ, ◌+◌, ◌-◌, ◌*◌, ◌^◌, ◌≤◌, ◌<◌, ◌≡◌, ◌≢◌, refl, ◌∙◌, ap, true, false, [], ◌∷◌, ◌++◌, arith,
  Bytes, AreBytes, All-append, length, ◌==◌, if◌then◌else◌, get_or, drop,
}
use snmptrap_rs.Prelude.Words.{be16}
use snmptrap_rs.Text.Net.{Ipv4Addr, IsAddr}
use snmptrap_rs.Transport.Checksum.{ip_checksum, ones_sum}
use snmptrap_rs.Transport.Checksum.Laws.{
  total, total-le, canonical, ones_sum-canonical, ip_checksum-total, verifies,
}
use snmptrap_rs.Transport.Packet.{
  Kernel, network_order, host_order, ipv4_header, build_ipv4_header, udp_len, pseudo_header, summed,
  udp_checksum, build_udp_datagram,
}

module _ (k : Kernel) (src dst : Ipv4Addr) (payload_len identification : ℕ) where
  total-ipv4_header :
      (c : ℕ)
      → c < 65536
      → total (ipv4_header k src dst payload_len identification (be16 c))
        ≡ total (ipv4_header k src dst payload_len identification (0 ∷ 0 ∷ [])) + c
  total-ipv4_header c h = go k
    where
      go :
          (k : Kernel)
          → total (ipv4_header k src dst payload_len identification (be16 c))
            ≡ total (ipv4_header k src dst payload_len identification (0 ∷ 0 ∷ [])) + c
      go network_order = omega arith
      go (host_order true) = omega arith
      go (host_order false) = omega arith

  total-ipv4_header_bounds :
      IsAddr src
      → IsAddr dst
      → (0 < total (ipv4_header k src dst payload_len identification (0 ∷ 0 ∷ [])))
        × (total (ipv4_header k src dst payload_len identification (0 ∷ 0 ∷ [])) < 2 ^ 31)
  total-ipv4_header_bounds hs hd = go k
    where
      go :
          (k : Kernel)
          → (0 < total (ipv4_header k src dst payload_len identification (0 ∷ 0 ∷ [])))
            × (total (ipv4_header k src dst payload_len identification (0 ∷ 0 ∷ [])) < 2 ^ 31)
      go network_order = omega arith
      go (host_order true) = omega arith
      go (host_order false) = omega arith

canonical_bounds : (n : ℕ) → canonical n < 65536
canonical_bounds n = ground arith

-- The checksum of a text that holds the complement of the sum of the rest is zero.
checksum_zero :
    (before after : Bytes)
    → 0 < total before
    → total before < 2 ^ 31
    → total after ≡ total before + (65535 - canonical (total before))
    → ip_checksum after ≡ 0
checksum_zero before after lo hi e =
    ip_checksum-total after (omega arith)
    ∙ ap (λ n. 65535 - n) (verifies (total before) (total after) lo e)

checksum_lt : (d : Bytes) → total d < 2 ^ 31 → ip_checksum d < 65536
checksum_lt d h = omega (arith, ip_checksum-total d (omega arith))

-- A router that recomputes the checksum over the header, its checksum field included, gets zero. Both
-- addresses are four octets; the order in which the kernel wants the two fields does not matter.
pub ip_checksum-build_ipv4_header :
    (k : Kernel) (src dst : Ipv4Addr) (payload_len identification : ℕ)
    → IsAddr src
    → IsAddr dst
    → ip_checksum (build_ipv4_header k src dst payload_len identification) ≡ 0
unfolding build_ipv4_header
ip_checksum-build_ipv4_header k src dst payload_len identification hs hd =
    let before = ipv4_header k src dst payload_len identification (0 ∷ 0 ∷ []) in
    let (lo, hi) = total-ipv4_header_bounds k src dst payload_len identification hs hd in
    checksum_zero before _ lo hi (
      total-ipv4_header k src dst payload_len identification (ip_checksum before)
        (checksum_lt before hi)
      ∙ ap (λ n. total before + n) (ip_checksum-total before (omega arith)))

-- The header of a payload that fits has 20 octets, and its length field, in network order, says 20
-- more than the payload: nothing wrapped around.
pub build_ipv4_header_len :
    (src dst : Ipv4Addr) (payload_len identification : ℕ)
    → payload_len ≤ 65515
    → let hdr = build_ipv4_header network_order src dst payload_len identification in
      (length hdr ≡ 20) × (get_or hdr 2 0 * 256 + get_or hdr 3 0 ≡ 20 + payload_len)
unfolding build_ipv4_header
build_ipv4_header_len src dst payload_len identification h = omega arith

module _ (src dst : Ipv4Addr) (src_port dst_port : ℕ) (payload : Bytes) where
  abbrev before : Bytes
  before = summed src dst src_port dst_port payload (0 ∷ 0 ∷ [])

  total-summed :
      (c : ℕ)
      → c < 65536
      → total (summed src dst src_port dst_port payload (be16 c)) ≡ total before + c
  total-summed c h = omega arith

  summed_bounds :
      IsAddr src
      → IsAddr dst
      → AreBytes payload
      → length payload ≤ 65507
      → (0 < total before) × (total before < 2 ^ 31)
  summed_bounds hs hd hp l = omega (arith, total-le payload hp)

  summed-AreBytes :
      (c : ℕ)
      → IsAddr src
      → IsAddr dst
      → AreBytes payload
      → AreBytes (summed src dst src_port dst_port payload (be16 c))
  summed-AreBytes c hs hd hp =
      All-append _
        (pseudo_header src dst payload
          ++ (be16 src_port ++ (be16 dst_port ++ (be16 (udp_len payload) ++ be16 c))))
        payload (omega arith) hp

  udp_checksum_bounds :
      total before < 2 ^ 31
      → (udp_checksum src dst src_port dst_port payload < 65536)
        × (0 < udp_checksum src dst src_port dst_port payload)
  unfolding udp_checksum
  udp_checksum_bounds h = ground (arith, checksum_lt before h)

  -- The checksum as sent, or the all-ones that stand for a computed zero, completes the sum.
  canonical-summed :
      0 < total before
      → total before < 2 ^ 31
      → canonical (total before + udp_checksum src dst src_port dst_port payload) ≡ 65535
  unfolding udp_checksum
  canonical-summed lo hi = rw (ip_checksum-total before (omega arith)) (complete (total before) lo)
    where
      complete :
          (n : ℕ)
          → 0 < n
          → canonical (n + (if (65535 - canonical n) == 0 then 65535 else 65535 - canonical n))
            ≡ 65535
      complete n h = ground arith

-- The one's complement sum over the pseudo-header and the datagram, checksum field included, is all
-- ones, and the field itself is not zero, which would mean "no checksum".
pub ones_sum-build_udp_datagram :
    (src dst : Ipv4Addr) (src_port dst_port : ℕ) (payload : Bytes)
    → IsAddr src
    → IsAddr dst
    → AreBytes payload
    → length payload ≤ 65507
    → let dg = build_udp_datagram src dst src_port dst_port payload in
      (ones_sum (pseudo_header src dst payload ++ dg) ≡ 65535)
      × (get_or dg 6 0 * 256 + get_or dg 7 0 ≢ 0)
unfolding build_udp_datagram
ones_sum-build_udp_datagram src dst src_port dst_port payload hs hd hp l =
    let (lo, hi) = summed_bounds src dst src_port dst_port payload hs hd hp l in
    let c = udp_checksum src dst src_port dst_port payload in
    let (c_lt, c_pos) = udp_checksum_bounds src dst src_port dst_port payload hi in
    let sum = total-summed src dst src_port dst_port payload c c_lt in
    (
      ones_sum-canonical (summed src dst src_port dst_port payload (be16 c))
            (summed-AreBytes src dst src_port dst_port payload c hs hd hp)
          ∙ ap canonical sum
          ∙ canonical-summed src dst src_port dst_port payload lo hi,
      omega arith,
    )

-- The datagram of a payload that fits is 8 octets longer, its length field says so, and the payload
-- stands behind the header unchanged.
pub build_udp_datagram_len :
    (src dst : Ipv4Addr) (src_port dst_port : ℕ) (payload : Bytes)
    → length payload ≤ 65507
    → let dg = build_udp_datagram src dst src_port dst_port payload in
      (length dg ≡ 8 + length payload)
      × (get_or dg 4 0 * 256 + get_or dg 5 0 ≡ 8 + length payload)
      × (drop 8 dg ≡ payload)
unfolding build_udp_datagram
build_udp_datagram_len src dst src_port dst_port payload h = (omega arith, omega arith, refl)
