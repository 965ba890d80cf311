-- ===== src/Varbind/Typed.antt =====
-- The kinds and the ranges of the values that `parse_typed_value` of src/varbind.rs returns.
use snmptrap_rs.Prelude.{
  ℕ, zero, suc, ◌-◌, ◌^◌, ◌≤◌, ◌≡◌, refl, sym, subst, arith, Bool, true, false, ◌||◌, List, [], ◌∷◌,
  Outcome, ok, ◌>>=◌, >>=-eq-ok, map_err-eq-ok, ok_or-eq-ok, Bytes, AreBytes, ◌==◌, ==_iff,
  if◌then◌else◌,
}
use snmptrap_rs.Prelude.Int.{ℤ, pos}
use snmptrap_rs.Text.{Str, as_bytes}
use snmptrap_rs.Text.Net.{Ipv4Addr, IsAddr}
use snmptrap_rs.Text.Net.Range.{parse_ipv4-IsAddr}
use snmptrap_rs.Text.Number.{
  IntError, pos_overflow, neg_overflow, negate, scan, scan-le, parse_i32, parse_uint-le, max_u32,
  max_u64,
}
use snmptrap_rs.Errors.{ParseError}
use snmptrap_rs.Engine.Id.Laws.{AreChars, as_bytes-AreBytes}
use snmptrap_rs.Varbind.Oid.Laws.{IsOid, parse_oid-IsOid}
use snmptrap_rs.Varbind.Hex.Cases.{parse_hex_string-AreBytes}
use snmptrap_rs.Varbind.Bits.Octets.{parse_bits-AreBytes}
use snmptrap_rs.Varbind.RoundTrip.{IsI32}
use snmptrap_rs.Varbind.Value.{
  VarBindValue, integer, unsigned32, time_ticks, ip_address, object_id, octet_string, null, bits,
  counter64, map_ok, parse_typed_value,
}

-- The type letters: the values of each, in their ranges.
pub data HasType : ℕ → VarBindValue → Type 0 where
  typed_integer : {z : ℤ} → IsI32 z → HasType b'i' (integer z)
  typed_unsigned32 : {n : ℕ} → n ≤ max_u32 → HasType b'u' (unsigned32 n)
  typed_time_ticks : {n : ℕ} → n ≤ max_u32 → HasType b't' (time_ticks n)
  typed_ip_address : {ip : Ipv4Addr} → IsAddr ip → HasType b'a' (ip_address ip)
  typed_object_id : {arcs : List ℕ} → IsOid arcs → HasType b'o' (object_id arcs)
  typed_text : {bs : Bytes} → AreBytes bs → HasType b's' (octet_string bs)
  typed_hex : {bs : Bytes} → AreBytes bs → HasType b'x' (octet_string bs)
  typed_null : HasType b'n' null
  typed_bits : {bs : Bytes} → AreBytes bs → HasType b'b' (bits bs)
  typed_counter64 : {n : ℕ} → n ≤ max_u64 → HasType b'U' (counter64 n)

negate-IsI32 : (n : ℕ) → n ≤ 2 ^ 31 → IsI32 (negate n)
negate-IsI32 zero h = omega arith
negate-IsI32 (suc n) h =
    let positive : (suc n == 0) ≡ false = ground arith in rw positive (omega arith)

to_pos-IsI32 :
    (over : IntError) (s : Str) {z : ℤ}
    → (scan (2 ^ 31 - 1) over s 0 >>= λ n. ok (pos n)) ≡ ok z
    → IsI32 z
to_pos-IsI32 over s {z} e =
    let (n, en, ez) = >>=-eq-ok (scan (2 ^ 31 - 1) over s 0) _ e in
    let same : pos n ≡ z = cc in
    let small = scan-le _ over s 0 n (omega arith) en in subst IsI32 same (omega arith)

to_negative-IsI32 :
    (over : IntError) (s : Str) {z : ℤ}
    → (scan (2 ^ 31) over s 0 >>= λ n. ok (negate n)) ≡ ok z
    → IsI32 z
to_negative-IsI32 over s {z} e =
    let (n, en, ez) = >>=-eq-ok (scan (2 ^ 31) over s 0) _ e in
    let same : negate n ≡ z = cc in
    subst IsI32 same (negate-IsI32 n (scan-le _ over s 0 n (omega arith) en))

-- The branch that a test takes gave the result.
module _ {E A : Type 0} {v : A} {P : Type 0} where
  branch :
      (t : Bool) (a b : Outcome E A)
      → (if t then a else b) ≡ ok v
      → (t ≡ true → a ≡ ok v → P)
      → (b ≡ ok v → P)
      → P
  branch true a b e f g = f refl e
  branch false a b e f g = g e

parse_i32-IsI32 : (s : Str) {z : ℤ} → parse_i32 s ≡ ok z → IsI32 z
unfolding parse_i32
parse_i32-IsI32 [] e = cc
parse_i32-IsI32 (c ∷ []) e =
    branch (c == b'+' || c == b'-') _ _ e (λ t h. cc) (to_pos-IsI32 pos_overflow (c ∷ []))
parse_i32-IsI32 (c ∷ d ∷ s) e =
    branch (c == b'-') _ _ e (λ t. to_negative-IsI32 neg_overflow (d ∷ s))
      λ h.
        branch (c == b'+') _ _ h (λ t. to_pos-IsI32 pos_overflow (d ∷ s))
          (to_pos-IsI32 pos_overflow (c ∷ d ∷ s))

-- A value that is made by a constructor of what a parser returned.
module _ (letter code : ℕ) (v : VarBindValue) (at : (letter == code) ≡ true) where
  typed : HasType code v → HasType letter v
  typed h = subst (λ l. HasType l v) (sym ((==_iff letter code).0 at)) h

module _ (letter code : ℕ) (at : (letter == code) ≡ true) {A : Type 0} (f : A → VarBindValue)
    {v : VarBindValue} where
  made_of :
      (m : Outcome ParseError A)
      → ((a : A) → m ≡ ok a → HasType code (f a))
      → map_ok f m ≡ ok v
      → HasType letter v
  made_of m rule e =
      let (a, ea, ev) = >>=-eq-ok m _ e in
      let same : f a ≡ v = cc in typed letter code v at (subst (HasType code) same (rule a ea))

-- A value that is read has the type that its letter names, and is in the range of that type: octets
-- below 256, a number and the arcs of a name within their width, an address of four octets, and a
-- name that can be encoded. The text consists of characters.
pub parse_typed_value-HasType :
    (letter : ℕ) (raw : Str) (v : VarBindValue)
    → AreChars raw
    → parse_typed_value letter raw ≡ ok v
    → HasType letter v
unfolding parse_typed_value
parse_typed_value-HasType letter raw v chars e =
    branch (letter == b'i') _ _ e
      (λ t.
        made_of letter _ t integer _
          λ a h. typed_integer (parse_i32-IsI32 raw (map_err-eq-ok _ _ h)))
      λ e1.
        branch (letter == b'u') _ _ e1
          (λ t.
            made_of letter _ t unsigned32 _
              λ a h. typed_unsigned32 (parse_uint-le max_u32 raw (map_err-eq-ok _ _ h)))
          λ e2.
            branch (letter == b't') _ _ e2
              (λ t.
                made_of letter _ t time_ticks _
                  λ a h. typed_time_ticks (parse_uint-le max_u32 raw (map_err-eq-ok _ _ h)))
              λ e3.
                branch (letter == b'a') _ _ e3
                  (λ t.
                    made_of letter _ t ip_address _
                      λ a h. typed_ip_address (parse_ipv4-IsAddr raw (ok_or-eq-ok _ _ h)))
                  λ e4.
                    branch (letter == b'o') _ _ e4
                      (λ t.
                        made_of letter _ t object_id _
                          λ a h. typed_object_id (parse_oid-IsOid raw a (map_err-eq-ok _ _ h)))
                      λ e5.
                        branch (letter == b's') _ _ e5
                          (λ t h.
                            let same : octet_string (as_bytes raw) ≡ v = cc in
                            typed letter _ v t (
                              subst (HasType b's') same (typed_text (as_bytes-AreBytes raw chars))))
                          λ e6.
                            branch (letter == b'x') _ _ e6
                              (λ t. made_of letter _ t octet_string _ λ a h.
                                typed_hex (parse_hex_string-AreBytes raw (map_err-eq-ok _ _ h)))
                              λ e7.
                                branch (letter == b'n') _ _ e7
                                  (λ t h.
                                    let same : null ≡ v = cc in
                                    typed letter _ v t (subst (HasType b'n') same typed_null))
                                  λ e8.
                                    branch (letter == b'b') _ _ e8
                                      (λ t. made_of letter _ t bits _ λ a h.
                                        typed_bits (parse_bits-AreBytes raw (map_err-eq-ok _ _ h)))
                                      λ e9.
                                        branch (letter == b'U') _ _ e9
                                          (λ t. made_of letter _ t counter64 _ λ a h.
                                            typed_counter64
                                              (parse_uint-le max_u64 raw (map_err-eq-ok _ _ h)))
                                          λ e10. cc
