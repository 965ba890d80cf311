-- ===== src/Pdu/Laws.antt =====
-- What src/pdu.rs hands to the encoder, and when it refuses a trap.
use snmptrap_rs.Prelude.{
  ℕ, ◌≡◌, refl, ap, ◌⊎◌, inl, inr, List, [], ◌∷◌, Option, none, some, ok, err, panic, map_err,
}
use snmptrap_rs.Errors.{EncodeMessage, encode, encoder, bits_in_v1, counter64_in_v1}
use snmptrap_rs.Varbind.Value.{
  VarBindValue, integer, unsigned32, time_ticks, ip_address, object_id, octet_string, null, bits,
  counter64,
}
use snmptrap_rs.Pdu.{
  sys_uptime_oid, snmp_trap_oid_oid, VarBinds, V2cTrap, V1Trap, V2VarBind, V1VarBind, V1Value,
  v2_value, v1_value, Codec, push_v2, push_v1, v2_bindings, v2c_message, build_v2c_trap,
  build_v1_trap,
}

-- The bindings that a trap of version 2 carries: the uptime, the trap's name, and the user's.
unfoldable pub bound : VarBinds → List V2VarBind
bound [] = []
bound ((oid, v) ∷ rest) = record { name = oid; value = v2_value v } ∷ bound rest

abbrev pub carried : V2cTrap → List V2VarBind
carried t =
    record { name = sys_uptime_oid; value = v2_value (time_ticks t.uptime_centiseconds) }
    ∷ record { name = snmp_trap_oid_oid; value = v2_value (object_id t.trap_oid) }
    ∷ bound t.varbinds

push_v2-bound : (vs : VarBinds) → push_v2 vs ≡ ok (bound vs)
unfolding push_v2 bound
push_v2-bound [] = refl
push_v2-bound ((oid, v) ∷ rest) = rw (push_v2-bound rest)

-- The bindings of a version 2 trap are always built: sysUpTime.0 with the uptime first,
-- snmpTrapOID.0 with the trap's name second, then the user's in their order.
pub v2_bindings-carried : (t : V2cTrap) → v2_bindings t ≡ ok (carried t)
unfolding v2_bindings
v2_bindings-carried t = rw (push_v2-bound t.varbinds)

-- A version 2c trap is what the encoder makes of the message with these bindings, and fails only
-- where the encoder fails.
pub build_v2c_trap-carried :
    (codec : Codec) (t : V2cTrap)
    → build_v2c_trap codec t
      ≡ map_err (λ e. encode (encoder e)) (codec.encode_v2c (v2c_message codec t (carried t)))
unfolding build_v2c_trap
build_v2c_trap-carried codec t = rw (v2_bindings-carried t)

-- Why a value has no place in version 1.
abbrev pub unfit : VarBindValue → Option EncodeMessage
unfit (bits bytes) = some bits_in_v1
unfit (counter64 n) = some counter64_in_v1
unfit (integer i) = none
unfit (unsigned32 u) = none
unfit (time_ticks t) = none
unfit (ip_address ip) = none
unfit (object_id arcs) = none
unfit (octet_string bytes) = none
unfit null = none

abbrev pub or_else : {A : Type 0} → Option A → Option A → Option A
or_else (some a) other = some a
or_else none other = other

-- The first value of a trap that has no place in version 1.
unfoldable pub first_unfit : VarBinds → Option EncodeMessage
first_unfit [] = none
first_unfit ((oid, v) ∷ rest) = or_else (unfit v) (first_unfit rest)

-- The version 1 bindings of a trap whose values all fit.
unfoldable pub Represents : VarBinds → List V1VarBind → Type 0
Represents [] [] = Unit
Represents ((oid, v) ∷ rest) (b ∷ bs) =
    (b.name ≡ oid) × (v1_value v ≡ ok b.value) × Represents rest bs
Represents [] (b ∷ bs) = ⊥
Represents ((oid, v) ∷ rest) [] = ⊥

fitting_value : (v : VarBindValue) → unfit v ≡ none → (x : V1Value) × (v1_value v ≡ ok x)
fitting_value (integer i) h = (_, refl)
fitting_value (unsigned32 u) h = (_, refl)
fitting_value (time_ticks t) h = (_, refl)
fitting_value (ip_address ip) h = (_, refl)
fitting_value (object_id arcs) h = (_, refl)
fitting_value (octet_string bytes) h = (_, refl)
fitting_value null h = (_, refl)
fitting_value (bits bytes) h = cc
fitting_value (counter64 n) h = cc

unfit_value :
    (v : VarBindValue) (why : EncodeMessage) → unfit v ≡ some why → v1_value v ≡ err (encode why)
unfit_value (bits bytes) why h = ap (λ o. elim o [ some w ↦ err (encode w) | none ↦ panic ]) h
unfit_value (counter64 n) why h = ap (λ o. elim o [ some w ↦ err (encode w) | none ↦ panic ]) h
unfit_value (integer i) why h = cc
unfit_value (unsigned32 u) why h = cc
unfit_value (time_ticks t) why h = cc
unfit_value (ip_address ip) why h = cc
unfit_value (object_id arcs) why h = cc
unfit_value (octet_string bytes) why h = cc
unfit_value null why h = cc

abbrev pub V1Cases : VarBinds → Type 0
V1Cases vs =
    ((why : EncodeMessage) × (first_unfit vs ≡ some why) × (push_v1 vs ≡ err (encode why)))
    ⊎ ((first_unfit vs ≡ none) × ((bs : List V1VarBind) × (push_v1 vs ≡ ok bs) × Represents vs bs))

push_v1-refused :
    (oid : List ℕ) (v : VarBindValue) (rest : VarBinds) (why : EncodeMessage)
    → unfit v ≡ some why
    → V1Cases ((oid, v) ∷ rest)
unfolding push_v1 first_unfit
push_v1-refused oid v rest why h = inl (why, rw h, rw (unfit_value v why h))

push_v1-kept :
    (oid : List ℕ) (v : VarBindValue) (rest : VarBinds)
    → unfit v ≡ none
    → V1Cases rest
    → V1Cases ((oid, v) ∷ rest)
unfolding push_v1 first_unfit Represents
push_v1-kept oid v rest h (inl (why, f, e)) =
    let (x, fits) = fitting_value v h in inl (why, rw (h, f), rw (fits, e))
push_v1-kept oid v rest h (inr (f, (bs, e, r))) =
    let (x, fits) = fitting_value v h in
    inr (rw (h, f), (record { name = oid; value = x } ∷ bs, rw (fits, e), (refl, fits, r)))

-- The bindings of a version 1 trap: where some value is a BITS or a Counter64, the first such value
-- is refused with its own message; else each of the user's bindings is there, in its place, under its
-- name and with its value.
pub push_v1-cases : (vs : VarBinds) → V1Cases vs
unfolding push_v1 first_unfit Represents
push_v1-cases [] = inr (refl, ([], refl, tt))
push_v1-cases ((oid, v) ∷ rest) =
    let fits : ◌⊎◌ ((why : EncodeMessage) × (unfit v ≡ some why)) (unfit v ≡ none) =
      unfit_cases (unfit v) in
    elim fits [
      | inl (why, h) ↦ push_v1-refused oid v rest why h
      | inr h ↦ push_v1-kept oid v rest h (push_v1-cases rest)
    ]
  where
    unfit_cases :
        (o : Option EncodeMessage) → ◌⊎◌ ((why : EncodeMessage) × (o ≡ some why)) (o ≡ none)
    unfit_cases (some why) = inl (why, refl)
    unfit_cases none = inr refl

-- A version 1 trap with a BITS or Counter64 value is refused with the message for the first of
-- them, before anything is encoded.
pub build_v1_trap_refused :
    (codec : Codec) (t : V1Trap) (why : EncodeMessage)
    → first_unfit t.varbinds ≡ some why
    → build_v1_trap codec t ≡ err (encode why)
unfolding build_v1_trap
build_v1_trap_refused codec t why h = elim (push_v1-cases t.varbinds) [
  | inl (w, f, e) ↦ let same : why ≡ w = cc in rw (e, same)
  | inr (f, r) ↦ cc
]
