-- ===== src/Engine/Mac.antt =====
-- `host_mac_linux` of src/engine.rs and what it calls. The directory /sys/class/net is given by the
-- names in it (`none` if it cannot be read) and the text of each address file.
pub mod Order
pub mod Stable
pub mod Usable
pub mod Chosen
use snmptrap_rs.Prelude.{
  ℕ, Bool, true, false, ◌&&◌, ◌||◌, not, List, [], ◌∷◌, Option, none, some, ok, err, panic, Bytes,
  length, ltb, ◌==◌, if◌then◌else◌, keep,
}
use snmptrap_rs.Text.{Str, codes, as_bytes, str_eq, starts_with, trim}
use snmptrap_rs.Text.Split.{split}
use snmptrap_rs.Engine.Parse.{decode_hex_nibble, join_nibbles}

abbrev pub virtual_interface_prefixes : List Str
virtual_interface_prefixes =
    codes "docker"
    ∷ codes "br-"
    ∷ codes "bond"
    ∷ codes "virbr"
    ∷ codes "veth"
    ∷ codes "tun"
    ∷ codes "tap"
    ∷ codes "wg"
    ∷ codes "cni"
    ∷ codes "kube"
    ∷ codes "flannel"
    ∷ codes "cilium"
    ∷ codes "ovs"
    ∷ codes "dummy"
    ∷ codes "vboxnet"
    ∷ codes "vmnet"
    ∷ []

any_prefix : List Str → Str → Bool
unfolding starts_with
any_prefix [] name = false
any_prefix (p ∷ ps) name = starts_with p name || any_prefix ps name

unfoldable pub is_virtual_interface : Str → Bool
unfolding any_prefix
is_virtual_interface name = any_prefix virtual_interface_prefixes name

unfoldable pub is_physical_prefix : Str → Bool
unfolding starts_with
is_physical_prefix name =
    starts_with (codes "en") name
    || (starts_with (codes "eth") name || starts_with (codes "wl") name)

nibble : ℕ → Option ℕ
unfolding decode_hex_nibble
nibble b = elim (decode_hex_nibble b) [ ok n ↦ some n | err e ↦ none | panic ↦ none ]

join_some : Option ℕ → Option ℕ → Option ℕ
join_some (some hi) (some lo) = some (join_nibbles hi lo)
join_some _ _ = none

-- Two bytes, each a hex digit.
mac_byte : Bytes → Option ℕ
unfolding nibble join_some
mac_byte (a ∷ b ∷ []) = join_some (nibble a) (nibble b)
mac_byte _ = none

cons_some : Option ℕ → Option Bytes → Option Bytes
cons_some (some b) (some bs) = some (b ∷ bs)
cons_some _ _ = none

mac_parts : List Str → Option Bytes
unfolding mac_byte cons_some as_bytes
mac_parts [] = some []
mac_parts (p ∷ ps) = cons_some (mac_byte (as_bytes p)) (mac_parts ps)

unfoldable pub parse_mac_text : Str → Option Bytes
unfolding mac_parts split
parse_mac_text s =
    let parts = split (λ c. c == b':') s in if length parts == 6 then mac_parts parts else none

-- `sort_by` with physical names first and the order of texts within each tier.
abbrev str_leb : Str → Str → Bool
str_leb [] t = true
str_leb (c ∷ s) [] = false
str_leb (c ∷ s) (d ∷ t) = if c == d then str_leb s t else ltb c d

unfoldable pub goes_before : Str → Str → Bool
unfolding is_physical_prefix
goes_before a b =
    if is_physical_prefix a
    then (if is_physical_prefix b then str_leb a b else true)
    else (if is_physical_prefix b then false else str_leb a b)

insert : Str → List Str → List Str
unfolding goes_before
insert x [] = x ∷ []
insert x (y ∷ ys) = if goes_before x y then x ∷ y ∷ ys else y ∷ insert x ys

unfoldable pub sort_names : List Str → List Str
unfolding insert
sort_names [] = []
sort_names (x ∷ xs) = insert x (sort_names xs)

unfoldable pub is_candidate : Str → Bool
unfolding is_virtual_interface str_eq
is_candidate name = not (str_eq name (codes "lo")) && not (is_virtual_interface name)

unfoldable pub all_zero : Bytes → Bool
all_zero [] = true
all_zero (b ∷ bs) = b == 0 && all_zero bs

non_zero : Option Bytes → Option Bytes
unfolding all_zero
non_zero none = none
non_zero (some mac) = if all_zero mac then none else some mac

-- The address that one interface offers, if its file can be read.
unfoldable pub usable : Option Str → Option Bytes
unfolding non_zero parse_mac_text trim
usable none = none
usable (some text) = non_zero (parse_mac_text (trim text))

module _ (address : Str → Option Str) where
  unfoldable pub first_mac : List Str → Option Bytes
  unfolding usable
  first_mac [] = none
  first_mac (name ∷ names) =
      let rest = first_mac names in
      elim (usable (address name)) [ none ↦ rest | some mac ↦ some mac ]

  unfoldable pub host_mac : Option (List Str) → Option Bytes
  unfolding first_mac sort_names is_candidate keep
  host_mac none = none
  host_mac (some names) = first_mac (sort_names (keep is_candidate names))
