-- ===== src/Tests/Usm.antt =====
-- The theorems on src/usm.rs, at concrete passwords and keys.
use snmptrap_rs.Prelude.{◌≡◌, [], ◌∷◌, arith}
use snmptrap_rs.Usm.Types.{sha1}
use snmptrap_rs.Usm.Keys.{incremental_digest}
use snmptrap_rs.Usm.Keys.Stretch.{cyclic, incremental_digest-cyclic}
use snmptrap_rs.Tests.Toy.{crypto, lawful}

incremental_digest-cyclic_example :
    incremental_digest crypto sha1 (109 ∷ 97 ∷ 112 ∷ []) 8
    ≡ crypto.digest sha1 (cyclic (109 ∷ 97 ∷ 112 ∷ []) 0 8)
incremental_digest-cyclic_example =
    incremental_digest-cyclic crypto lawful sha1 (109 ∷ 97 ∷ 112 ∷ []) 8 (omega arith)
