-- ===== src/Object/Examples.antt =====
-- The encoding of a string at a concrete one.
use libredis_a.Common.{false, [], ◌∷◌}
use libredis_a.Util.Strtoll.{strtoll, strtoll-IsStrtoll}
use libredis_a.Object.{create_string_object, try_object_encoding}
use libredis_a.Object.Encoding.{Decodes, try_object_encoding_lem}

-- "-7".
try_object_encoding_lem_example :
    Decodes Unit 3
      (try_object_encoding strtoll false (create_string_object 2 (45 ∷ 55 ∷ []) 1 0))
      (45 ∷ 55 ∷ [])
try_object_encoding_lem_example =
    try_object_encoding_lem strtoll strtoll-IsStrtoll 3
      (record { logiclock = 1; version = 0; bytes = 45 ∷ 55 ∷ [] }) 2 false
