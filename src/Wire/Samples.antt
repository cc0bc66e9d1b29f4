-- ===== src/Wire/Samples.antt =====
-- internal/wire: two messages.
use mixi.Base.{◌≡◌, refl, List, [], ◌∷◌, arith}
use mixi.Base.Bytes.{Bytes, codes}
use mixi.Wire.{read_all, write_all, message, read_all-write_all}

abbrev messages : List Bytes
messages = codes "{}" ∷ codes "[1]" ∷ []

read_all-write_all_example :
    read_all (write_all messages []) ≡ message (codes "{}") ∷ message (codes "[1]") ∷ []
read_all-write_all_example = read_all-write_all messages (
  record { some_bytes = omega arith; fits = omega arith; one_line = refl; no_return = refl },
  (record { some_bytes = omega arith; fits = omega arith; one_line = refl; no_return = refl }, tt),
)
