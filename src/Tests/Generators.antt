-- ===== src/Tests/Generators.antt =====
-- The generator's constructor on six slots and 192 bytes of data.
use lseb.Prelude.{◌≡◌, refl, arith, ok}
use lseb.DataFormat.{EventMetaData, EventHeader, Memory}
use lseb.Generator.{Built, construct, padded_size}
use lseb.Generator.Round.{Fits}
use lseb.Generator.Construct.{IsBuilt, construct-IsBuilt}

abbrev no_metadata : Memory EventMetaData
no_metadata p = record { id = 0; length = 0; offset = 0 }

abbrev no_headers : Memory EventHeader
no_headers p = record { id = 0; length = 0; flags = 0 }

-- A payload of 7 bytes is rounded down to an event of no byte.
payload_too_short : padded_size 7 ≡ 0
unfolding padded_size
payload_too_short = refl

fits : Fits 0 6 64 256 64
fits = omega arith

construct-IsBuilt_example :
    (b : Built) × (construct
        (λ j. 8)
        (record { begin = 0; end = 6 })
        (record { begin = 64; end = 256 })
        3
        no_metadata
        no_headers
      ≡ ok b)
    × IsBuilt 0 6 64 256 3 64 b
construct-IsBuilt_example =
    construct-IsBuilt 3 (λ j. 8) no_metadata no_headers fits refl (λ j. omega arith)
