-- ===== src/Tests/Setups.antt =====
-- The checks of the configuration.
use lseb.Prelude.{◌≡◌, refl, ok, none}
use lseb.Setup.{configure}
use lseb.Setup.Sizes.{conf}

-- A fragment size that is no multiple of the header's size.
refused : configure (conf 100 2 2 1000 40 0) ≡ ok none
unfolding configure
refused = refl
