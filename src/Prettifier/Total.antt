-- ===== src/Prettifier/Total.antt =====
-- The loop of include/jsonifier-incl/serializing/prettifier.hpp ends on every text and tape.
use jsonifier.Prelude.{◌<◌}
use jsonifier.Prettifier.{Round, goes}

-- A round takes an entry of the tape.
abbrev Takes : Round → Type 0
Takes (goes n st) = 0 < n
Takes _ = Unit
