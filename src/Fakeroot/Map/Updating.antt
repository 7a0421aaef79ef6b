-- ===== src/Fakeroot/Map/Updating.antt =====
-- `fr_map_update` on a well-formed table.
use bxroot.Fakeroot.Map.Keys.{fr_key}
