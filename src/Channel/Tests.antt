-- ===== src/Channel/Tests.antt =====
-- The channel's masks.
use starry.Common.{◌≡◌, refl}
use starry.Channel.{disable_reading, apply_interest}

disable_reading-both : apply_interest disable_reading 7 ≡ 4
unfolding apply_interest
disable_reading-both = refl
