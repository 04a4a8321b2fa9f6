-- ===== src/Channel/Mask.antt =====
-- The values that `events_` can take, and what the methods do to them.
use starry.Common.{ℕ, ◌≡◌, refl, Bool, true, false, not, ◌&&◌}
use starry.Channel.{
  Interest, enable_reading, disable_reading, enable_writing, disable_writing, disable_all,
  apply_interest, is_none_event, is_writing, is_reading,
}

pub data IsMask : ℕ → Type 0 where
  idle : IsMask 0
  reading : IsMask 3
  writing : IsMask 4
  both : IsMask 7

pub apply_interest-IsMask : (i : Interest) {e : ℕ} → IsMask e → IsMask (apply_interest i e)
unfolding apply_interest
apply_interest-IsMask enable_reading idle = reading
apply_interest-IsMask enable_reading reading = reading
apply_interest-IsMask enable_reading writing = both
apply_interest-IsMask enable_reading both = both
apply_interest-IsMask disable_reading idle = idle
apply_interest-IsMask disable_reading reading = idle
apply_interest-IsMask disable_reading writing = writing
apply_interest-IsMask disable_reading both = writing
apply_interest-IsMask enable_writing idle = writing
apply_interest-IsMask enable_writing reading = both
apply_interest-IsMask enable_writing writing = writing
apply_interest-IsMask enable_writing both = both
apply_interest-IsMask disable_writing idle = idle
apply_interest-IsMask disable_writing reading = reading
apply_interest-IsMask disable_writing writing = idle
apply_interest-IsMask disable_writing both = reading
apply_interest-IsMask disable_all m = idle

-- What the channel is interested in after a method, by what it was interested in before.
abbrev pub after_reading : Interest → Bool → Bool
after_reading enable_reading r = true
after_reading disable_reading r = false
after_reading disable_all r = false
after_reading enable_writing r = r
after_reading disable_writing r = r

abbrev pub after_writing : Interest → Bool → Bool
after_writing enable_writing w = true
after_writing disable_writing w = false
after_writing disable_all w = false
after_writing enable_reading w = w
after_writing disable_reading w = w

-- Each method changes one interest and leaves the other, and `events_` is zero exactly when there
-- is none left.
pub apply_interest_lem :
    (i : Interest) {e : ℕ}
    → IsMask e
    → (is_reading (apply_interest i e) ≡ after_reading i (is_reading e))
      × (is_writing (apply_interest i e) ≡ after_writing i (is_writing e))
      × (is_none_event (apply_interest i e)
          ≡ (not (after_reading i (is_reading e)) && not (after_writing i (is_writing e))))
unfolding apply_interest is_reading is_writing is_none_event
apply_interest_lem enable_reading idle = (refl, refl, refl)
apply_interest_lem enable_reading reading = (refl, refl, refl)
apply_interest_lem enable_reading writing = (refl, refl, refl)
apply_interest_lem enable_reading both = (refl, refl, refl)
apply_interest_lem disable_reading idle = (refl, refl, refl)
apply_interest_lem disable_reading reading = (refl, refl, refl)
apply_interest_lem disable_reading writing = (refl, refl, refl)
apply_interest_lem disable_reading both = (refl, refl, refl)
apply_interest_lem enable_writing idle = (refl, refl, refl)
apply_interest_lem enable_writing reading = (refl, refl, refl)
apply_interest_lem enable_writing writing = (refl, refl, refl)
apply_interest_lem enable_writing both = (refl, refl, refl)
apply_interest_lem disable_writing idle = (refl, refl, refl)
apply_interest_lem disable_writing reading = (refl, refl, refl)
apply_interest_lem disable_writing writing = (refl, refl, refl)
apply_interest_lem disable_writing both = (refl, refl, refl)
apply_interest_lem disable_all m = (refl, refl, refl)
