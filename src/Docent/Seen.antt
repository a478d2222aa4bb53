-- ===== src/Docent/Seen.antt =====
-- What `_seen_ago` says against the seconds that have passed.
use agent_souk_server.Docent.{TimeUnit, second, minute, hour, day, of_seconds}
use agent_souk_server.Base.{◌*◌, ℕ, suc, ◌≤◌, ◌<◌, ◌≢◌, arith}

abbrev pub seconds_in : TimeUnit → ℕ
seconds_in second = 1
seconds_in minute = 60
seconds_in hour = 3600
seconds_in day = 86400

-- The words are true to their unit: the time that has passed is at least the count of units and less
-- than one more, and a count of minutes, hours or days is never zero.
pub of_seconds-bounds :
    (s : ℕ)
    → ((of_seconds s).count_of * seconds_in (of_seconds s).unit ≤ s)
      × (s < suc (of_seconds s).count_of * seconds_in (of_seconds s).unit)
      × ((of_seconds s).unit ≢ second → 1 ≤ (of_seconds s).count_of)
of_seconds-bounds s = (ground arith, ground arith, ground arith)
