-- ===== src/Cache/Tests.antt =====
-- A full cache of one entry.
use zapiack_console_backend.Common.{ℕ, [], ◌∷◌}
use zapiack_console_backend.Common.Table.{Table}
use zapiack_console_backend.Cache.{Entry}

abbrev full : Table (Entry ℕ)
full = ("a", record { value = 1; expires = 10 }) ∷ []
