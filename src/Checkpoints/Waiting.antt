-- ===== src/Checkpoints/Waiting.antt =====
-- `ensure_durable` of backend/gg/runtime/checkpoints.py: one checkpoint decides it.
use gg_agent_server.Prelude.{◌≡◌, ◌⊎◌, refl, true, false, Option, some, ℤ, pos}
use gg_agent_server.Result.{Result, Error, ok, err}
use gg_agent_server.Checkpoints.{Coordinator, int_le, int_lt, is_confirmed}

-- How a call gets the target confirmed, from the state in which it has the lock: others have done it,
-- and nothing changes, or its own copy of the whole database is.
abbrev pub Confirms : Option ℤ → Coordinator → Coordinator → Type 0
Confirms required met c' =
    ((is_confirmed required met ≡ true) × (c' ≡ met))
    ⊎ ((is_confirmed required met ≡ false)
        × (c'.confirmed_revision ≡ pos met.revision)
        × (c'.snapshot ≡ some met.revision))

-- A call that has returned has confirmed the target; one that raised confirms nothing.
abbrev Settles : Option ℤ → ℤ → Coordinator → Result ℤ × Coordinator → Type 0
Settles required target met p =
    ((r : ℤ) × (c' : Coordinator) × (p ≡ (ok r, c'))
      × (int_le target c'.confirmed_revision ≡ true)
      × Confirms required met c')
    ⊎ ((e : Error) × (c' : Coordinator) × (p ≡ (err e, c'))
        × (c'.confirmed_revision ≡ met.confirmed_revision))

-- The same, and the error is noted.
abbrev Decides : Option ℤ → ℤ → Coordinator → Result ℤ × Coordinator → Type 0
Decides required target met p =
    ((r : ℤ) × (c' : Coordinator) × (p ≡ (ok r, c'))
      × (int_le target c'.confirmed_revision ≡ true)
      × Confirms required met c')
    ⊎ ((e : Error) × (c' : Coordinator) × (p ≡ (err e, c'))
        × (c'.last_error ≡ some e)
        × (c'.confirmed_revision ≡ met.confirmed_revision))

int_le-lt : (a b : ℤ) → int_le b a ≡ true → int_lt a b ≡ false
int_le-lt a b h = rw h refl
