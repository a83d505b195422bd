-- ===== src/Checkpoints.antt =====
-- `CheckpointCoordinator` of backend/gg/runtime/checkpoints.py: which revision of the database is known
-- to be durable. The copy of the file and the commit of the volume answer as an attempt
-- says, and the calls that hold the lock before one come as its turns.
pub mod Durability
pub mod Waiting
mod Examples
use gg_agent_server.Prelude.{
  ℕ, ◌+◌, Bool, true, false, Option, none, some, List, [], ◌∷◌, leb, ◌&&◌, ℤ, pos, negsuc,
  if◌then◌else◌,
}
use gg_agent_server.Result.{Result, Error, ok, err, value_error}
use gg_agent_server.Program.{Program, raise, read, catch, modify, ◌>>◌}

-- `revision` is the database's, `snapshot` that of the local copy.
pub record Coordinator : Type 0 where
  pub revision : ℕ
  pub snapshot : Option ℕ
  pub confirmed_revision : ℤ
  pub last_error : Option Error

abbrev pub new_coordinator : ℕ → Coordinator
new_coordinator revision = record {
  revision = revision;
  snapshot = none;
  confirmed_revision = negsuc 0;
  last_error = none;
}

abbrev pub int_le : ℤ → ℤ → Bool
int_le (pos a) (pos b) = leb a b
int_le (pos a) (negsuc b) = false
int_le (negsuc a) (pos b) = true
int_le (negsuc a) (negsuc b) = leb b a

abbrev pub int_lt : ℤ → ℤ → Bool
int_lt a b = if int_le b a then false else true

unfoldable pub pending : Coordinator → Bool
pending c = int_lt c.confirmed_revision (pos c.revision)

-- What `_checkpoint` meets under the lock: how the copy ends, the transactions that others commit until
-- the commit has settled, and how the commit ends, and the notice of it.
pub record Attempt : Type 0 where
  pub published : Result (Unit {0})
  pub written_during : ℕ
  pub committed : Result (Unit {0})

abbrev write_others : ℕ → Coordinator → Coordinator
write_others n c = record c { revision = c.revision + n }

abbrev confirm : ℕ → Coordinator → Coordinator
confirm revision c = record c { confirmed_revision = pos revision; last_error = none }

-- The commit of the copy that was made at a revision.
abbrev settle_commit : ℕ → Result (Unit {0}) → Program Coordinator ℤ
settle_commit revision (ok done) c = (ok (pos revision), confirm revision c)
settle_commit revision (err e) c = (err e, c)

abbrev publish : Attempt → Result (Unit {0}) → Program Coordinator ℤ
publish attempt (err e) c = (err e, c)
publish attempt (ok done) c =
    settle_commit c.revision attempt.committed
      (write_others attempt.written_during (record c { snapshot = some c.revision }))

abbrev is_confirmed : Option ℤ → Coordinator → Bool
is_confirmed none c = false
is_confirmed (some required) c = int_le required c.confirmed_revision

-- `_checkpoint`, under the lock
unfoldable pub checkpoint_locked : Option ℤ → Attempt → Program Coordinator ℤ
checkpoint_locked required attempt c =
    if is_confirmed required c
    then (ok c.confirmed_revision, c)
    else publish attempt attempt.published c

-- `except BaseException`
abbrev pub note_error : Error → Program Coordinator ℤ
note_error e = modify (λ c. record c { last_error = some e }) >> raise e

-- A turn of the others while a call waits for the lock: transactions, a checkpoint of another call, or
-- another call that gives up waiting.
pub data Turn : Type 0 where
  wrote : ℕ → Turn
  checkpointed : Option ℤ → Attempt → Turn
  gave_up : Error → Turn

abbrev pub take_turn : Turn → Coordinator → Coordinator
take_turn (wrote n) c = write_others n c
take_turn (checkpointed required attempt) c =
    (catch (checkpoint_locked required attempt) note_error c).1
take_turn (gave_up e) c = record c { last_error = some e }

unfoldable pub others : List Turn → Coordinator → Coordinator
others [] c = c
others (turn ∷ turns) c = others turns (take_turn turn c)

-- One call of `checkpoint`: the others' turns until it has the lock, or gives up, and its attempt.
pub record Pass : Type 0 where
  pub turns : List Turn
  pub acquired : Result (Unit {0})
  pub attempt : Attempt

unfoldable pub checkpoint : Option ℤ → Pass → Program Coordinator ℤ
checkpoint required pass =
    catch
      (modify (others pass.turns)
        >> read (λ c. pass.acquired)
        >> checkpoint_locked required pass.attempt)
      note_error

abbrev pub is_written : ℤ → Coordinator → Bool
is_written revision c = int_le (pos 0) revision && int_le revision (pos c.revision)

-- An exception of the checkpoint ends the loop.
abbrev pub next_round :
    Result ℤ × Coordinator
    → Option (Result (Unit {0}) × Coordinator)
    → Option (Result (Unit {0}) × Coordinator)
next_round (ok confirmed, c) rest = rest
next_round (err e, c) rest = some (err e, c)

-- `while self.confirmed_revision < revision`, on the passes as they come; `none` where they are used
-- up before the loop is over.
unfoldable pub wait_durable : ℤ → List Pass → Coordinator → Option (Result (Unit {0}) × Coordinator)
wait_durable revision [] c = if int_lt c.confirmed_revision revision then none else some (ok tt, c)
wait_durable revision (pass ∷ passes) c =
    let tried = checkpoint (some revision) pass c in
    let rest = wait_durable revision passes tried.1 in
    if int_lt c.confirmed_revision revision then next_round tried rest else some (ok tt, c)

unfoldable pub ensure_durable :
    ℤ → List Pass → Coordinator → Option (Result (Unit {0}) × Coordinator)
ensure_durable revision passes c =
    if is_written revision c then wait_durable revision passes c else some (err value_error, c)
