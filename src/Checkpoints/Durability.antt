-- ===== src/Checkpoints/Durability.antt =====
-- What `CheckpointCoordinator` of backend/gg/runtime/checkpoints.py promises of a revision that it
-- confirms.
use gg_agent_server.Prelude.{
  List, [], ◌∷◌, ℕ, ◌+◌, ◌≡◌, inl, inr, refl, true, Option, none, some, arith, ℤ, pos, negsuc,
  Bool-cases,
}
use gg_agent_server.Result.{Result, ok, err}
use gg_agent_server.Program.{read, recover, catch, modify, raise, ◌>>=◌, ◌>>◌}
use gg_agent_server.Checkpoints.{
  Coordinator, int_le, Attempt, publish, is_confirmed, checkpoint_locked, note_error, Turn, wrote,
  checkpointed, gave_up, take_turn, others, Pass, checkpoint,
}

pub int_le_refl : (a : ℤ) → int_le a a ≡ true
int_le_refl (pos a) = ground arith
int_le_refl (negsuc a) = ground arith

int_le_trans : (a b c : ℤ) → int_le a b ≡ true → int_le b c ≡ true → int_le a c ≡ true
int_le_trans (pos a) (pos b) (pos c) h k = ground (arith, h, k)
int_le_trans (pos a) (pos b) (negsuc c) h k = cc k
int_le_trans (pos a) (negsuc b) c h k = cc h
int_le_trans (negsuc a) (pos b) (pos c) h k = refl
int_le_trans (negsuc a) (pos b) (negsuc c) h k = cc k
int_le_trans (negsuc a) (negsuc b) (pos c) h k = refl
int_le_trans (negsuc a) (negsuc b) (negsuc c) h k = ground (arith, h, k)

pub int_le_add : (a : ℤ) (n k : ℕ) → int_le a (pos n) ≡ true → int_le a (pos (n + k)) ≡ true
int_le_add (pos a) n k h = ground (arith, h)
int_le_add (negsuc a) n k h = refl

abbrev copied : Coordinator → ℤ
copied c = elim (c.snapshot) [ none ↦ negsuc 0 | some n ↦ pos n ]

-- A confirmed revision has a copy that is as new, and a copy is no newer than the database.
abbrev pub IsSound : Coordinator → Type 0
IsSound c =
    (int_le c.confirmed_revision (copied c) ≡ true) × (int_le (copied c) (pos c.revision) ≡ true)

-- From one state to a later one: sound, and with no confirmation taken back.
abbrev pub Advances : Coordinator → Coordinator → Type 0
Advances c c' = IsSound c' × (int_le c.confirmed_revision c'.confirmed_revision ≡ true)

module _ (attempt : Attempt) (c : Coordinator) (sound : IsSound c) where
  publish-Advances :
      (published committed : Result (Unit {0}))
      → Advances c (publish (record attempt { committed = committed }) published c).1
  publish-Advances (err e) committed = (sound, int_le_refl c.confirmed_revision)
  publish-Advances (ok done) (err e) = (
    (
      int_le_trans c.confirmed_revision (copied c) (pos c.revision) (sound.0) (sound.1),
      int_le_add (pos c.revision) c.revision attempt.written_during (int_le_refl (pos c.revision)),
    ),
    int_le_refl c.confirmed_revision,
  )
  publish-Advances (ok done) (ok settled) = (
    (
      int_le_refl (pos c.revision),
      int_le_add (pos c.revision) c.revision attempt.written_during (int_le_refl (pos c.revision)),
    ),
    int_le_trans c.confirmed_revision (copied c) (pos c.revision) (sound.0) (sound.1),
  )

checkpoint_locked-Advances :
    (required : Option ℤ) (attempt : Attempt) (c : Coordinator)
    → IsSound c
    → Advances c (checkpoint_locked required attempt c).1
unfolding checkpoint_locked
checkpoint_locked-Advances required attempt c sound = elim (Bool-cases (is_confirmed required c)) [
  | inl e ↦ rw (e, checkpoint_locked) (sound, int_le_refl c.confirmed_revision)
  | inr e ↦
      rw (e, checkpoint_locked)
        (publish-Advances attempt c sound attempt.published attempt.committed)
]

noted-Advances :
    (c : Coordinator) (p : Result ℤ × Coordinator)
    → Advances c p.1
    → Advances c (recover p note_error).1
unfolding ◌>>=◌ modify raise
noted-Advances c (ok r, c') h = h
noted-Advances c (err e, c') h = h

Advances-trans : (a b c : Coordinator) → Advances a b → Advances b c → Advances a c
Advances-trans a b c (_, h) (sound, k) =
    (sound, int_le_trans a.confirmed_revision b.confirmed_revision c.confirmed_revision h k)

take_turn-Advances : (turn : Turn) (c : Coordinator) → IsSound c → Advances c (take_turn turn c)
unfolding catch
take_turn-Advances (wrote n) c sound =
    ((sound.0, int_le_add (copied c) c.revision n (sound.1)), int_le_refl c.confirmed_revision)
take_turn-Advances (checkpointed required attempt) c sound =
    noted-Advances c (checkpoint_locked required attempt c)
      (checkpoint_locked-Advances required attempt c sound)
take_turn-Advances (gave_up e) c sound = (sound, int_le_refl c.confirmed_revision)

others-Advances : (turns : List Turn) (c : Coordinator) → IsSound c → Advances c (others turns c)
unfolding others
others-Advances [] c sound = (sound, int_le_refl c.confirmed_revision)
others-Advances (turn ∷ turns) c sound =
    let first = take_turn-Advances turn c sound in
    Advances-trans c (take_turn turn c) (others turns (take_turn turn c)) first
      (others-Advances turns (take_turn turn c) (first.0))

acquired-Advances :
    (required : Option ℤ) (acquired : Result (Unit {0})) (attempt : Attempt) (c : Coordinator)
    → IsSound c
    → Advances c ((read (λ c. acquired) >> checkpoint_locked required attempt) c).1
unfolding ◌>>=◌ read
acquired-Advances required (ok done) attempt c sound =
    checkpoint_locked-Advances required attempt c sound
acquired-Advances required (err e) attempt c sound = (sound, int_le_refl c.confirmed_revision)

-- Whatever a call of `checkpoint` meets, transactions and checkpoints of others while it waits for the
-- lock, a failed copy or a failed commit, and whether it returns, raises or gives up waiting: the
-- confirmed revision is not newer than the published copy, the copy is not newer than the database, and
-- no confirmation is taken back.
pub checkpoint-Advances :
    (required : Option ℤ) (pass : Pass) (c : Coordinator)
    → IsSound c
    → Advances c (checkpoint required pass c).1
unfolding checkpoint catch ◌>>=◌ modify
checkpoint-Advances required pass c sound =
    let waited = others-Advances pass.turns c sound in
    let tried =
      (read (λ c. pass.acquired) >> checkpoint_locked required pass.attempt)
        (others pass.turns c) in
    noted-Advances c tried (
      Advances-trans c (others pass.turns c) tried.1 waited
        (acquired-Advances required pass.acquired pass.attempt (others pass.turns c) (waited.0)))
