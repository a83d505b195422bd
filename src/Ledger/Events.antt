-- ===== src/Ledger/Events.antt =====
-- `TaskLedger`: the copies of conversation events, with a cursor of their own for each task.
pub mod Soundness
pub mod Cursors
pub mod Pages
mod Examples
use Prim.Native.String.{len}
use gg_agent_server.Prelude.{
  ℕ, suc, ◌+◌, String, Bool, true, ◌&&◌, ◌||◌, Option, none, some, List, [], ◌∷◌, map, length, ltb,
  leb, nat_eq, ◌==◌, if◌then◌else◌, is_some,
}
use gg_agent_server.Result.{ok, value_error, assertion_error, require, fetched, ◌>>=◌, ◌>>◌}
use gg_agent_server.Table.{
  find_where, select_where, update_where, order_by, insert_row, insert_unique,
}
use gg_agent_server.Sdk.Domain.{Event, EventCodec}
use gg_agent_server.Storage.Truncation.{truncate_event_json}
use gg_agent_server.Ledger.Rows.{EventCounter, EventIdentity, EventCopy, SourceCursor, Ledger}
use gg_agent_server.Ledger.Tasks.{Tx}
use gg_agent_server.Ledger.Sandboxes.{require_payload}

-- The primary key of `task_event_identities`.
abbrev pub is_identity : String → String → ℕ → EventIdentity → Bool
is_identity task_id source_id source_seq r =
    r.task_id == task_id && r.source_id == source_id && nat_eq r.source_seq source_seq

abbrev pub find_identity : String → String → ℕ → Ledger → Option EventIdentity
find_identity task_id source_id source_seq l =
    find_where (is_identity task_id source_id source_seq) l.event_identities

abbrev pub counts : String → EventCounter → Bool
counts task_id r = r.task_id == task_id

-- INSERT … ON CONFLICT DO NOTHING, then UPDATE … SET value = value + 1
pub advance_counter : String → List EventCounter → List EventCounter
advance_counter task_id rows =
    update_where (counts task_id) (λ r. record r { value = suc r.value })
      (if is_some (find_where (counts task_id) rows)
        then rows
        else insert_row (record { task_id = task_id; value = 0 }) rows)

-- The two unique keys of each of the tables.
abbrev pub clashes_identity : EventIdentity → EventIdentity → Bool
clashes_identity new r =
    is_identity new.task_id new.source_id new.source_seq r
    || r.task_id == new.task_id && nat_eq r.cursor_seq new.cursor_seq

abbrev pub clashes_copy : EventCopy → EventCopy → Bool
clashes_copy new r =
    r.task_id == new.task_id
    && (nat_eq r.cursor_seq new.cursor_seq
        || r.source_id == new.source_id && nat_eq r.source_seq new.source_seq)

abbrev pub identity_row : String → String → ℕ → ℕ → EventIdentity
identity_row task_id source_id source_seq cursor = record {
  task_id = task_id;
  source_id = source_id;
  source_seq = source_seq;
  cursor_seq = cursor;
}

abbrev pub copy_row : String → String → ℕ → ℕ → String → ℕ → EventCopy
copy_row task_id source_id source_seq cursor payload now = record {
  task_id = task_id;
  cursor_seq = cursor;
  source_id = source_id;
  source_seq = source_seq;
  event_json = payload;
  created_at = now;
}

-- The INSERTs of a new event.
pub insert_new_event : String → String → ℕ → String → ℕ → Tx (Option ℕ)
insert_new_event task_id source_id source_seq payload now l = do
  require_payload task_id l
  let counters = advance_counter task_id l.event_counters
  counter ← fetched assertion_error (find_where (counts task_id) counters)
  let identity = identity_row task_id source_id source_seq counter.value
  let copy = copy_row task_id source_id source_seq counter.value payload now
  identities ← insert_unique (clashes_identity identity) identity l.event_identities
  copies ← insert_unique (clashes_copy copy) copy l.event_copies
  ok (
    some counter.value,
    record l { event_counters = counters; event_identities = identities; event_copies = copies },
  )

-- `_insert_task_event`, which is also the whole of `copy_task_event`
pub insert_task_event : String → String → ℕ → String → ℕ → Tx (Option ℕ)
insert_task_event task_id source_id source_seq payload now l =
    elim (find_identity task_id source_id source_seq l) [
      | some existing ↦ ok (none, l)
      | none ↦ insert_new_event task_id source_id source_seq payload now l
    ]

abbrev pub is_source : String → String → SourceCursor → Bool
is_source task_id source_id r = r.task_id == task_id && r.source_id == source_id

pub event_source_cursor : String → String → Ledger → ℕ
event_source_cursor task_id source_id l =
    elim (find_where (is_source task_id source_id) l.source_cursors) [
      | none ↦ 0
      | some r ↦ r.source_seq
    ]

-- ON CONFLICT DO UPDATE SET source_seq = MAX(source_seq, excluded.source_seq)
pub raise_source_cursor : String → String → ℕ → List SourceCursor → List SourceCursor
raise_source_cursor task_id source_id seq rows =
    if is_some (find_where (is_source task_id source_id) rows)
    then update_where (is_source task_id source_id)
        (λ r. record r { source_seq = if ltb r.source_seq seq then seq else r.source_seq }) rows
    else insert_row (record { task_id = task_id; source_id = source_id; source_seq = seq }) rows

-- Positive and strictly increasing.
pub is_ordered : ℕ → List Event → Bool
is_ordered last [] = true
is_ordered last (event ∷ events) = ltb last event.seq && is_ordered event.seq events

pub last_seq : Event → List Event → ℕ
last_seq event [] = event.seq
last_seq event (next ∷ events) = last_seq next events

-- SUM(length(CAST(event_json AS BLOB)))
pub sum_log_bytes : List EventCopy → ℕ
sum_log_bytes [] = 0
sum_log_bytes (r ∷ rows) = len r.event_json + sum_log_bytes rows

pub copied_log_bytes : String → Ledger → ℕ
unfolding sum_log_bytes
copied_log_bytes task_id l = sum_log_bytes (select_where (λ r. r.task_id == task_id) l.event_copies)

-- `drawn` is what `uuid4` and the clock give where an event is replaced by a stub, and `now` the clock
-- when an event is inserted.
module _ (codec : EventCodec) (drawn : Event → String × ℕ) where
  open codec use {dump, validate}

  pub event_payload : Option ℕ → ℕ → Event → String
  event_payload none log_bytes event = dump event
  event_payload (some max_log_bytes) log_bytes event =
      (truncate_event_json codec (drawn event) event max_log_bytes log_bytes).0

  pub copy_events :
      String → String → Option ℕ → (Event → ℕ) → ℕ → List Event → Tx (List (ℕ × Event))
  copy_events task_id source_id max_log_bytes now log_bytes [] l = ok ([], l)
  copy_events task_id source_id max_log_bytes now log_bytes (event ∷ events) l =
      let payload = event_payload max_log_bytes log_bytes event in
      do
        (cursor, l') ← insert_task_event task_id source_id event.seq payload (now event) l
        elim cursor [
          | none ↦ copy_events task_id source_id max_log_bytes now log_bytes events l'
          | some c ↦ do
            (inserted, l'') ←
                copy_events task_id source_id max_log_bytes now (log_bytes + len payload) events l'
            ok ((c, validate payload) ∷ inserted, l'')
        ]

  -- The body of the transaction.
  pub copy_page :
      String → String → Option ℕ → (Event → ℕ) → Event → List Event → Tx (List (ℕ × Event))
  copy_page task_id source_id max_log_bytes now first events l = do
    require_payload task_id l
    (inserted, l') ←
        copy_events task_id source_id max_log_bytes now (copied_log_bytes task_id l)
          (first ∷ events) l
    let seq = last_seq first events
    ok (
      inserted,
      record l' { source_cursors = raise_source_cursor task_id source_id seq l'.source_cursors },
    )

  -- An empty page does not open a transaction.
  pub copy_task_event_page :
      String → String → Option ℕ → (Event → ℕ) → List Event → Tx (List (ℕ × Event))
  copy_task_event_page task_id source_id max_log_bytes now [] l = ok ([], l)
  copy_task_event_page task_id source_id max_log_bytes now (first ∷ events) l = do
    require (leb (length (first ∷ events)) 200 && is_ordered 0 (first ∷ events)) value_error
    copy_page task_id source_id max_log_bytes now first events l

-- One row of `list_task_events`: cursor, source, its sequence number, and the event.
pub list_task_events : EventCodec → String → ℕ → Ledger → List (ℕ × String × ℕ × Event)
list_task_events codec task_id after_cursor l =
    map (λ (r : EventCopy). (r.cursor_seq, r.source_id, r.source_seq, codec.validate r.event_json))
      (order_by (λ a b. leb a.cursor_seq b.cursor_seq)
        (select_where (λ r. r.task_id == task_id && ltb after_cursor r.cursor_seq) l.event_copies))
