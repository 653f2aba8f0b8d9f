-- ===== src/Outbox.antt =====
-- workers/scheduled/outbox_processor.py and db/models/outbox.py: the messages of the transactional
-- outbox, and one run of the job that hands them to their tasks. The tasks are an argument: each acts on
-- the rest of the database, may enqueue messages, and ends well or raises. What a task wrote before it
-- raised is kept, since one commit ends the run.
pub mod Safe
pub mod Drain
mod Examples
use submissions_checker.Prelude.{
  ℕ, zero, suc, ◌+◌, Bool, true, false, not, ◌&&◌, ◌||◌, Option, none, some, List, [], ◌∷◌, ◌++◌,
  map, ltb, Codes, if◌then◌else◌,
}

pub data OutboxEventType : Type 0 where
  send_credentials submission_reviewed quiz_result deadline_reminder : OutboxEventType
  new_submission run_checks run_ai_review : OutboxEventType
  feedback_request_sent quiz_dispute_resolved : OutboxEventType

pub data OutboxMessageState : Type 0 where
  pending finished error : OutboxMessageState

-- A key of a payload: the three of `_SECRET_KEYS`, and any other.
pub data PayloadKey : Type 0 where
  password_sealed password token_sealed : PayloadKey
  plain_key : Codes → PayloadKey

-- A value of a payload; `redacted` is the placeholder of workers/tasks/send_credentials_tasks.py.
pub data PayloadValue : Type 0 where
  redacted : PayloadValue
  plain : Codes → PayloadValue

abbrev pub Payload : Type 0
Payload = List (PayloadKey × PayloadValue)

unfoldable pub is_secret : PayloadKey → Bool
is_secret (plain_key _) = false
is_secret _ = true

unfoldable pub redact_credentials : Payload → Payload
unfolding is_secret
redact_credentials [] = []
redact_credentials ((k, v) ∷ payload) =
    (k, if is_secret k then redacted else v) ∷ redact_credentials payload

-- A row of outbox_messages, without the text of its error.
pub record OutboxMessage : Type 0 where
  pub id : ℕ
  pub event_type : OutboxEventType
  pub payload : Payload
  pub state : OutboxMessageState
  pub finished_at : Option ℕ
  pub retry_count : ℕ

unfoldable pub mark_finished : ℕ → OutboxMessage → OutboxMessage
mark_finished now m = record m { state = finished; finished_at = some now }

unfoldable pub mark_error : OutboxMessage → OutboxMessage
mark_error m = record m { state = error; retry_count = m.retry_count + 1 }

-- The rows in the order of their `created_at`, and the key of the next one.
pub record Outbox : Type 0 where
  pub messages : List OutboxMessage
  pub next_id : ℕ

-- What a task leaves: the rest of the database, the messages it enqueues, and whether it ended well.
pub record Ran {ℓ} (W : Type ℓ) : Type ℓ where
  pub world : W
  pub enqueued : List (OutboxEventType × Payload)
  pub succeeded : Bool

-- The secret of these two is redacted once it is delivered.
unfoldable pub is_secretive : OutboxEventType → Bool
is_secretive send_credentials = true
is_secretive feedback_request_sent = true
is_secretive _ = false

-- The WHERE of the query.
unfoldable pub is_due : ℕ → OutboxMessage → Bool
is_due max_retries m = elim m.state [
  | finished ↦ false
  | pending ↦ ltb m.retry_count max_retries
  | error ↦ ltb m.retry_count max_retries
]

-- `add` of the enqueued messages.
unfoldable pub enqueue : List (OutboxEventType × Payload) → Outbox → Outbox
enqueue [] box = box
enqueue ((event_type, payload) ∷ rest) box = enqueue rest (record {
  messages =
      box.messages
      ++ record {
        id = box.next_id;
        event_type = event_type;
        payload = payload;
        state = pending;
        finished_at = none;
        retry_count = 0;
      }
        ∷ [];
  next_id = box.next_id + 1;
})

module _ {ℓ} {W : Type ℓ} (task : OutboxEventType → Payload → W → Ran W) where
  -- `dispatch_outbox_message` and the mark after it.
  unfoldable pub process : ℕ → OutboxMessage → Ran W → OutboxMessage
  unfolding mark_finished mark_error redact_credentials is_secretive
  process now m ran =
      if ran.succeeded
      then if is_secretive m.event_type
        then mark_finished now (record m { payload = redact_credentials m.payload })
        else mark_finished now m
      else mark_error m

  -- The query takes the first `batch` rows that are due, and the loop treats them in this order; no task
  -- changes another row. The rows, the rest of the database and what was enqueued.
  unfoldable pub process_rows :
      ℕ → ℕ → ℕ → List OutboxMessage → W → List OutboxMessage × W × List (OutboxEventType × Payload)
  unfolding is_due process
  process_rows max_retries now batch [] w = ([], w, [])
  process_rows max_retries now zero (m ∷ rows) w = (m ∷ rows, w, [])
  process_rows max_retries now (suc batch) (m ∷ rows) w = elim (is_due max_retries m) [
    | true ↦
        let ran = task m.event_type m.payload w in
        let (rest, w', enqueued) = process_rows max_retries now batch rows ran.world in
        (process now m ran ∷ rest, w', ran.enqueued ++ enqueued)
    | false ↦
        let (rest, w', enqueued) = process_rows max_retries now (suc batch) rows w in
        (m ∷ rest, w', enqueued)
  ]

  -- One run of the job; without the advisory lock it does nothing.
  unfoldable pub process_outbox_messages : ℕ → ℕ → Bool → ℕ → Outbox → W → Outbox × W
  unfolding process_rows enqueue
  process_outbox_messages max_retries batch lock_acquired now box w =
      let (rows, w', enqueued) = process_rows max_retries now batch box.messages w in
      if lock_acquired then (enqueue enqueued (record box { messages = rows }), w') else (box, w)
