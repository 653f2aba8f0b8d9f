-- ===== src/Outbox/Safe.antt =====
-- workers/scheduled/outbox_processor.py: what a run may do to a message.
use submissions_checker.Prelude.{
  ℕ, zero, suc, ◌≤◌, ◌≡◌, refl, inl, inr, Bool, true, false, not, ◌&&◌, ◌||◌, List, [], ◌∷◌, arith,
  All, append-All, Bool-cases,
}
use submissions_checker.Outbox.{
  OutboxEventType, OutboxMessageState, finished, Payload, PayloadValue, redacted, is_secret,
  redact_credentials, OutboxMessage, mark_finished, mark_error, Outbox, Ran, is_secretive, is_due,
  enqueue, process, process_rows, process_outbox_messages,
}

unfoldable pub is_redacted : PayloadValue → Bool
is_redacted redacted = true
is_redacted _ = false

-- No secret key of the payload has a value of its own.
unfoldable pub holds_no_secret : Payload → Bool
holds_no_secret [] = true
holds_no_secret ((k, v) ∷ payload) = (not (is_secret k) || is_redacted v) && holds_no_secret payload

unfoldable pub is_finished : OutboxMessageState → Bool
is_finished finished = true
is_finished _ = false

-- What holds of every row between two runs.
pub record IsSafe (max_retries : ℕ) (m : OutboxMessage) : Type 0 where
  pub retries : m.retry_count ≤ max_retries
  pub delivered :
      (is_finished m.state && is_secretive m.event_type && not (holds_no_secret m.payload)) ≡ false

redact-holds_no_secret : (payload : Payload) → holds_no_secret (redact_credentials payload) ≡ true
unfolding holds_no_secret redact_credentials is_redacted
redact-holds_no_secret [] = refl
redact-holds_no_secret ((k, v) ∷ payload) = ground (arith, redact-holds_no_secret payload)

enqueue-IsSafe :
    (max_retries : ℕ) (new : List (OutboxEventType × Payload)) (box : Outbox)
    → All (IsSafe max_retries) box.messages
    → All (IsSafe max_retries) (enqueue new box).messages
unfolding enqueue is_finished
enqueue-IsSafe max_retries [] box h = h
enqueue-IsSafe max_retries ((event_type, payload) ∷ new) box h = enqueue-IsSafe max_retries new _ (
    append-All (IsSafe max_retries) box.messages _ h
      (record { retries = omega arith; delivered = refl }, tt))

module _ {ℓ} {W : Type ℓ} (task : OutboxEventType → Payload → W → Ran W) where
  process-IsSafe :
      (max_retries now : ℕ) (m : OutboxMessage) (ran : Ran W)
      → is_due max_retries m ≡ true
      → IsSafe max_retries (process task now m ran)
  unfolding process mark_finished mark_error is_due is_finished
  process-IsSafe max_retries now m ran due = ground (arith, redact-holds_no_secret m.payload)

  process_rows-IsSafe :
      (max_retries now batch : ℕ) (rows : List OutboxMessage) (w : W)
      → All (IsSafe max_retries) rows
      → All (IsSafe max_retries) (process_rows task max_retries now batch rows w).0
  unfolding process_rows
  process_rows-IsSafe max_retries now batch [] w h = tt
  process_rows-IsSafe max_retries now zero (m ∷ rows) w h = h
  process_rows-IsSafe max_retries now (suc batch) (m ∷ rows) w h =
      elim (Bool-cases (is_due max_retries m)) [
        | inl due ↦
            let ran : Ran W = task m.event_type m.payload w in
            rw (due, process_rows, All)
              (
                process-IsSafe max_retries now m ran due,
                process_rows-IsSafe max_retries now batch rows ran.world h.1,
              )
        | inr rests ↦
            rw (rests, process_rows, All)
              (h.0, process_rows-IsSafe max_retries now (suc batch) rows w h.1)
      ]

  -- A run keeps every message safe, whatever the tasks do: no message is tried more often than the cap,
  -- and a finished message that carried a credential or a link token holds it no longer.
  pub process_outbox_messages-IsSafe :
      (max_retries batch : ℕ) (lock_acquired : Bool) (now : ℕ) (box : Outbox) (w : W)
      → All (IsSafe max_retries) box.messages
      → All
          (IsSafe max_retries)
          (process_outbox_messages task max_retries batch lock_acquired now box w).0.messages
  unfolding process_outbox_messages
  process_outbox_messages-IsSafe max_retries batch false now box w h = h
  process_outbox_messages-IsSafe max_retries batch true now box w h =
      let (rows, w', enqueued) = process_rows task max_retries now batch box.messages w in
      enqueue-IsSafe max_retries enqueued (record box { messages = rows })
        (process_rows-IsSafe max_retries now batch box.messages w h)
