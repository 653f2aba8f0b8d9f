-- ===== src/Outbox/Drain.antt =====
-- workers/scheduled/outbox_processor.py: the job comes to an end. The work that is left is the number of
-- tries that the messages still have.
use submissions_checker.Prelude.{
  ℕ, zero, suc, ◌-◌, ◌≤◌, ◌<◌, ◌≡◌, refl, true, false, not, List, [], ◌∷◌, arith, all, sum_by,
  Bool-cases, inl, inr, if◌then◌else◌,
}
use submissions_checker.Outbox.{
  OutboxEventType, Payload, OutboxMessage, mark_finished, mark_error, Outbox, Ran, is_due, enqueue,
  process, process_rows, process_outbox_messages,
}

-- The tries that a message still has.
unfoldable pub tries_left : ℕ → OutboxMessage → ℕ
tries_left max_retries m = if is_due max_retries m then max_retries - m.retry_count else 0

abbrev pub work_left : ℕ → List OutboxMessage → ℕ
work_left max_retries rows = sum_by (tries_left max_retries) rows

work_left-due :
    (max_retries : ℕ) (rows : List OutboxMessage)
    → work_left max_retries rows ≡ 0
    → all (λ m. not (is_due max_retries m)) rows ≡ true
unfolding tries_left is_due
work_left-due max_retries [] h = refl
work_left-due max_retries (m ∷ rows) h = ground (arith, work_left-due max_retries rows)

tries_left_none :
    (max_retries : ℕ) (m : OutboxMessage)
    → is_due max_retries m ≡ false
    → tries_left max_retries m ≡ 0
unfolding tries_left
tries_left_none max_retries m h = ground (arith, h)

module _ {ℓ} {W : Type ℓ} (task : OutboxEventType → Payload → W → Ran W) where
  messages_after :
      (max_retries now batch : ℕ) (box : Outbox) (w : W)
      → (process_rows task max_retries now batch box.messages w).2 ≡ []
      → (process_outbox_messages task max_retries batch true now box w).0.messages
        ≡ (process_rows task max_retries now batch box.messages w).0
  unfolding process_outbox_messages enqueue
  messages_after max_retries now batch box w e = ground (arith, e)

  tries_left-process :
      (max_retries now : ℕ) (m : OutboxMessage) (ran : Ran W)
      → is_due max_retries m ≡ true
      → tries_left max_retries (process task now m ran) < tries_left max_retries m
  unfolding tries_left process mark_finished mark_error is_due
  tries_left-process max_retries now m ran due = ground arith

  -- A pass leaves no more work than there was.
  work_left_mono :
      (max_retries now batch : ℕ) (rows : List OutboxMessage) (w : W)
      → work_left max_retries (process_rows task max_retries now batch rows w).0
        ≤ work_left max_retries rows
  unfolding process_rows
  work_left_mono max_retries now batch [] w = omega arith
  work_left_mono max_retries now zero (m ∷ rows) w = omega arith
  work_left_mono max_retries now (suc batch) (m ∷ rows) w =
      let ran : Ran W = task m.event_type m.payload w in
      elim (Bool-cases (is_due max_retries m)) [
        | inl due ↦
            rw (due, process_rows, work_left)
              (omega (
                arith,
                tries_left-process max_retries now m ran due,
                work_left_mono max_retries now batch rows ran.world,
              ))
        | inr rests ↦
            rw (rests, process_rows, work_left)
              (omega (arith, work_left_mono max_retries now (suc batch) rows w))
      ]

  -- A pass with a batch for at least one message leaves less work, where there was any.
  work_left-process_rows :
      (max_retries now batch : ℕ) (rows : List OutboxMessage) (w : W)
      → work_left max_retries (process_rows task max_retries now (suc batch) rows w).0
        ≤ work_left max_retries rows - 1
  unfolding process_rows
  work_left-process_rows max_retries now batch [] w = omega arith
  work_left-process_rows max_retries now batch (m ∷ rows) w =
      let ran : Ran W = task m.event_type m.payload w in
      elim (Bool-cases (is_due max_retries m)) [
        | inl due ↦
            rw (due, process_rows, work_left)
              (omega (
                arith,
                tries_left-process max_retries now m ran due,
                work_left_mono max_retries now batch rows ran.world,
              ))
        | inr rests ↦
            rw (rests, process_rows, work_left)
              (omega (
                arith,
                tries_left_none max_retries m rests,
                work_left-process_rows max_retries now batch rows w,
              ))
      ]

  -- Tasks that enqueue nothing leave the rows of the pass.
  process_rows-enqueued :
      (max_retries now batch : ℕ) (rows : List OutboxMessage) (w : W)
      → ((e : OutboxEventType) (p : Payload) (v : W) → (task e p v).enqueued ≡ [])
      → (process_rows task max_retries now batch rows w).2 ≡ []
  unfolding process_rows
  process_rows-enqueued max_retries now batch [] w quiet = refl
  process_rows-enqueued max_retries now zero (m ∷ rows) w quiet = refl
  process_rows-enqueued max_retries now (suc batch) (m ∷ rows) w quiet =
      let ran : Ran W = task m.event_type m.payload w in
      elim (Bool-cases (is_due max_retries m)) [
        | inl due ↦
            rw (due, process_rows, quiet m.event_type m.payload w)
              (process_rows-enqueued max_retries now batch rows ran.world quiet)
        | inr rests ↦
            rw (rests, process_rows)
              (process_rows-enqueued max_retries now (suc batch) rows w quiet)
      ]

  -- `n` runs of the job in a row, at the moments `clock` says, each of which gets the lock.
  unfoldable pub run_many : ℕ → ℕ → (ℕ → ℕ) → ℕ → Outbox → W → Outbox × W
  unfolding process_outbox_messages
  run_many max_retries batch clock zero box w = (box, w)
  run_many max_retries batch clock (suc n) box w =
      let (box', w') = process_outbox_messages task max_retries batch true (clock n) box w in
      run_many max_retries batch clock n box' w'

  -- When the tasks enqueue nothing more and a batch takes at least one message, as many runs as there are
  -- tries left finish the outbox: no message is due any more.
  pub run_many-is_due :
      (max_retries batch : ℕ) (clock : ℕ → ℕ) (n : ℕ) (box : Outbox) (w : W)
      → ((e : OutboxEventType) (p : Payload) (v : W) → (task e p v).enqueued ≡ [])
      → 0 < batch
      → work_left max_retries box.messages ≤ n
      → all (λ m. not (is_due max_retries m)) (run_many max_retries batch clock n box w).0.messages
        ≡ true
  unfolding run_many
  run_many-is_due max_retries batch clock zero box w quiet b h =
      work_left-due max_retries box.messages (omega arith)
  run_many-is_due max_retries zero clock (suc n) box w quiet b h = absurd (omega arith)
  run_many-is_due max_retries (suc batch) clock (suc n) box w quiet b h =
      let rows : List OutboxMessage =
        (process_rows task max_retries (clock n) (suc batch) box.messages w).0 in
      let less = work_left-process_rows max_retries (clock n) batch box.messages w in
      let silent = process_rows-enqueued max_retries (clock n) (suc batch) box.messages w quiet in
      let same : (process_outbox_messages task max_retries (suc batch) true (clock n) box
            w).0.messages
          ≡ rows =
        messages_after max_retries (clock n) (suc batch) box w silent in
      run_many-is_due max_retries (suc batch) clock n _ _ quiet b (rw same (omega arith))
