-- ===== src/Outbox/Examples.antt =====
-- The outbox at two messages: a task of credentials that is delivered and one that always raises.
use submissions_checker.Prelude.{ℕ, ◌+◌, ◌≡◌, true, false, none, [], ◌∷◌, arith, All, all, not}
use submissions_checker.Outbox.{
  OutboxEventType, send_credentials, run_checks, pending, error, Payload, password_sealed, plain,
  Outbox, Ran, is_due, process_outbox_messages,
}
use submissions_checker.Outbox.Safe.{IsSafe, is_finished, process_outbox_messages-IsSafe}
use submissions_checker.Outbox.Drain.{tries_left, run_many, run_many-is_due}

-- Credentials are sent; every other task raises.
abbrev task : OutboxEventType → Payload → ℕ → Ran ℕ
task send_credentials payload sent = record { world = sent + 1; enqueued = []; succeeded = true }
task _ payload sent = record { world = sent; enqueued = []; succeeded = false }

task_quiet : (e : OutboxEventType) (p : Payload) (sent : ℕ) → (task e p sent).enqueued ≡ []
task_quiet e p sent = ground arith

abbrev box : Outbox
box = record {
  messages =
      record {
        id = 1;
        event_type = send_credentials;
        payload = (password_sealed, plain (65 ∷ [])) ∷ [];
        state = pending;
        finished_at = none;
        retry_count = 0;
      }
      ∷ record {
        id = 2;
        event_type = run_checks;
        payload = [];
        state = error;
        finished_at = none;
        retry_count = 1;
      }
      ∷ [];
  next_id = 3;
}

box-IsSafe : All (IsSafe 3) box.messages
unfolding is_finished
box-IsSafe = ground arith

process_outbox_messages-IsSafe_example :
    All (IsSafe 3) (process_outbox_messages task 3 10 true 100 box 0).0.messages
process_outbox_messages-IsSafe_example =
    process_outbox_messages-IsSafe task 3 10 true 100 box 0 box-IsSafe

run_many-is_due_example :
    all (λ m. not (is_due 3 m)) (run_many task 3 10 (λ n. n) 5 box 0).0.messages ≡ true
unfolding tries_left is_due
run_many-is_due_example =
    run_many-is_due task 3 10 (λ n. n) 5 box 0 task_quiet (omega arith) (omega arith)
