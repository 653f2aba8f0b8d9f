-- ===== src/Squads/Examples.antt =====
-- Squads of four students in a subject that allows two to a squad, and the theorems at them.
use submissions_checker.Prelude.{
  ◌≡◌, refl, ◌↔◌, true, false, none, some, List, [], ◌∷◌, arith, find, ◌==◌, ◌&&◌, ltb,
  if◌then◌else◌,
}
use submissions_checker.Squads.State.{
  Squad, SquadInvite, SquadInviteStatus, Tables, real, squad_by_id, eligibility,
  eligible_student_ids, squad_of, seats_student, has_id, is_pending, pends_for, invite_in_subject,
  concerns, has_pending_invites, squad_has_pending_invites, already_in_squad,
}
use submissions_checker.Squads.Formation.{
  notify_student, notify_opt, notify_all, audit, mark_those, set_status, is_empty, delete_squad,
  delete_if_empty, sweep_one, sweep, affected, cancels, excluded_squad_id, cancel_pending_of,
  has_duplicates, require_eligible, add_invite, add_invites, add_squad, refuse_create,
  create_with_invites, load_invite, max_size_or_zero, refuse_accept, add_member, lock_on_submit,
  pending_ids, fill, join, accept_invite, decline_invite, cancel_invite, cancel_pending_of_all,
  refuse_assign, teacher_assign,
}
use submissions_checker.Squads.Requests.{
  Request, create, reply, accept, rolled_back, committed, invite_subject_id, create_squad,
  answer_invite, answer, assign_squad, submit_lock, handle, handle_all,
}
use submissions_checker.Squads.Steps.{IsFormed, seats}
use submissions_checker.Squads.Refinement.{Steps, handle-Steps}
use submissions_checker.Squads.Invariants.{
  handle_all-IsFormed, handle_all-locked, eligible_student_ids-eligibility,
}
use submissions_checker.Squads.Invites.{refused_accept_strands, last_accept_cancelled}

-- All of the code at once: a test names this line.
squad_code : Unit {0}
unfolding squad_by_id eligibility squad_of seats_student has_id is_pending pends_for
    invite_in_subject concerns has_pending_invites squad_has_pending_invites notify_student
    notify_opt notify_all audit mark_those set_status is_empty delete_squad delete_if_empty
    sweep_one sweep affected cancels excluded_squad_id cancel_pending_of has_duplicates
    require_eligible add_invite add_invites add_squad refuse_create create_with_invites load_invite
    max_size_or_zero refuse_accept add_member lock_on_submit pending_ids fill join accept_invite
    decline_invite cancel_invite cancel_pending_of_all refuse_assign teacher_assign rolled_back
    committed invite_subject_id create_squad answer_invite answer assign_squad submit_lock handle
    handle_all
squad_code = tt

-- Subject 1 allows squads of two; students 1 to 4 are enrolled in it, and nobody has submitted.
abbrev class : Tables
class = record {
  squad_max_size = λ j. if j == 1 then some 2 else none;
  enrolled = λ j k. j == 1 && ltb 0 k && ltb k 5;
  student_type = λ k. if ltb k 5 then some real else none;
  has_submissions = λ j k. false;
  has_user = λ k. true;
  squads = [];
  invites = [];
  next_squad = 10;
  next_invite = 20;
  notices = [];
  audits = [];
}

-- Students 1 and 3 both invite student 2, who accepts the first invitation: that squad is full and
-- locked, and the squad of student 3 is gone.
abbrev pairing : List Request
pairing = create 1 1 (2 ∷ []) ∷ create 1 3 (2 ∷ []) ∷ reply accept 1 2 20 ∷ []

abbrev pair : Squad
pair = record {
  id = 10;
  subject_id = 1;
  created_by_student_id = some 1;
  created_by_user_id = none;
  locked = true;
  members = 1 ∷ 2 ∷ [];
}

paired : (handle_all pairing class).squads ≡ pair ∷ []
unfolding squad_code
paired = refl

-- Student 2 forms a squad of their own first, and can then accept no invitation: the refusal leaves
-- student 1 alone in a squad with nothing pending, and out of every other squad.
abbrev refusal : List Request
refusal = create 1 1 (2 ∷ []) ∷ create 1 2 (3 ∷ []) ∷ reply accept 1 2 20 ∷ []

stranded : eligibility (handle_all refusal class) 1 1 ≡ some already_in_squad
unfolding squad_code
stranded = refl

class-IsFormed : IsFormed class.squad_max_size class.squads
unfolding seats
class-IsFormed = record { capacity = tt; single = λ j k. omega arith }

handle-Steps_example : Steps class (handle (create 1 1 (2 ∷ [])) class)
handle-Steps_example = handle-Steps (create 1 1 (2 ∷ [])) class

handle_all-IsFormed_example :
    IsFormed (handle_all pairing class).squad_max_size (handle_all pairing class).squads
handle_all-IsFormed_example = handle_all-IsFormed pairing class class-IsFormed

abbrev teamed : Tables
teamed = record class { squads = pair ∷ [] }

handle_all-locked_example : squad_by_id (handle_all pairing teamed) 10 ≡ some pair
unfolding squad_by_id has_id
handle_all-locked_example = handle_all-locked pairing teamed 10 pair refl refl

eligible_student_ids-eligibility_example :
    (eligible_student_ids teamed 1 3 ≡ true) ↔ (eligibility teamed 1 3 ≡ none)
eligible_student_ids-eligibility_example = eligible_student_ids-eligibility teamed 1 3 (λ h. cc)

abbrev invite : SquadInvite
invite = record {
  id = 20;
  squad_id = 10;
  invited_student_id = 2;
  invited_by_student_id = some 1;
  status = SquadInviteStatus.pending;
}

abbrev alone : Squad
alone = record pair { locked = false; members = 1 ∷ [] }

-- Student 1 waits for student 2, who has a squad.
abbrev waiting : Tables
waiting = record class {
  squads =
      alone ∷ record pair { id = 11; created_by_student_id = some 2; members = 2 ∷ 3 ∷ [] } ∷ [];
  invites = invite ∷ [];
}

refused_accept_strands_example :
    let after = committed (accept_invite 20 2 waiting) in
    (squad_by_id after 10 ≡ some alone) × (is_empty after alone ≡ true)
unfolding squad_code
refused_accept_strands_example =
    refused_accept_strands waiting 20 2 invite alone already_in_squad refl refl refl refl
      (omega arith) refl refl refl

abbrev inviting : Tables
inviting = record class { squads = alone ∷ []; invites = invite ∷ [] }

last_accept_cancelled_example :
    find (λ v. v.id == 20) (committed (accept_invite 20 2 inviting)).invites
    ≡ some (record invite { status = SquadInviteStatus.cancelled })
unfolding squad_code
last_accept_cancelled_example =
    last_accept_cancelled inviting 2 invite alone refl refl refl refl (omega arith)
