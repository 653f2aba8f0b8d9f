-- ===== src/Squads/Invariants.antt =====
-- What holds of the squads over any sequence of requests.
use submissions_checker.Prelude.{
  ℕ, ◌≡◌, refl, ◌≢◌, ◌↔◌, true, none, some, List, [], ◌∷◌, arith, any, find, is_some,
}
use submissions_checker.Squads.State.{
  Squad, Tables, squad_by_id, eligibility, eligible_student_ids, squad_of, seats_student,
}
use submissions_checker.Squads.Requests.{Request, handle, handle_all}
use submissions_checker.Squads.Steps.{IsFormed, SquadStep-IsFormed}
use submissions_checker.Squads.Locking.{SquadStep-locked}
use submissions_checker.Squads.Refinement.{handle-Steps}

handle-IsFormed :
    (r : Request) (db : Tables)
    → IsFormed db.squad_max_size db.squads
    → IsFormed (handle r db).squad_max_size (handle r db).squads
handle-IsFormed r db f =
    let st = handle-Steps r db in rw st.sizes (SquadStep-IsFormed db.squad_max_size st.step f)

-- After any requests no squad is larger than its subject allows, and no student has two seats in
-- one subject, if that was so before them.
pub handle_all-IsFormed :
    (rs : List Request) (db : Tables)
    → IsFormed db.squad_max_size db.squads
    → IsFormed (handle_all rs db).squad_max_size (handle_all rs db).squads
unfolding handle_all
handle_all-IsFormed [] db f = f
handle_all-IsFormed (r ∷ rs) db f = handle_all-IsFormed rs (handle r db) (handle-IsFormed r db f)

-- A squad that is locked stays what it is through any requests: the same members, still locked, and
-- never deleted.
pub handle_all-locked :
    (rs : List Request) (db : Tables) (i : ℕ) (s : Squad)
    → s.locked ≡ true
    → squad_by_id db i ≡ some s
    → squad_by_id (handle_all rs db) i ≡ some s
unfolding handle_all squad_by_id
handle_all-locked [] db i s l e = e
handle_all-locked (r ∷ rs) db i s l e =
    handle_all-locked rs (handle r db) i s l
      (SquadStep-locked i l db.squad_max_size (handle-Steps r db).step e)

any-find :
    (j k : ℕ) (xs : List Squad) → any (seats_student j k) xs ≡ is_some (find (seats_student j k) xs)
any-find j k [] = refl
any-find j k (s ∷ xs) = ground (arith, any-find j k xs)

-- The set query of eligible_student_ids holds exactly the students whom eligibility, asked one by
-- one, accepts. The student has a row in `students`.
pub eligible_student_ids-eligibility :
    (db : Tables) (j k : ℕ)
    → db.student_type k ≢ none
    → (eligible_student_ids db j k ≡ true) ↔ (eligibility db j k ≡ none)
unfolding eligible_student_ids eligibility squad_of
eligible_student_ids-eligibility db j k known = (
  λ h. ground (arith, any-find j k db.squads),
  λ h. ground (arith, known, any-find j k db.squads),
)
