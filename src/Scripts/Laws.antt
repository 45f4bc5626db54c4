-- ===== src/Scripts/Laws.antt =====
-- How the scripts (software_bus/_cli.py) end, and what they have done then.
use software_bus.Prelude.{
  arith, ◌&&◌, ◌≡◌, refl, ap, not, ◌||◌, Bool, true, false, if◌then◌else◌, List, [], ◌∷◌, ◌++◌,
  none, some, Result, ◌⊎◌, inl, inr, Option-cases,
}
use software_bus.Text.{Text}
use software_bus.Scripts.{
  Act, closes, Outcome, waiting, returned, raised, Raised, connection_lost, Watch, quiet, lost,
  interrupted, perform, closing, until_lost, check_subjects, run_client,
}

abbrev pub is_waiting : Outcome → Bool
is_waiting waiting = true
is_waiting o = false

abbrev pub is_returned : Outcome → Bool
is_returned returned = true
is_returned o = false

abbrev pub is_lost : Watch → Bool
is_lost lost = true
is_lost watch = false

abbrev pub is_connection_lost : Outcome → Bool
is_connection_lost (raised connection_lost) = true
is_connection_lost o = false

abbrev pub nothing_left : List Act → Bool
nothing_left [] = true
nothing_left (act ∷ acts) = false

-- Once a script has ended, the closing of its client or node comes last.
abbrev pub closed_after : Outcome → List Act → List Act
closed_after o acts = if is_waiting o then acts else acts ++ closes ∷ []

perform_lem :
    (acts : List Act) (last : Outcome) (endings : List Outcome)
    → (rest : List Act) × ((perform acts last endings).0 ++ rest ≡ acts)
      × ((not (is_returned (perform acts last endings).1)
            || (nothing_left rest && is_returned last))
          ≡ true)
unfolding perform
perform_lem [] last es = ([], refl, ground arith)
perform_lem (act ∷ acts) last [] = (acts, refl, refl)
perform_lem (act ∷ acts) last (waiting ∷ es) = (acts, refl, refl)
perform_lem (act ∷ acts) last (raised e ∷ es) = (acts, refl, refl)
perform_lem (act ∷ acts) last (returned ∷ es) =
    let (rest, e, f) = perform_lem acts last es in (rest, ap (λ others. act ∷ others) e, f)

pub closing_lem : (acts : List Act) (o : Outcome) → closing (acts, o) ≡ (closed_after o acts, o)
closing_lem acts waiting = refl
closing_lem acts returned = refl
closing_lem acts (raised e) = refl

until_lost-returned :
    (watch : Watch) (o : Outcome) (b : Bool)
    → (not (is_returned o) || b) ≡ true
    → (not (is_returned (until_lost watch o)) || b) ≡ true
until_lost-returned quiet o b h = h
until_lost-returned lost o b h = refl
until_lost-returned interrupted waiting b h = refl
until_lost-returned interrupted returned b h = h
until_lost-returned interrupted (raised e) b h = refl

until_lost-lost :
    (watch : Watch) (o : Outcome)
    → (not (is_lost watch) || is_connection_lost (until_lost watch o)) ≡ true
until_lost-lost quiet o = refl
until_lost-lost lost o = refl
until_lost-lost interrupted waiting = refl
until_lost-lost interrupted returned = refl
until_lost-lost interrupted (raised e) = refl

-- A client's script with a subject that is refused does nothing but raise that. One whose subjects
-- all pass makes the calls of its body in order, from the first on, and where it has ended it has
-- closed the client once, as the last call. It returns only after all of its body, where that returns
-- too, and where the connection has been lost, it raises ConnectionLost whatever its calls come to.
pub run_client_lem :
    (check : Text → Result (Unit {0})) (subjects : List Text) (acts : List Act) (last : Outcome)
    (endings : List Outcome) (watch : Watch)
    → let r = run_client check subjects (acts, last) endings watch in
      ((e : Raised) × (check_subjects check subjects ≡ some e) × (r ≡ ([], raised e)))
      ⊎ ((check_subjects check subjects ≡ none)
          × (begun : List Act) × (rest : List Act) × (begun ++ rest ≡ acts)
          × (r.0 ≡ closed_after r.1 begun)
          × ((not (is_returned r.1) || (nothing_left rest && is_returned last)) ≡ true)
          × ((not (is_lost watch) || is_connection_lost r.1) ≡ true))
unfolding run_client
run_client_lem check subjects acts last endings watch =
    elim (Option-cases (check_subjects check subjects)) [
      | inr (e, f) ↦ inl (e, f, rw (f, run_client) refl)
      | inl f ↦
          let (rest, p, q) = perform_lem acts last endings in
          let (begun, end) = perform acts last endings in
          let o = until_lost watch end in
          let whole : run_client check subjects (acts, last) endings watch
              ≡ (closed_after o begun, o) =
            rw (f, run_client) (closing_lem begun o) in
          inr (
            f,
            begun,
            rest,
            p,
            rw whole refl,
            rw whole (until_lost-returned watch end (nothing_left rest && is_returned last) q),
            rw whole (until_lost-lost watch end),
          )
    ]
