-- ===== src/BusCheck/Run.antt =====
-- `run` of software_bus/bus_check.py: the exit status of bus_check. What `collect` returns is an
-- argument, `none` where it raises a CheckError.
pub mod Tests
use software_bus.Prelude.{
  All, subst₂, member, ◌&&◌, ℕ, ◌≡◌, refl, sym, subst, ap, ◌∙◌, ◌↔◌, arith, Bool, true, false,
  if◌then◌else◌, Option, none, some, List, [], ◌∷◌,
}
use software_bus.BusCheck.Cycles.{Link, ◌>>=◌}
use software_bus.BusCheck.Cycles.Spec.{
  joined, Connected, IsCycle, Reported, no_more, closing, joining,
}
use software_bus.BusCheck.Links.{
  pids_of, Nodes, TcpConnection, Report, fill_listening, find_links, check,
}
use software_bus.BusCheck.Links.Checked.{check-Reported, find_links-ends}
use software_bus.BusCheck.Report.{format_report}
use software_bus.BusCheck.Report.Laws.{some_of, format_report_known}
use software_bus.Text.{Text}

abbrev pub exit_ok : ℕ
exit_ok = 0

abbrev pub exit_cycles : ℕ
exit_cycles = 1

abbrev pub exit_error : ℕ
exit_error = 2

abbrev pub status_of : List (List ℕ) → ℕ
status_of [] = exit_ok
status_of (cycle ∷ cycles) = exit_cycles

-- The report that is printed, and the status.
unfoldable pub run : Option (Nodes × List TcpConnection) → Option (Option Text × ℕ)
run none = some (none, exit_error)
run (some (nodes, connections)) = do
  report ← check nodes connections
  text ← format_report report
  some (some text, status_of report.cycles)

abbrev pub exit_status : Option (Option Text × ℕ) → Option ℕ
exit_status none = none
exit_status (some (printed, status)) = some status

-- The links between the nodes that `run` looks at.
abbrev pub links_between : Nodes → List TcpConnection → List Link
links_between nodes connections = (find_links connections (fill_listening connections nodes)).links

-- No link has ends that the links before it connect.
pub data IsForest : List Link → List Link → Type 0 where
  no_link : {seen : List Link} → IsForest seen []
  apart :
      {seen : List Link} {a b : ℕ} {links : List Link}
      → ¬ Connected (joined seen) a b
      → IsForest ((a, b) ∷ seen) links
      → IsForest seen ((a, b) ∷ links)

Reported-IsForest : {seen links : List Link} → Reported seen links [] → IsForest seen links
Reported-IsForest no_more = no_link
Reported-IsForest (joining n r) = apart n (Reported-IsForest r)

Reported-cycle :
    {seen links : List Link} {cycle : List ℕ} {cycles : List (List ℕ)}
    → Reported seen links (cycle ∷ cycles)
    → ¬ IsForest seen links
Reported-cycle (closing c i r) (apart n f) = n c
Reported-cycle (joining m r) (apart n f) = Reported-cycle r f

by_cycles :
    (links : List Link) (cycles : List (List ℕ))
    → Reported [] links cycles
    → ((status_of cycles ≡ exit_ok) ↔ IsForest [] links)
      × ((status_of cycles ≡ exit_cycles) ↔ (¬ IsForest [] links))
by_cycles links [] r = (
  (λ e. Reported-IsForest r, λ f. refl),
  (λ e. absurd (omega (arith, e)), λ n. absurd (n (Reported-IsForest r))),
)
by_cycles links (cycle ∷ cycles) r = (
  (λ e. absurd (omega (arith, e)), λ f. absurd (Reported-cycle r f)),
  (λ e. Reported-cycle r, λ n. refl),
)

-- bus_check always exits: with 2 where its nodes cannot be found, and else, once its report is printed,
-- with 0 exactly if no link between the nodes has ends that the links before it connect, and with 1
-- exactly if one has.
pub run_lem :
    (nodes : Nodes) (connections : List TcpConnection)
    → (exit_status (run none) ≡ some exit_error)
      × ((text : Text) × (status : ℕ) × (run (some (nodes, connections))
            ≡ some (some text, status)))
      × ((exit_status (run (some (nodes, connections))) ≡ some exit_ok)
          ↔ IsForest [] (links_between nodes connections))
      × ((exit_status (run (some (nodes, connections))) ≡ some exit_cycles)
          ↔ (¬ IsForest [] (links_between nodes connections)))
unfolding run
run_lem nodes connections =
    let (report, done, whose, links, reported) = check-Reported nodes connections in
    let known =
      subst₂
        (λ n l. All (λ link. (member link.0 (pids_of n) && member link.1 (pids_of n)) ≡ true) l)
        (sym whose) (sym links) (find_links-ends (fill_listening connections nodes) connections) in
    let (text, printed) =
      some_of (format_report report) (format_report_known report known reported) in
    let whole : run (some (nodes, connections)) ≡ some (some text, status_of report.cycles) =
      ap
        (λ r. r >>= λ (report : Report).
          format_report report >>= λ (text : Text). some (some text, status_of report.cycles))
        done
      ∙ ap (λ t. t >>= λ (text : Text). some (some text, status_of report.cycles)) printed in
    let status : exit_status (run (some (nodes, connections))) ≡ some (status_of report.cycles) =
      ap exit_status whole in
    let ((forest, ok), (cyclic, cycles)) =
      by_cycles (links_between nodes connections) report.cycles
        (subst (λ l. Reported [] l report.cycles) links reported) in
    (
      refl,
      (text, status_of report.cycles, whole),
      (λ e. forest (some_same (sym status ∙ e)), λ f. status ∙ ap some (ok f)),
      (λ e. cyclic (some_same (sym status ∙ e)), λ f. status ∙ ap some (cycles f)),
    )
  where
    some_same : {m n : ℕ} → some m ≡ some n → m ≡ n
    some_same e = ground (arith, e)
