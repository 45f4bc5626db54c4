-- ===== src/BusCheck/Links/Laws.antt =====
-- What `find_links` (software_bus/bus_check.py) reports.
use software_bus.Prelude.{
  ℕ, fun_ext, ◌⊎◌, ◌≡◌, refl, sym, ap, ◌∙◌, arith, ◌&&◌, ◌||◌, Bool, true, false, if◌then◌else◌,
  Option, none, some, List, [], ◌∷◌, ◌++◌, append_assoc, append-nil, any, map, Bool-cases,
  Option-cases, inl, inr,
}
use software_bus.BusCheck.Ends.{
  End, end_eq, end_eq_iff, end_lt, opposite, end_pid, set_pid, IsDict, end_pid-set_pid,
  set_pid-IsDict,
}
use software_bus.BusCheck.Cycles.{Link}
use software_bus.BusCheck.Links.{
  Nodes, TcpConnection, Found, nothing_found, all_ends, node_ends, is_node, add_node_end, pair_end,
  pair_ends, find_links, pid_listens_on,
}
use software_bus.BusCheck.Links.Spec.{either, if_node, owner, link_of, is_link, different}

add_node_end_lem :
    (nodes : Nodes) (e f : End) (pid : Option ℕ) (items : List (End × ℕ))
    → end_pid e (add_node_end nodes f pid items)
      ≡ either (if end_eq f e then if_node nodes pid else none) (end_pid e items)
add_node_end_lem nodes e f none items = ground arith
add_node_end_lem nodes e f (some pid) items = ground (arith, end_pid-set_pid e f pid items)

either_assoc : (a b c : Option ℕ) → either a (either b c) ≡ either (either a b) c
either_assoc none b c = refl
either_assoc (some pid) b c = refl

either-none : (a : Option ℕ) → either a none ≡ a
either-none none = refl
either-none (some pid) = refl

-- The dict gives each end its owner.
node_ends_lem :
    (nodes : Nodes) (connections : List TcpConnection) (items : List (End × ℕ)) (e : End)
    → end_pid e (node_ends nodes (all_ends connections) items)
      ≡ either (owner nodes connections e) (end_pid e items)
unfolding node_ends all_ends owner
node_ends_lem nodes [] items e = refl
node_ends_lem nodes (c ∷ connections) items e = elim (Option-cases c.remote) [
  | inl r ↦
      rw (r, either-none (owner nodes connections e)) (node_ends_lem nodes connections items e)
  | inr (remote, r) ↦ elim (Bool-cases c.listening) [
    | inl l ↦
        rw (r, l)
          (ground (
            arith,
            either-none (owner nodes connections e),
            node_ends_lem nodes connections items e,
          ))
    | inr l ↦
        rw (r, l)
          (node_ends_lem nodes connections (add_node_end nodes (c.local, remote) c.pid items) e
            ∙ ap (either (owner nodes connections e))
                (add_node_end_lem nodes e (c.local, remote) c.pid items)
            ∙ (either_assoc (owner nodes connections e)
                  (if end_eq (c.local, remote) e then if_node nodes c.pid else none)
                  (end_pid e items)
                ∙ ground arith))
  ]
]

node_ends-IsDict :
    (nodes : Nodes) (ends : List (End × Option ℕ)) (items : List (End × ℕ))
    → IsDict items
    → IsDict (node_ends nodes ends items)
unfolding node_ends
node_ends-IsDict nodes [] items d = d
node_ends-IsDict nodes ((e, none) ∷ ends) items d = node_ends-IsDict nodes ends items d
node_ends-IsDict nodes ((e, some pid) ∷ ends) items d = elim (Bool-cases (is_node pid nodes)) [
  | inl h ↦ rw h (node_ends-IsDict nodes ends (set_pid e pid items) (set_pid-IsDict e pid items d))
  | inr h ↦ rw h (node_ends-IsDict nodes ends items d)
]

abbrev is_some : Option ℕ → Bool
is_some none = false
is_some (some pid) = true

-- The ends, of those in `left`, that make the links `links`.
record Listed (nodes : Nodes) (own : End → Option ℕ) (left : List (End × ℕ)) (links : List Link)
    : Type 0 where
  ends : List End
  once : different ends ≡ true
  made : map some links ≡ map (link_of own) ends
  listed : (e : End) → any (end_eq e) ends ≡ (is_some (end_pid e left) && is_link nodes own e)

Listed-skip :
    (nodes : Nodes) (own : End → Option ℕ) (e : End) (pid : ℕ) (left : List (End × ℕ))
    (links : List Link)
    → is_link nodes own e ≡ false
    → Listed nodes own left links
    → Listed nodes own ((e, pid) ∷ left) links
unfolding end_pid
Listed-skip nodes own e pid left links h l = record {
  ends = l.ends;
  once = l.once;
  made = l.made;
  listed = λ f. ground (arith, l.listed f, h, end_eq_iff e f, ap (is_link nodes own));
}

Listed-take :
    (nodes : Nodes) (own : End → Option ℕ) (e : End) (pid : ℕ) (left : List (End × ℕ)) (link : Link)
    (links : List Link)
    → is_link nodes own e ≡ true
    → link_of own e ≡ some link
    → end_pid e left ≡ none
    → Listed nodes own left links
    → Listed nodes own ((e, pid) ∷ left) (link ∷ links)
unfolding end_pid different
Listed-take nodes own e pid left link links h m fresh l = record {
  ends = e ∷ l.ends;
  once = ground (arith, l.once, l.listed e, fresh);
  made = ap (◌∷◌ (some link)) l.made ∙ ap (λ x. x ∷ map (link_of own) l.ends) (sym m);
  listed =
      λ f. ground (arith, l.listed f, h, end_eq_iff e f, end_eq_iff f e, ap (is_link nodes own));
}

-- An end of a node is the smaller end of a link, or adds none.
pair_end-cases :
    (nodes : Nodes) (ends : List (End × Option ℕ)) (own : End → Option ℕ) (e : End) (pid : ℕ)
    (found : Found)
    → own e ≡ some pid
    → ((link : Link) × ((pair_end nodes ends e pid (own (opposite e)) found).links
          ≡ found.links ++ link ∷ [])
        × (link_of own e ≡ some link)
        × (is_link nodes own e ≡ true))
      ⊎ (((pair_end nodes ends e pid (own (opposite e)) found).links ≡ found.links)
          × (is_link nodes own e ≡ false))
unfolding link_of is_link
pair_end-cases nodes ends own (a, b) pid found h = elim (Option-cases (own (b, a))) [
  | inl alone ↦ inr (ground (arith, alone), ground (arith, h, alone))
  | inr (other, both) ↦
      let of : link_of own (a, b) ≡ some (pid, other) = simp (h, both) refl in
      elim (Bool-cases
        ((pid_listens_on nodes pid a || pid_listens_on nodes other b) && end_lt (a, b) (b, a))) [
          | inl c ↦ inl ((pid, other), simp (both, c) refl, of, ground (arith, of, c))
          | inr c ↦ inr (simp (both, c) refl, ground (arith, of, c))
        ]
]

-- The loop adds the links of the ends that are left.
pair_ends_lem :
    (nodes : Nodes) (ends : List (End × Option ℕ)) (items left : List (End × ℕ)) (found : Found)
    → IsDict left
    → ((e : End) (pid : ℕ) → end_pid e left ≡ some pid → end_pid e items ≡ some pid)
    → (links : List Link) × ((pair_ends nodes ends items left found).links ≡ found.links ++ links)
      × Listed nodes (λ e. end_pid e items) left links
unfolding pair_ends
pair_ends_lem nodes ends items [] found d h = (
  [],
  sym (append-nil found.links),
  record {
    ends = [];
    once = unfold different in refl;
    made = refl;
    listed = λ e. unfold end_pid in refl;
  },
)
pair_ends_lem nodes ends items ((e, pid) ∷ left) found (fresh, d) h =
    let own : End → Option ℕ = λ f. end_pid f items in
    let next = pair_end nodes ends e pid (own (opposite e)) found in
    let (links, added, listed) = pair_ends_lem nodes ends items left next d (λ f p k.
      h f p
        (unfold end_pid in ground (arith, fresh, k, end_eq_iff e f, ap (λ x. end_pid x left)))) in
    let here : own e ≡ some pid = h e pid (unfold end_pid in ground (arith, end_eq_iff e e)) in
    elim (pair_end-cases nodes ends own e pid found here) [
      | inl (link, one, of, is) ↦ (
        link ∷ links,
        added ∙ ap (λ l. l ++ links) one ∙ append_assoc found.links (link ∷ []) links,
        Listed-take nodes own e pid left link links is of fresh listed,
      )
      | inr (same, not_one) ↦ (
        links,
        added ∙ ap (λ l. l ++ links) same,
        Listed-skip nodes own e pid left links not_one listed,
      )
    ]

link_of-ext :
    (own own' : End → Option ℕ) (e : End)
    → ((f : End) → own f ≡ own' f)
    → link_of own e ≡ link_of own' e
unfolding link_of
link_of-ext own own' e h = ground (arith, h e, h (opposite e))

-- `find_links` reports each link between nodes once: the links are the pids at pairwise different
-- ends, and these are all the ends that a node has by the last connection that names them, whose
-- opposite end is also a node's, where one of the two nodes listens at its own end's local address,
-- and that are the smaller one of the two ends.
pub find_links_lem :
    (connections : List TcpConnection) (nodes : Nodes)
    → (ends : List End) × (different ends ≡ true)
      × (map some (find_links connections nodes).links
          ≡ map (link_of (owner nodes connections)) ends)
      × ((e : End) → any (end_eq e) ends ≡ is_link nodes (owner nodes connections) e)
unfolding find_links
find_links_lem connections nodes =
    let items = node_ends nodes (all_ends connections) [] in
    let own : End → Option ℕ = λ e. end_pid e items in
    let same : own ≡ owner nodes connections = fun_ext (λ e.
      node_ends_lem nodes connections [] e
      ∙ unfold end_pid in either-none (owner nodes connections e)) in
    let (links, made, listed) =
      pair_ends_lem nodes (all_ends connections) items items nothing_found
        (node_ends-IsDict nodes (all_ends connections) [] tt) (λ e pid h. h) in
    (
      listed.ends,
      listed.once,
      ap (map some) made ∙ listed.made ∙ ap (λ o. map (link_of o) listed.ends) same,
      λ e. listed.listed e ∙ owned nodes own e ∙ ap (λ o. is_link nodes o e) same,
    )
  where
    owned :
        (nodes : Nodes) (own : End → Option ℕ) (e : End)
        → (is_some (own e) && is_link nodes own e) ≡ is_link nodes own e
    owned nodes own (a, b) = unfold is_link link_of in ground arith
