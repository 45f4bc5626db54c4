-- ===== src/PubSub/Subscriptions.antt =====
-- The subscription tables of `PubSubNode` (software_bus/pubsub.py): `_add_subscriber`,
-- `_discard_subscriber`, `_matching_connections`. A dict is the list of its items, oldest first.
pub mod Laws
pub mod Matching
pub mod Tests
use software_bus.Prelude.{
  ℕ, not, Bool, true, false, if◌then◌else◌, List, [], ◌∷◌, ◌++◌, member, remove,
}
use software_bus.Text.{Text, text_eq}
use software_bus.SubjectMatcher.{match}

abbrev pub Table : Type 0
Table = List (Text × List ℕ)

-- `subscriptions.get(subject, [])`
unfoldable pub get : Text → Table → List ℕ
get subject [] = []
get subject ((s, cs) ∷ t) = if text_eq s subject then cs else get subject t

abbrev pub append_new : ℕ → List ℕ → List ℕ
append_new c cs = if member c cs then cs else cs ++ c ∷ []

unfoldable pub add_subscriber : Text → ℕ → Table → Table
add_subscriber subject c [] = (subject, c ∷ []) ∷ []
add_subscriber subject c ((s, cs) ∷ t) =
    let rest = add_subscriber subject c t in
    if text_eq s subject then (s, append_new c cs) ∷ t else (s, cs) ∷ rest

-- The entry is dropped with its last connection.
abbrev pub put_back : Text → List ℕ → Table → Table
put_back s [] t = t
put_back s (c ∷ cs) t = (s, c ∷ cs) ∷ t

unfoldable pub remove_subscriber : Text → ℕ → Table → Table
remove_subscriber subject c [] = []
remove_subscriber subject c ((s, cs) ∷ t) =
    let rest = remove_subscriber subject c t in
    if text_eq s subject then put_back s (remove c cs) t else (s, cs) ∷ rest

-- Whether the connection was there, and the table after it.
unfoldable pub discard_subscriber : Text → ℕ → Table → Bool × Table
discard_subscriber subject c t =
    if member c (get subject t) then (true, remove_subscriber subject c t) else (false, t)

-- `connections.update(dict.fromkeys(cs))`, over the keys.
unfoldable pub update_keys : List ℕ → List ℕ → List ℕ
update_keys keys [] = keys
update_keys keys (c ∷ cs) = update_keys (append_new c keys) cs

unfoldable pub matching_loop : Text → List ℕ → Table → List ℕ
matching_loop subject keys [] = keys
matching_loop subject keys ((s, cs) ∷ t) =
    matching_loop subject (if match subject s then update_keys keys cs else keys) t

unfoldable pub matching_connections : Text → Table → List ℕ
matching_connections subject t = matching_loop subject [] t
