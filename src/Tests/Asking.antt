-- ===== src/Tests/Asking.antt =====
-- Answers at a terminal, and two of them in a pipe.
use erie_canal_net.Base.{
  ◌≡◌, refl, true, List, [], ◌∷◌, ◌++◌, none, some, Text, codes, to_lower, nat_eq, list_eq,
}
use erie_canal_net.Cli.Confirm.{confirm}
use erie_canal_net.Cli.Confirm.Replies.{confirm_loses}

abbrev typed : Text → Text
typed words = words ++ 10 ∷ []

abbrev answers : List Text
answers = typed (codes "what") ∷ typed (codes " Y ") ∷ []

-- `yes` of a shell
confirm_loses_example :
    ((confirm ((typed (codes "y") ++ typed (codes "y")) ∷ []) 3).0 ≡ some true)
    × ((confirm (confirm ((typed (codes "y") ++ typed (codes "y")) ∷ []) 3).1 3).0 ≡ none)
unfolding to_lower
confirm_loses_example =
    confirm_loses (typed (codes "y")) (typed (codes "y")) true 2 2 (codes "y", refl, refl) refl
