-- ===== src/Examples/Boards.antt =====
-- The theorems on boards at sample inputs.
use repo_link.Prelude.{
  ℕ, true, false, some, [], ◌∷◌, ◌≡◌, refl, any, find, retain, contains, List-discrete, ℕ_discrete,
}
use repo_link.Prelude.Text.{Text, codes, to_ascii_lowercase}
use repo_link.Core.{ok}
use repo_link.Task.Enums.{p0}
use repo_link.Project.Field.{ProjectFieldKind-discrete}
use repo_link.Project.Board.{from_fields, priority_for_option_id, option_id_for}
use repo_link.Project.Board.Valid.{IsValid, from_fields-IsValid}
use repo_link.Examples.Fixtures.{fields, board, open_row, closed_row, urgent_row}

built :
    from_fields
      (codes "B")
      (codes "octo")
      3
      (codes "Roadmap")
      fields
      (open_row ∷ closed_row ∷ [])
      (urgent_row ∷ [])
      false
      5
    ≡ ok board
unfolding from_fields retain ProjectFieldKind-discrete ℕ_discrete any find List-discrete contains
built = refl

from_fields-IsValid_example : IsValid board
from_fields-IsValid_example =
    from_fields-IsValid (codes "B") (codes "octo") 3 (codes "Roadmap") fields
      (open_row ∷ closed_row ∷ []) (urgent_row ∷ []) false 5 board built

pub valid : IsValid board
valid =
    from_fields-IsValid (codes "B") (codes "octo") 3 (codes "Roadmap") fields
      (open_row ∷ closed_row ∷ []) (urgent_row ∷ []) false 5 board built

read_urgent : priority_for_option_id board (codes "u0") ≡ some p0
unfolding priority_for_option_id find List-discrete ℕ_discrete
read_urgent = refl

open_id : option_id_for board true ≡ some (codes "o1")
unfolding option_id_for find
open_id = refl

-- Lower case of the ASCII letters alone.
abbrev lower : ℕ → Text
unfolding to_ascii_lowercase
lower c = to_ascii_lowercase c ∷ []
