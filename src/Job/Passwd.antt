-- ===== src/Job/Passwd.antt =====
-- The scan of an image's /etc/passwd for users in the reserved range.
pub mod Laws
pub mod Print
use workbench_operator.Base.{
  String, ◌<>◌, Bool, Option, none, some, List, [], ◌∷◌, ◌&&◌, ℤ, pos, string_eq, ◌==◌,
  if◌then◌else◌, itoa, atoi, leb_ℤ,
}
use workbench_operator.Base.Text.{split}

-- 1001 to 9999, the UIDs of Chorus users.
abbrev pub is_reserved : ℤ → Bool
is_reserved uid = leb_ℤ (pos 1001) uid && leb_ℤ uid (pos 9999)

-- The name and the UID of a line. A line with fewer than three fields has none, and so has one
-- whose third field is no number.
fields_user : List String → Option (String × ℤ)
fields_user [] = none
fields_user (_ ∷ []) = none
fields_user (_ ∷ _ ∷ []) = none
fields_user (username ∷ _ ∷ uid ∷ _) = elim (atoi uid) [ none ↦ none | some n ↦ some (username, n) ]

unfoldable pub line_user : String → Option (String × ℤ)
unfolding fields_user split atoi
line_user line = if line == "" then none else fields_user (split b':' line)

abbrev pub describe : String → ℤ → String
describe username uid = "UID " <> itoa uid <> " (" <> username <> ")"

abbrev collision : Option (String × ℤ) → List String → List String
collision none rest = rest
collision (some (username, uid)) rest =
    if is_reserved uid then describe username uid ∷ rest else rest

lines_collisions : List String → List String
unfolding line_user itoa
lines_collisions [] = []
lines_collisions (line ∷ lines) = collision (line_user line) (lines_collisions lines)

-- The loop of `checkImageForUIDCollisions` on the output of the container tool.
unfoldable pub collisions : String → List String
unfolding lines_collisions split
collisions output = lines_collisions (split b'\n' output)
