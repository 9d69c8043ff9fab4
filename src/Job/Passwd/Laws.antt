-- ===== src/Job/Passwd/Laws.antt =====
-- The scan of /etc/passwd against a plain description of it (job.go).
use workbench_operator.Base.{
  ℕ, ◌≤◌, String, true, Option, some, pos, negsuc, atoi, ap, ◌∙◌, string_eq, ◌==◌, List, [], ◌∷◌,
  ◌≡◌, refl, ◌≢◌, ◌↔◌, inl, inr, Any, ℤ, Bool-cases, Option-cases, arith,
}
use workbench_operator.Base.Text.{split}
use workbench_operator.Job.Passwd.{
  is_reserved, fields_user, line_user, lines_collisions, collisions,
}

-- A line of at least three fields between colons, the third of which is a number from 1001 to 9999.
abbrev pub TakesReserved : String → Type 0
TakesReserved line =
    (user password uid : String) × (others : List String) × (n : ℕ) × (split b':' line
      ≡ user ∷ password ∷ uid ∷ others)
    × (atoi uid ≡ some (pos n))
    × (1001 ≤ n)
    × (n ≤ 9999)

-- What the scan reads in a line.
TakenBy : Option (String × ℤ) → Type 0
TakenBy o = (name : String) × (n : ℕ) × (o ≡ some (name, pos n)) × (1001 ≤ n) × (n ≤ 9999)

is_reserved_lem :
    (uid : ℤ) → is_reserved uid ≡ true → (n : ℕ) × (uid ≡ pos n) × (1001 ≤ n) × (n ≤ 9999)
is_reserved_lem (pos n) e = (n, refl, ground arith, ground arith)
is_reserved_lem (negsuc n) e = ground arith

fields_user-TakenBy :
    (line : String) (fields : List String)
    → split b':' line ≡ fields
    → TakenBy (fields_user fields) ↔ TakesReserved line
unfolding fields_user TakenBy
fields_user-TakenBy line [] e =
    (λ (name, n, p, _, _). cc, λ (user, password, uid, others, n, p, _, _, _). cc)
fields_user-TakenBy line (_ ∷ []) e =
    (λ (name, n, p, _, _). cc, λ (user, password, uid, others, n, p, _, _, _). cc)
fields_user-TakenBy line (_ ∷ _ ∷ []) e =
    (λ (name, n, p, _, _). cc, λ (user, password, uid, others, n, p, _, _, _). cc)
fields_user-TakenBy line (user ∷ password ∷ uid ∷ others) e = elim (Option-cases (atoi uid)) [
  | inl missing ↦
      (λ (name, n, p, _, _). ground arith, λ (user', password', uid', others', n, p, q, _, _). cc)
  | inr (z, read) ↦ (
    λ (name, n, p, low, high). (user, password, uid, others, n, e, ground arith, low, high),
    λ (user', password', uid', others', n, p, q, low, high). (user, n, ground arith, low, high),
  )
]

empty_fields : split b':' "" ≡ "" ∷ []
unfolding split
empty_fields = refl

line_user-TakenBy : (line : String) → TakenBy (line_user line) ↔ TakesReserved line
unfolding line_user
line_user-TakenBy line = elim (Bool-cases (line == "")) [
  | inl empty ↦
      let same : line ≡ "" = ground arith in
      let fields = ap (split b':') same ∙ empty_fields in
      rw empty (fields_user-TakenBy line ("" ∷ []) fields)
  | inr text ↦ rw text (fields_user-TakenBy line (split b':' line) refl)
]

lines_collisions-TakesReserved :
    (lines : List String) → (lines_collisions lines ≢ []) ↔ Any TakesReserved lines
unfolding lines_collisions TakenBy
lines_collisions-TakesReserved [] = (λ n. n refl, λ m. absurd m)
lines_collisions-TakesReserved (line ∷ lines) =
    let ih = lines_collisions-TakesReserved lines in
    let here = line_user-TakenBy line in
    elim (Option-cases (line_user line)) [
      | inl missing ↦ (
        λ n. inr (ih.0 (λ e. n (rw missing e))),
        λ m. elim m [
          | inl t ↦ (let (_, _, e, _, _) = here.1 t in cc)
          | inr m ↦ rw missing (ih.1 m)
        ],
      )
      | inr ((name, uid), e) ↦ elim (Bool-cases (is_reserved uid)) [
        | inl taken ↦
            let (n, same, low, high) = is_reserved_lem uid taken in
            (
              λ _. inl (here.0 (name, n, e ∙ ap (λ z. some (name, z)) same, low, high)),
              λ _. rw (e, taken) (λ q. cc),
            )
        | inr free ↦ (
          λ n. inr (ih.0 (λ q. n (rw (e, free) q))),
          λ m. elim m [
            | inl t ↦ (let (_, n, f, low, high) = here.1 t in absurd (ground arith))
            | inr m ↦ rw (e, free) (ih.1 m)
          ],
        )
      ]
    ]

-- The scan of an image's /etc/passwd reports a collision exactly where one of the lines of the output
-- has at least three fields between colons, the third of which is a number from 1001 to 9999.
pub collisions-TakesReserved :
    (output : String) → (collisions output ≢ []) ↔ Any TakesReserved (split b'\n' output)
unfolding collisions
collisions-TakesReserved output = lines_collisions-TakesReserved (split b'\n' output)
