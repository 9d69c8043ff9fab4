-- ===== src/Job/Passwd/Print.antt =====
-- The scan of a well-formed /etc/passwd, with its entries written out as passwd(5) says.
use text.Mathlib.TextLemmas.{cons≢nil, append-ne-nil_of_right_ne-nil}
use workbench_operator.Base.{
  ℕ, ◌<◌, ◌^◌, String, ◌<>◌, false, some, List, [], ◌∷◌, ◌≡◌, ◌≢◌, refl, ap, ◌∙◌, inl, inr, pos,
  ◌&&◌, leb, itoa, atoi-itoa, itoa-IsNumeral, All, arith, string_eq, ◌==◌, if◌then◌else◌,
}
use workbench_operator.Base.Text.{split}
use workbench_operator.Base.Text.Laws.{Lacks}
use workbench_operator.Base.Text.Split.{append-Lacks, numeral-Lacks, split-append}
use workbench_operator.Job.Passwd.{fields_user, line_user, lines_collisions, collisions}

-- An entry: the user, the UID, and the fields that follow.
pub record Entry : Type 0 where
  pub user : String
  pub uid : ℕ
  pub others : String

-- No name and no other field breaks the line, no name holds a colon, and the UID is a number of Go.
pub record IsEntry (e : Entry) : Type 0 where
  pub no_colon : Lacks b':' e.user
  pub user_line : Lacks b'\n' e.user
  pub others_line : Lacks b'\n' e.others
  pub small : e.uid < 2 ^ 63

abbrev pub print_entry : Entry → String
print_entry e =
    e.user <> String.◌∷◌ ":" ("x" <> String.◌∷◌ ":" (itoa (pos e.uid) <> String.◌∷◌ ":" e.others))

abbrev pub print_passwd : List Entry → String
print_passwd [] = ""
print_passwd (e ∷ es) = print_entry e <> String.◌∷◌ "\n" (print_passwd es)

-- What the scan is to report: the users of the reserved range, in the order of the file.
abbrev pub reserved_users : List Entry → List String
reserved_users [] = []
reserved_users (e ∷ es) =
    if leb 1001 e.uid && leb e.uid 9999
    then ("UID " <> itoa (pos e.uid) <> " (" <> e.user <> ")") ∷ reserved_users es
    else reserved_users es

x-Lacks : Lacks b':' "x"
x-Lacks = ((λ e. omega arith), tt)

print_entry-Lacks : (e : Entry) → IsEntry e → Lacks b'\n' (print_entry e)
print_entry-Lacks e h = append-Lacks b'\n' e.user _ h.user_line (
  (λ q. omega arith),
  append-Lacks b'\n' "x" _ ((λ q. omega arith), tt)
      (
        (λ q. omega arith),
        append-Lacks b'\n' (itoa (pos e.uid)) _
            (numeral-Lacks b'\n' _ (inl (omega arith)) (itoa-IsNumeral e.uid))
            ((λ q. omega arith), h.others_line),
      ),
)

split-print_entry :
    (e : Entry)
    → IsEntry e
    → split b':' (print_entry e) ≡ e.user ∷ "x" ∷ itoa (pos e.uid) ∷ split b':' e.others
split-print_entry e h =
    split-append b':' e.user ":" _ refl h.no_colon
    ∙ ap (λ r. e.user ∷ r)
        (split-append b':' "x" ":" _ refl x-Lacks
          ∙ ap (λ r. "x" ∷ r)
              (split-append b':' (itoa (pos e.uid)) ":" e.others refl
                (numeral-Lacks b':' _ (inr (omega arith)) (itoa-IsNumeral e.uid))))

line_user-print_entry :
    (e : Entry) → IsEntry e → line_user (print_entry e) ≡ some (e.user, pos e.uid)
unfolding line_user fields_user
line_user-print_entry e h =
    let some_text : print_entry e ≢ "" = append-ne-nil_of_right_ne-nil e.user (λ q. cons≢nil q) in
    let tested : (print_entry e == "") ≡ false = ground arith in
    rw (tested, split-print_entry e h, atoi-itoa e.uid h.small, fields_user) refl

no_line : lines_collisions ("" ∷ []) ≡ []
unfolding lines_collisions string_eq
no_line = refl

lines_collisions-print :
    (es : List Entry)
    → All IsEntry es
    → lines_collisions (split b'\n' (print_passwd es)) ≡ reserved_users es
unfolding lines_collisions split
lines_collisions-print [] h = no_line
lines_collisions-print (e ∷ es) (h, hs) =
    rw
      (
        split-append b'\n' (print_entry e) "\n" (print_passwd es) refl (print_entry-Lacks e h),
        line_user-print_entry e h,
        lines_collisions-print es hs,
      )
      refl

-- The scan of a file of entries that break no line, have no colon in the user and a number of Go as
-- the UID reports exactly the users whose UID is from 1001 to 9999, each with its name and UID and in
-- the order of the file.
pub collisions-print :
    (es : List Entry) → All IsEntry es → collisions (print_passwd es) ≡ reserved_users es
unfolding collisions
collisions-print es h = lines_collisions-print es h
