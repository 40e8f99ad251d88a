-- ===== src/Import/Classes.antt =====
-- backend/internal/importer/jwc/teaching.go: the administrative classes of a course and the name of
-- the teaching class that they form.
use mathlib.Core.List.{reverse}
use ocm.Prelude.{
  ℕ, suc, ◌-◌, ◌^◌, Bool, true, false, not, ◌&&◌, ◌||◌, List, [], ◌∷◌, ◌++◌, Option, none, some,
  any, length, leb, ltb, ◌==◌, if◌then◌else◌,
}
use ocm.Prelude.Text.{Text, codes, text_eq, trim_space, split_on, join, decimal}
use ocm.Prelude.Ordered.{sort_by}
use ocm.Calendar.{is_digit}
use ocm.Import.Cells.{digits_after}

-- The order of Go's strings.
abbrev pub text_leb : Text → Text → Bool
text_leb [] t = true
text_leb (c ∷ s) [] = false
text_leb (c ∷ s) (d ∷ t) = ltb c d || c == d && text_leb s t

-- The loop over the parts of the cell, with the members found so far.
unfoldable pub collect_members : List Text → List Text → List Text
collect_members [] members = members
collect_members (part ∷ parts) members =
    let rest = collect_members parts in
    let p = trim_space part in
    if text_eq p [] || any (text_eq p) members then rest members else rest (members ++ p ∷ [])

-- No member is the `false` result.
unfoldable pub parse_admin_set : Text → List Text
parse_admin_set cell = collect_members (split_on b',' cell) []

unfoldable pub admin_set_key : List Text → Text
admin_set_key members = join (codes ",") (sort_by text_leb members)

-- The digits at the front of a reversed name, and the rest.
unfoldable pub leading_digits : Text → Text × Text
leading_digits [] = ([], [])
leading_digits (c ∷ s) =
    let rest = leading_digits s in if is_digit c then (c ∷ rest.0, rest.1) else ([], c ∷ s)

unfoldable pub split_trailing_digits : Text → Text × Text
split_trailing_digits name =
    let (digits, prefix) = leading_digits (reverse name) in (reverse prefix, reverse digits)

unfoldable pub grade_for : Text → Text → Text
grade_for name source =
    if not (text_eq (trim_space source) [])
    then trim_space source
    else elim (split_trailing_digits name).1 [
      | [] ↦ []
      | a ∷ [] ↦ []
      | a ∷ b ∷ digits ↦ b'2' ∷ b'0' ∷ a ∷ b ∷ []
    ]

-- A class with its trailing number, if it has one.
pub record Entry : Type 0 where
  pub num : Option ℕ
  pub name : Text

pub record Group : Type 0 where
  pub prefix : Text
  pub entries : List Entry

-- A number that does not fit 63 bits is taken for the largest that does.
unfoldable pub number_of : Text → Option ℕ
number_of [] = none
number_of (c ∷ digits) = elim (digits_after 0 (c ∷ digits)) [
  | none ↦ some 0
  | some n ↦ some (if ltb n (2 ^ 63) then n else 2 ^ 63 - 1)
]

unfoldable pub put_entry : Text → Entry → List Group → List Group
put_entry prefix e [] = record { prefix = prefix; entries = e ∷ [] } ∷ []
put_entry prefix e (g ∷ groups) =
    let rest = put_entry prefix e groups in
    if text_eq g.prefix prefix
    then record { prefix = g.prefix; entries = g.entries ++ e ∷ [] } ∷ groups
    else g ∷ rest

-- The groups in the order in which their prefixes come.
unfoldable pub group_members : List Text → List Group → List Group
group_members [] groups = groups
group_members (m ∷ members) groups =
    let (prefix, digits) = split_trailing_digits m in
    group_members members (put_entry prefix (record { num = number_of digits; name = m }) groups)

pub record Numbered : Type 0 where
  pub num : ℕ
  pub name : Text

unfoldable pub numbered : List Entry → List Numbered
numbered [] = []
numbered (e ∷ es) =
    let rest = numbered es in
    elim e.num [ none ↦ rest | some n ↦ record { num = n; name = e.name } ∷ rest ]

unfoldable pub unnumbered : List Entry → List Text
unnumbered [] = []
unnumbered (e ∷ es) =
    let rest = unnumbered es in elim e.num [ none ↦ e.name ∷ rest | some n ↦ rest ]

-- The text of a run of consecutive numbers from an entry to a number.
unfoldable pub run_text : Text → Numbered → ℕ → Text
run_text prefix start end =
    if start.num == end then start.name else prefix ++ decimal start.num ++ codes "~" ++ decimal end

-- The runs of ascending entries, the current one from `start` to `end`.
unfoldable pub runs : Text → Numbered → ℕ → List Numbered → List Text
runs prefix start end [] = run_text prefix start end ∷ []
runs prefix start end (e ∷ es) =
    let longer = runs prefix start e.num es in
    let next = runs prefix e e.num es in
    if e.num == suc end then longer else run_text prefix start end ∷ next

unfoldable pub number_parts : Text → List Numbered → List Text
number_parts prefix [] = []
number_parts prefix (e ∷ es) = runs prefix e e.num es

unfoldable pub group_parts : List Group → List Text
group_parts [] = []
group_parts (g ∷ groups) =
    number_parts g.prefix (sort_by (λ a b. leb a.num b.num) (numbered g.entries))
    ++ unnumbered g.entries
    ++ group_parts groups

unfoldable pub compress_name : List Text → Text
compress_name members = join (codes ",") (group_parts (group_members members []))

abbrev pub max_name_len : ℕ
max_name_len = 64

-- The name and the note of a name that is too long. `none` is the panic of an index out of range.
unfoldable pub long_name : List Text → Option (Text × Text)
long_name [] = none
long_name (a ∷ []) = none
long_name (a ∷ b ∷ rest) = some (
  a ++ codes "," ++ b ++ codes "等" ++ decimal (length (a ∷ b ∷ rest)) ++ codes "班",
  join (codes ",") (a ∷ b ∷ rest),
)

unfoldable pub teaching_class_name : List Text → Option (Text × Text)
teaching_class_name members =
    let name = compress_name members in
    if leb (length name) max_name_len then some (name, []) else long_name members
