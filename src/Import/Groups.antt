-- ===== src/Import/Groups.antt =====
-- backend/internal/importer/jwc/parse.go and split.go: the rows of the sheet and their groups by
-- course. A map is the list of its entries in the order in which they came.
use ocm.Prelude.{
  ℕ, ◌+◌, Bool, true, false, ◌&&◌, ◌||◌, List, [], ◌∷◌, ◌++◌, any, map, length, leb, if◌then◌else◌,
  ok, err,
}
use ocm.Prelude.Ordered.{sort_by}
use ocm.Prelude.Text.{Text, codes, text_eq, join}
use ocm.Import.Cells.{Error, parse_periods, parse_weekday, expand_weeks}
use ocm.Import.Classes.{parse_admin_set, admin_set_key, text_leb}

pub record Row : Type 0 where
  pub building : Text
  pub classroom : Text
  pub room_type : Text
  pub floor : Text
  pub weekday_str : Text
  pub period_str : Text
  pub week_str : Text
  pub course_seq : Text
  pub course_code : Text
  pub course_name : Text
  pub admin_classes : Text
  pub teacher_name : Text
  pub teacher_title : Text
  pub teacher_id : Text
  pub max_students : Text
  pub college : Text
  pub requirement : Text
  pub category : Text
  pub total_hours : Text
  pub weekly_hours : Text
  pub credits : Text
  pub exam_type : Text
  pub grade : Text
  pub campus : Text
  pub room_capacity : Text
  pub row_num : ℕ

pub record Slot : Type 0 where
  pub classroom : Text
  pub weekday : ℕ
  pub period_start : ℕ
  pub period_end : ℕ
  pub weeks : List ℕ

-- A teacher under the key of the map, which is the id, or the name if there is none.
pub record Teacher : Type 0 where
  pub key : Text
  pub id : Text
  pub name : Text
  pub title : Text

pub record SeqGroup : Type 0 where
  pub seq : Text
  pub course_code : Text
  pub course_name : Text
  pub members : List Text
  pub admin_key : Text
  pub college : Text
  pub max_students : Text
  pub requirement : Text
  pub weekly_hours : Text
  pub slots : List Slot
  pub slot_seen : List Text
  pub teachers : List Teacher
  pub skipped : Bool

-- The warnings, without their wording.
pub data Warning : Type 0 where
  no_seq : ℕ → Warning
  bad_cell : ℕ → Text → Error → Warning
  no_classroom : ℕ → Text → Warning
  parallel : List Text → Warning
  no_classes : Text → Text → Warning

-- The fields of the group that nothing reads are left out.
unfoldable pub new_seq_group : Row → SeqGroup
new_seq_group r =
    let members = parse_admin_set r.admin_classes in
    record {
      seq = r.course_seq;
      course_code = r.course_code;
      course_name = r.course_name;
      members = members;
      admin_key = if leb 1 (length members) then admin_set_key members else [];
      college = r.college;
      max_students = r.max_students;
      requirement = r.requirement;
      weekly_hours = r.weekly_hours;
      slots = [];
      slot_seen = [];
      teachers = [];
      skipped = false;
    }

abbrev teacher_key : Row → Text
teacher_key r = if text_eq r.teacher_id [] then 0 ∷ r.teacher_name else r.teacher_id

unfoldable pub add_teacher : Row → SeqGroup → SeqGroup
add_teacher r g =
    if text_eq r.teacher_id [] && text_eq r.teacher_name []
      || any (λ t. text_eq t.key (teacher_key r)) g.teachers
    then g
    else record g {
      teachers =
          g.teachers
          ++ record {
            key = teacher_key r;
            id = r.teacher_id;
            name = r.teacher_name;
            title = r.teacher_title;
          }
            ∷ [];
    }

abbrev pub slot_key : Row → Text
slot_key r = join (codes "|") (r.classroom ∷ r.weekday_str ∷ r.period_str ∷ r.week_str ∷ [])

-- The mark of a cancelled lesson, which is no room.
abbrev pub is_non_physical_classroom : Text → Bool
is_non_physical_classroom s = text_eq s (codes "停课")

-- The slot of a row whose cells are read, and the warning of one whose cells are not.
unfoldable pub read_slot : Row → List Slot × List Warning
read_slot r = elim (parse_periods r.period_str) [
  | err x ↦ ([], bad_cell r.row_num r.course_seq x ∷ [])
  | ok (first, last) ↦ elim (expand_weeks r.week_str) [
    | err x ↦ ([], bad_cell r.row_num r.course_seq x ∷ [])
    | ok weeks ↦ elim (parse_weekday r.weekday_str) [
      | err x ↦ ([], bad_cell r.row_num r.course_seq x ∷ [])
      | ok day ↦
          if text_eq r.classroom []
          then ([], no_classroom r.row_num r.course_seq ∷ [])
          else if is_non_physical_classroom r.classroom
          then ([], [])
          else (
            record {
              classroom = r.classroom;
              weekday = day;
              period_start = first;
              period_end = last;
              weeks = weeks;
            }
                ∷ [],
            [],
          )
    ]
  ]
]

unfoldable pub add_slot : Row → SeqGroup → SeqGroup × List Warning
add_slot r g =
    let (slots, warnings) = read_slot r in
    if any (text_eq (slot_key r)) g.slot_seen
    then (g, [])
    else (record g { slots = g.slots ++ slots; slot_seen = slot_key r ∷ g.slot_seen }, warnings)

unfoldable pub put_row : Row → List SeqGroup → List SeqGroup × List Warning
put_row r [] =
    let (g, warnings) = add_slot r (add_teacher r (new_seq_group r)) in (g ∷ [], warnings)
put_row r (g ∷ groups) =
    let (changed, warnings) = add_slot r (add_teacher r g) in
    let (rest, others) = put_row r groups in
    if text_eq g.seq r.course_seq then (changed ∷ groups, warnings) else (g ∷ rest, others)

unfoldable pub group_by_seq : List Row → List SeqGroup → List Warning → List SeqGroup × List Warning
group_by_seq [] groups warnings = (groups, warnings)
group_by_seq (r ∷ rows) groups warnings =
    let rest = group_by_seq rows in
    let (changed, more) = put_row r groups in
    if text_eq r.course_seq []
    then rest groups (warnings ++ no_seq r.row_num ∷ [])
    else rest changed (warnings ++ more)

-- The courses of one code and one set of classes.
pub record Pair : Type 0 where
  pub code : Text
  pub admin_key : Text
  pub seqs : List Text

abbrev pub is_pair : Text → Text → Pair → Bool
is_pair code key p = text_eq p.code code && text_eq p.admin_key key

unfoldable pub put_pair : SeqGroup → List Pair → List Pair
put_pair g [] = record { code = g.course_code; admin_key = g.admin_key; seqs = g.seq ∷ [] } ∷ []
put_pair g (p ∷ pairs) =
    let rest = put_pair g pairs in
    if is_pair g.course_code g.admin_key p
    then record p { seqs = p.seqs ++ g.seq ∷ [] } ∷ pairs
    else p ∷ rest

unfoldable pub collect_pairs : List SeqGroup → List Pair → List Pair
collect_pairs [] pairs = pairs
collect_pairs (g ∷ groups) pairs =
    collect_pairs groups (if text_eq g.admin_key [] then pairs else put_pair g pairs)

-- A pair with several courses skips all of them.
abbrev pub skips : Text → Pair → Bool
skips seq p = leb 2 (length p.seqs) && any (text_eq seq) p.seqs

abbrev pub mark : List Pair → SeqGroup → SeqGroup
mark pairs g = if any (skips g.seq) pairs then record g { skipped = true } else g

abbrev pub parallel_warnings : List Pair → List Warning
parallel_warnings [] = []
parallel_warnings (p ∷ pairs) =
    let rest = parallel_warnings pairs in
    if leb 2 (length p.seqs) then parallel (sort_by text_leb p.seqs) ∷ rest else rest

abbrev pub parallel_count : List Pair → ℕ
parallel_count [] = 0
parallel_count (p ∷ pairs) =
    let rest = parallel_count pairs in if leb 2 (length p.seqs) then length p.seqs + rest else rest

-- The groups, how many are skipped, and the warnings.
unfoldable pub mark_parallel : List SeqGroup → List SeqGroup × ℕ × List Warning
mark_parallel groups =
    let pairs = collect_pairs groups [] in
    (map (mark pairs) groups, parallel_count pairs, parallel_warnings pairs)
