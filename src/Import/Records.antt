-- ===== src/Import/Records.antt =====
-- backend/internal/importer/jwc/split.go: the records of the six sheets.
use ocm.Prelude.{
  ℕ, ◌+◌, Bool, ◌||◌, List, [], ◌∷◌, ◌++◌, Option, none, some, any, map, if◌then◌else◌,
}
use ocm.Prelude.Ordered.{sort_by}
use ocm.Prelude.Text.{Text, codes, text_eq, join}
use ocm.Calendar.{Date}
use ocm.Import.Classes.{text_leb, parse_admin_set, grade_for, teaching_class_name}
use ocm.Import.Dates.{SessionCell, expand_slot}
use ocm.Import.Groups.{Row, Slot, Teacher, SeqGroup, Warning, no_classes, is_non_physical_classroom}
use ocm.Import.Regimes.{SessionRec}

-- A value of the code that a lookup in a map gives.
unfoldable pub map_room_type : Text → Text
map_room_type s =
    if text_eq s (codes "多媒体教室")
    then codes "multimedia"
    else if text_eq s (codes "机房")
    then codes "computer"
    else if text_eq s (codes "实验室")
    then codes "lab"
    else if text_eq s (codes "体育场")
    then codes "stadium"
    else if text_eq s (codes "制图教室")
    then codes "drawing"
    else if text_eq s (codes "听力教室")
    then codes "language"
    else if text_eq s (codes "画室")
    then codes "studio"
    else if text_eq s (codes "专用教室")
    then codes "special"
    else codes "standard"

pub record ClassroomRec : Type 0 where
  pub name : Text
  pub building : Text
  pub capacity : Text
  pub type : Text
  pub floor : Text
  pub campus : Text

-- The rooms in the order in which they come, those found so far in `rooms`.
unfoldable pub collect_classrooms : List Row → List ClassroomRec → List ClassroomRec
collect_classrooms [] rooms = rooms
collect_classrooms (r ∷ rows) rooms =
    let rest = collect_classrooms rows in
    if text_eq r.classroom []
      || is_non_physical_classroom r.classroom
      || any (λ c. text_eq c.name r.classroom) rooms
    then rest rooms
    else rest (
        rooms
        ++ record {
          name = r.classroom;
          building = r.building;
          capacity = r.room_capacity;
          type = map_room_type r.room_type;
          floor = r.floor;
          campus = r.campus;
        }
          ∷ [])

unfoldable pub build_classrooms : List Row → List ClassroomRec
build_classrooms rows = sort_by (λ a b. text_leb a.name b.name) (collect_classrooms rows [])

-- A course under the key of the map.
pub record CatalogRec : Type 0 where
  pub key : Text
  pub name : Text
  pub code : Text
  pub credits : Text
  pub total_hours : Text
  pub category : Text
  pub exam_type : Text

abbrev catalog_key : Row → Text
catalog_key r = if text_eq r.course_code [] then codes "n:" ++ r.course_name else r.course_code

unfoldable pub collect_catalog : List Row → List CatalogRec → List CatalogRec
collect_catalog [] catalog = catalog
collect_catalog (r ∷ rows) catalog =
    let rest = collect_catalog rows in
    if text_eq r.course_name [] || any (λ c. text_eq c.key (catalog_key r)) catalog
    then rest catalog
    else rest (
        catalog
        ++ record {
          key = catalog_key r;
          name = r.course_name;
          code = r.course_code;
          credits = r.credits;
          total_hours = r.total_hours;
          category = r.category;
          exam_type = r.exam_type;
        }
          ∷ [])

-- Compares two texts, and by `next` when they are the same.
abbrev pub then_by : Text → Text → Bool → Bool
then_by a b next = if text_eq a b then next else text_leb a b

unfoldable pub build_catalog : List Row → List CatalogRec
build_catalog rows =
    sort_by (λ a b. then_by a.code b.code (text_leb a.name b.name)) (collect_catalog rows [])

pub record AdminGrade : Type 0 where
  pub name : Text
  pub grade : Text

unfoldable pub put_grades : Text → List Text → List AdminGrade → List AdminGrade
put_grades source [] grades = grades
put_grades source (a ∷ members) grades =
    let rest = put_grades source members in
    if any (λ g. text_eq g.name a) grades
    then rest grades
    else rest (grades ++ record { name = a; grade = grade_for a source } ∷ [])

unfoldable pub build_admin_grades : List Row → List AdminGrade → List AdminGrade
build_admin_grades [] grades = grades
build_admin_grades (r ∷ rows) grades =
    build_admin_grades rows (put_grades r.grade (parse_admin_set r.admin_classes) grades)

-- A teaching class under the key of the map, which is that of its set of classes.
pub record TeachingClass : Type 0 where
  pub key : Text
  pub name : Text
  pub note : Text
  pub members : List Text

-- The loop over the groups, in the order in which the map gives them. `none` is a panic.
unfoldable pub collect_teaching_classes :
    List SeqGroup → List TeachingClass → Option (List TeachingClass)
collect_teaching_classes [] classes = some classes
collect_teaching_classes (g ∷ groups) classes =
    let rest = collect_teaching_classes groups in
    if g.skipped || text_eq g.admin_key [] || any (λ c. text_eq c.key g.admin_key) classes
    then rest classes
    else elim (teaching_class_name g.members) [
      | none ↦ none
      | some (name, note) ↦ rest (
          classes
          ++ record { key = g.admin_key; name = name; note = note; members = g.members } ∷ [])
    ]

unfoldable pub build_teaching_classes : List SeqGroup → Option (List TeachingClass)
build_teaching_classes groups = elim (collect_teaching_classes groups []) [
  | none ↦ none
  | some classes ↦ some (sort_by (λ a b. text_leb a.name b.name) classes)
]

-- The name found for a set of classes; the map gives the empty text for no entry.
abbrev pub class_name : Text → List TeachingClass → Text
class_name key [] = []
class_name key (c ∷ classes) =
    let rest = class_name key classes in if text_eq c.key key then c.name else rest

pub record OfferingRec : Type 0 where
  pub course : Text
  pub code : Text
  pub teaching_class : Text
  pub semester : Text
  pub teacher : Text
  pub course_seq : Text
  pub teacher_id : Text
  pub teacher_title : Text
  pub college : Text
  pub max_students : Text
  pub requirement : Text
  pub weekly_hours : Text
  pub note : Text

abbrev sorted_teachers : SeqGroup → List Teacher
sorted_teachers g = sort_by (λ a b. then_by a.id b.id (text_leb a.name b.name)) g.teachers

-- The names, ids and titles, each joined by commas.
unfoldable pub join_teachers : List Teacher → Text × Text × Text
join_teachers ts = (
  join (codes ",") (map (λ t. t.name) ts),
  join (codes ",") (map (λ t. t.id) ts),
  join (codes ",") (map (λ t. t.title) ts),
)

unfoldable pub offering_of : Text → Text → SeqGroup → OfferingRec
offering_of semester class g =
    let (names, ids, titles) = join_teachers (sorted_teachers g) in
    record {
      course = g.course_name;
      code = g.course_code;
      teaching_class = class;
      semester = semester;
      teacher = if text_eq names [] then codes "未安排" else names;
      course_seq = g.seq;
      teacher_id = ids;
      teacher_title = titles;
      college = g.college;
      max_students = g.max_students;
      requirement = g.requirement;
      weekly_hours = g.weekly_hours;
      note = g.seq;
    }

unfoldable pub session_of : Text → Text → SeqGroup → SessionCell → SessionRec
session_of semester class g c = record {
  date = c.date;
  period_start = c.period_start;
  period_end = c.period_end;
  classroom = c.classroom;
  course = g.course_name;
  code = g.course_code;
  teaching_class = class;
  semester = semester;
}

unfoldable pub slot_sessions : Text → Text → Date → SeqGroup → List Slot → List SessionRec
slot_sessions semester class week1_monday g [] = []
slot_sessions semester class week1_monday g (s ∷ slots) =
    map (session_of semester class g)
      (expand_slot s.classroom s.weekday s.period_start s.period_end s.weeks week1_monday)
    ++ slot_sessions semester class week1_monday g slots

-- What the loop over the courses has collected.
pub record Outcome : Type 0 where
  pub offerings : List OfferingRec
  pub sessions : List SessionRec
  pub skipped_empty_admin : ℕ
  pub no_teacher_filled : ℕ
  pub warnings : List Warning

unfoldable pub build_groups : Text → Date → List TeachingClass → List SeqGroup → Outcome
build_groups semester week1_monday names [] = record {
  offerings = [];
  sessions = [];
  skipped_empty_admin = 0;
  no_teacher_filled = 0;
  warnings = [];
}
build_groups semester week1_monday names (g ∷ groups) =
    let rest = build_groups semester week1_monday names groups in
    let class = class_name g.admin_key names in
    if g.skipped
    then rest
    else if text_eq g.admin_key []
    then record rest {
      skipped_empty_admin = rest.skipped_empty_admin + 1;
      warnings = no_classes g.seq g.course_name ∷ rest.warnings;
    }
    else record rest {
      offerings = offering_of semester class g ∷ rest.offerings;
      sessions = slot_sessions semester class week1_monday g g.slots ++ rest.sessions;
      no_teacher_filled =
          if text_eq (join_teachers (sorted_teachers g)).0 []
          then rest.no_teacher_filled + 1
          else rest.no_teacher_filled;
    }

-- The order of the dates, the periods and the rooms.
abbrev pub session_leb : SessionRec → SessionRec → Bool
session_leb a b = then_by a.date b.date (
    then_by (a.period_start ∷ []) (b.period_start ∷ [])
      (then_by (a.period_end ∷ []) (b.period_end ∷ []) (text_leb a.classroom b.classroom)))

-- The loop that names the classes once more goes over the map in an order of its own, `visited`; that
-- over the courses goes by their sequence numbers. `none` is a panic.
unfoldable pub build_offerings_sessions :
    List SeqGroup → List SeqGroup → Text → Date → Option Outcome
build_offerings_sessions visited groups semester week1_monday =
    elim (collect_teaching_classes visited []) [
      | none ↦ none
      | some names ↦
          let out =
            build_groups semester week1_monday names
              (sort_by (λ a b. text_leb a.seq b.seq) groups) in
          some (record out { sessions = sort_by session_leb out.sessions })
    ]
