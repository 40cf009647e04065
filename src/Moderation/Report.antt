-- ===== src/Moderation/Report.antt =====
-- crates/ephemera-mod/src/report.rs: the reports of users, in the order of their creation. A text is
-- the list of its characters; the clock is an argument.
use ephemera_social.Base.{
  ℕ, ◌≤◌, ◌<◌, ◌≡◌, ◌≢◌, ◌⊎◌, refl, List, [], ◌∷◌, ◌++◌, map, Option, none, some, Bool, true, false,
  ◌&&◌, ◌||◌, length, ltb, if◌then◌else◌, same, list_ord, nat_ord, list_eq, list_flip, Bytes, keep,
  any, arith,
}
use ephemera_social.Map
use ephemera_social.Map.{insert, get}
use ephemera_social.Map.Laws.{get-insert}
use ephemera_social.Map.Sorted.{IsSorted, insert-IsSorted, size-insert}
use ephemera_social.Set
use ephemera_social.Set.{Set}

abbrev pub max_description_length : ℕ
max_description_length = 280

pub data ReportReason : Type 0 where
  harassment hate_speech violence spam csam impersonation : ReportReason
  other : List ℕ → ReportReason

pub record Report : Type 0 where
  pub reporter : Bytes
  pub content_id : Bytes
  pub reason : ReportReason
  pub description : Option (List ℕ)
  pub timestamp : ℕ

-- `ReportService`
abbrev pub Reports : Type 0
Reports = List Report

-- The errors of `ModerationError` that the service returns.
pub data ModerationError : Type 0 where
  description_too_long : (got max : ℕ) → ModerationError
  duplicate_report : Bytes → ModerationError

pub data CreateResult : Type 0 where
  ok : Report → CreateResult
  err : ModerationError → CreateResult

abbrev pub is_about : Bytes → Bytes → Report → Bool
is_about reporter content_id r = same r.reporter reporter && same r.content_id content_id

-- The part of `create_report` after the check of the description.
unfoldable pub file_report : Report → Reports → Reports × CreateResult
unfolding any
file_report r reports =
    if any (is_about r.reporter r.content_id) reports
    then (reports, err (duplicate_report r.content_id))
    else (reports ++ r ∷ [], ok r)

-- `desc.chars().count()`, and zero where there is no description.
abbrev pub description_length : Option (List ℕ) → ℕ
description_length none = 0
description_length (some text) = length text

unfoldable pub create_report :
    ℕ → Bytes → Bytes → ReportReason → Option (List ℕ) → Reports → Reports × CreateResult
unfolding file_report
create_report now reporter content_id reason description reports =
    if ltb max_description_length (description_length description)
    then (
      reports,
      err (description_too_long (description_length description) max_description_length),
    )
    else file_report
        (record {
          reporter = reporter;
          content_id = content_id;
          reason = reason;
          description = description;
          timestamp = now;
        })
        reports

unfoldable pub reports_for_content : Bytes → Reports → Reports
unfolding keep
reports_for_content content_id reports = keep (λ r. same r.content_id content_id) reports

-- `collect` into a set.
unfoldable pub collect : List Bytes → Set Bytes
unfolding insert
collect [] = Set.empty
collect (x ∷ xs) = Set.add x (collect xs)

unfoldable pub reporter_count : Bytes → Reports → ℕ
unfolding collect keep
reporter_count content_id reports =
    Map.size (collect (map (λ r. r.reporter) (keep (λ r. same r.content_id content_id) reports)))

-- No reporter has two reports on one content, and the descriptions are within the bound.
abbrev pub IsValid : Reports → Type 0
IsValid [] = Unit
IsValid (r ∷ reports) =
    (any (is_about r.reporter r.content_id) reports ≡ false)
    × (description_length r.description ≤ max_description_length)
    × IsValid reports

any-append :
    (p : Report → Bool) (r : Report) (reports : Reports)
    → any p (reports ++ r ∷ []) ≡ (any p reports || p r)
unfolding any
any-append p r [] = ground arith
any-append p r (x ∷ reports) = ground (arith, any-append p r reports)

append-IsValid :
    (r : Report) (reports : Reports)
    → any (is_about r.reporter r.content_id) reports ≡ false
    → description_length r.description ≤ max_description_length
    → IsValid reports
    → IsValid (reports ++ r ∷ [])
unfolding any
append-IsValid r [] h l v = (refl, l, tt)
append-IsValid r (x ∷ reports) h l v = ground (
  arith,
  append-IsValid r reports,
  any-append (is_about x.reporter x.content_id) r reports,
  list_flip {A = ℕ} x.reporter r.reporter,
  list_flip {A = ℕ} x.content_id r.content_id,
)

keep-append :
    (p : Report → Bool) (r : Report) (reports : Reports)
    → keep p (reports ++ r ∷ []) ≡ keep p reports ++ (if p r then r ∷ [] else [])
unfolding keep
keep-append p r [] = ground arith
keep-append p r (x ∷ reports) = ground (arith, keep-append p r reports)

-- Each call keeps the reports valid. It accepts a report exactly if its description has at most 280
-- characters and its reporter has none on the content; then the report stands behind the others
-- among those of its content, and the reports on other contents are as before. A refused one
-- changes nothing.
pub create_report_lem :
    (now : ℕ) (reporter content_id q : Bytes) (reason : ReportReason)
    (description : Option (List ℕ)) (reports : Reports)
    → IsValid reports
    → let made : Report = record {
      reporter = reporter;
      content_id = content_id;
      reason = reason;
      description = description;
      timestamp = now;
    } in
      let after = create_report now reporter content_id reason description reports in
      IsValid (after.0)
      × (((description_length description ≤ max_description_length)
            × (any (is_about reporter content_id) reports ≡ false)
            × (after.1 ≡ ok made)
            × (reports_for_content q (after.0)
                ≡ reports_for_content q reports ++ (if same content_id q then made ∷ [] else [])))
          ⊎ (((max_description_length < description_length description)
                ⊎ (any (is_about reporter content_id) reports ≡ true))
              × (after.1 ≢ ok made)
              × (after.0 ≡ reports)))
unfolding create_report reports_for_content
create_report_lem now reporter content_id q reason description reports v =
    let made : Report = record {
      reporter = reporter;
      content_id = content_id;
      reason = reason;
      description = description;
      timestamp = now;
    } in
    ground (arith, append-IsValid made reports, keep-append (λ r. same r.content_id q) made reports)

collect-IsSorted : (xs : List Bytes) → IsSorted (collect xs)
unfolding collect
collect-IsSorted [] = tt
collect-IsSorted (x ∷ xs) = insert-IsSorted x tt (collect xs) (collect-IsSorted xs)

-- A reporter without a report on the content is not collected.
collect_other :
    (reporter content_id : Bytes) (reports : Reports)
    → any (is_about reporter content_id) reports ≡ false
    → Set.contains reporter
        (collect (map (λ r. r.reporter) (keep (λ r. same r.content_id content_id) reports)))
      ≡ false
unfolding collect keep any get
collect_other reporter content_id [] h = refl
collect_other reporter content_id (r ∷ reports) h =
    let rest = keep (λ r. same r.content_id content_id) reports in
    ground (
      arith,
      collect_other reporter content_id reports,
      get-insert reporter r.reporter tt (collect (map (λ r. r.reporter) rest)),
      list_flip {A = ℕ} reporter r.reporter,
    )

-- As nobody reports a content twice, its number of reporters is its number of reports.
pub reporter_count_reports :
    (content_id : Bytes) (reports : Reports)
    → IsValid reports
    → reporter_count content_id reports ≡ length (reports_for_content content_id reports)
unfolding reporter_count reports_for_content collect keep
reporter_count_reports content_id [] v = refl
reporter_count_reports content_id (r ∷ reports) v =
    let others =
      collect (map (λ r. r.reporter) (keep (λ r. same r.content_id content_id) reports)) in
    ground (
      arith,
      reporter_count_reports content_id reports v.2,
      collect_other r.reporter content_id reports,
      size-insert r.reporter tt others (
          collect-IsSorted
            (map (λ r. r.reporter) (keep (λ r. same r.content_id content_id) reports))),
      list_eq {A = ℕ} r.content_id content_id,
      v.0,
    )
