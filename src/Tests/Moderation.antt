-- ===== src/Tests/Moderation.antt =====
-- crates/ephemera-mod at small inputs. The Unicode tables are those of ASCII letters.
use ephemera_social.Base.{
  replicate, ℕ, ◌*◌, ◌≤◌, ◌<◌, ◌≡◌, ◌≢◌, ◌⊎◌, refl, none, some, [], ◌∷◌, ◌++◌, Bool, true, false,
  ◌&&◌, arith, length, same, list_ord, nat_ord, if◌then◌else◌, ltb, leb, Bytes, any,
}
use ephemera_social.Moderation.Report
use ephemera_social.Moderation.Report.{
  Report, Reports, spam, violence, create_report, reports_for_content, reporter_count,
  description_length, is_about, max_description_length, ok, create_report_lem,
  reporter_count_reports,
}
use ephemera_social.Moderation.Filter.{
  check, ContentFilter, longest_run, is_blocked, block, blocklisted, repeated_characters,
  require_review, check_excessive_caps,
}
use ephemera_social.Moderation.Filter.Runs.{HasRun, longest_run_lem, spam_stopped}

abbrev first_report : Report
first_report = record {
  reporter = 1 ∷ [];
  content_id = 9 ∷ [];
  reason = spam;
  description = none;
  timestamp = 100;
}

abbrev second_report : Report
second_report = record {
  reporter = 2 ∷ [];
  content_id = 9 ∷ [];
  reason = violence;
  description = some (72 ∷ 105 ∷ []);
  timestamp = 110;
}

reports-IsValid : Report.IsValid (first_report ∷ second_report ∷ [])
unfolding any
reports-IsValid = (refl, omega arith, (refl, omega arith, tt))

create_report_lem_example :
    Report.IsValid
      (create_report 110 (2 ∷ []) (9 ∷ []) violence (some (72 ∷ 105 ∷ [])) (first_report ∷ [])).0
    × (((2 ≤ max_description_length)
          × (any (is_about (2 ∷ []) (9 ∷ [])) (first_report ∷ []) ≡ false)
          × ((create_report 110
                (2 ∷ [])
                (9 ∷ [])
                violence
                (some (72 ∷ 105 ∷ []))
                (first_report ∷ [])).1
              ≡ ok second_report)
          × (reports_for_content
                (9 ∷ [])
                (create_report 110
                  (2 ∷ [])
                  (9 ∷ [])
                  violence
                  (some (72 ∷ 105 ∷ []))
                  (first_report ∷ [])).0
              ≡ reports_for_content (9 ∷ []) (first_report ∷ [])
                ++ (if same {K = Bytes} (9 ∷ []) (9 ∷ []) then second_report ∷ [] else [])))
        ⊎ (((max_description_length < 2)
              ⊎ (any (is_about (2 ∷ []) (9 ∷ [])) (first_report ∷ []) ≡ true))
            × ((create_report 110
                  (2 ∷ [])
                  (9 ∷ [])
                  violence
                  (some (72 ∷ 105 ∷ []))
                  (first_report ∷ [])).1
                ≢ ok second_report)
            × ((create_report 110
                  (2 ∷ [])
                  (9 ∷ [])
                  violence
                  (some (72 ∷ 105 ∷ []))
                  (first_report ∷ [])).0
                ≡ first_report ∷ [])))
unfolding any
create_report_lem_example =
    create_report_lem 110 (2 ∷ []) (9 ∷ []) (9 ∷ []) violence (some (72 ∷ 105 ∷ []))
      (first_report ∷ []) (refl, omega arith, tt)

reporter_count_reports_example :
    reporter_count (9 ∷ []) (first_report ∷ second_report ∷ [])
    ≡ length (reports_for_content (9 ∷ []) (first_report ∷ second_report ∷ []))
reporter_count_reports_example =
    reporter_count_reports (9 ∷ []) (first_report ∷ second_report ∷ []) reports-IsValid

is_upper : ℕ → Bool
is_upper c = leb 65 c && leb c 90

is_letter : ℕ → Bool
is_letter c = if is_upper c then true else leb 97 c && leb c 122

-- More than four fifths.
mostly : ℕ → ℕ → Bool
mostly upper alpha = ltb (4 * alpha) (5 * upper)

abbrev filter : ContentFilter
filter = record { blocklist = []; min_length_for_caps_check = 20 }

longest_run_lem_example :
    HasRun (longest_run (3 ∷ 7 ∷ 7 ∷ 7 ∷ 5 ∷ [])) (3 ∷ 7 ∷ 7 ∷ 7 ∷ 5 ∷ [])
    × (2 ≤ longest_run (3 ∷ 7 ∷ 7 ∷ 7 ∷ 5 ∷ []))
longest_run_lem_example =
    longest_run_lem (3 ∷ 7 ∷ 7 ∷ 7 ∷ 5 ∷ []) 2 (omega arith) (omega arith)
      (3 ∷ [], 7, 7 ∷ 5 ∷ [], refl)

spam_stopped_example : check is_letter is_upper mostly (1 ∷ []) (replicate 24 97) filter ≡ (
    if is_blocked (1 ∷ []) filter.blocklist
    then block blocklisted
    else elim (check_excessive_caps is_letter is_upper mostly (replicate 24 97) filter) [
      | none ↦ block repeated_characters
      | some r ↦ require_review
    ])
spam_stopped_example =
    spam_stopped is_letter is_upper mostly (1 ∷ []) (replicate 24 97) 20 filter (omega arith)
      (omega arith) (omega arith) ([], 97, replicate 4 97, refl)
