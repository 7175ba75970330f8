-- ===== src/Tests/Errors.antt =====
-- errors.go at a concrete error.
use mwanachama_backend_comm.Base.{◌≡◌}
use mwanachama_backend_comm.Errors.{pg, driver}
use mwanachama_backend_comm.Errors.Classify.{classify, violates_unique}
use mwanachama_backend_comm.Errors.Classify.Laws.{is_conflict, classify-is_conflict}

classify-is_conflict_example :
    is_conflict (classify (driver (pg "23505" "report_once" "" "" "")))
    ≡ violates_unique (pg "23505" "report_once" "" "" "")
classify-is_conflict_example = classify-is_conflict (pg "23505" "report_once" "" "" "")
