-- ===== src/QcEngine/Tests.antt =====
-- A silent video, scored and recorded.
use contents_factory.Common.{
  [], arith, false, nat_eq, none, refl, some, true, ℕ, ◌+◌, ◌↔◌, ◌∷◌, ◌≡◌, ◌≢◌, ◌⊎◌,
}
use contents_factory.ApprovalService.{latest_qc}
use contents_factory.Eligibility.{text_eq}
use contents_factory.Enums.{
  ContentStatus, OrderStatus, OutputType, QcVerdict, output_type_eq, qc_verdict_eq,
}
use contents_factory.Errors.{ErrorCode, Thrown, app, app_error, err, ok}
use contents_factory.Orchestrator.{qc_count}
use contents_factory.Qc.{evaluate_qc, first_block, score_qc, weighted_sum}
use contents_factory.QcEngine.{evaluate, is_usable}
use contents_factory.QcEngine.Processor.{handoff_of, process, qc_row}
use contents_factory.QcEngine.Processor.Attempts.{
  AreNumbered, IsCounted, examined, process-AreNumbered, process-latest_qc, process_qc_outcome,
  recorded_in, rows_of,
}
use contents_factory.QcEngine.Records.{QcFacts, term_category_eq}
use contents_factory.QcEngine.Verdict.{IsAllowedCopy, IsLicensed, evaluate-unblocked_iff}
use contents_factory.Samples.{content_in, db_of, qc_of}
use contents_factory.Store.{Content, Db, find_content}
use contents_factory.Validator.{AssetLicense}

abbrev feed_license : AssetLicense
feed_license = record {
  allowed_channels = (b'x' ∷ []) ∷ [];
  allowed_regions = (b'K' ∷ b'R' ∷ []) ∷ [];
  derivative_allowed = true;
  valid_from = b'1' ∷ [];
  valid_until = b'8' ∷ [];
}

-- a silent video that uses one asset
abbrev short_video : QcFacts
short_video = record {
  output_type = OutputType.video;
  final_key = some 77;
  title = some (b'H' ∷ b'i' ∷ []);
  description = none;
  hashtags = (b'A' ∷ []) ∷ [];
  duration_ms = some 9000;
  resolution = none;
  aspect = none;
  scene_durations = 3000 ∷ 6000 ∷ [];
  palette = (b'#' ∷ b'0' ∷ b'a' ∷ b'F' ∷ b'9' ∷ b'9' ∷ b'9' ∷ []) ∷ [];
  has_template = true;
  platform = b'X' ∷ [];
  region = none;
  caption_limit = none;
  max_hashtags = none;
  max_duration_sec = none;
  scheduled_on = none;
  today = b'4' ∷ [];
  banned_terms = [];
  generated = record { is_audio = false; identity_score = some 850000; licensed = none } ∷ [];
  usages = 11 ∷ [];
  licenses = λ id. feed_license ∷ [];
  subtitles = [];
  file_size = some 1000;
  probe = record { duration_ms = 9000; width = some 1080; height = some 1920; has_audio = false };
  mean_volume = none;
  png_size = none;
  ref_count = 0;
  measured = 0;
  matches = λ p text. false;
}

-- 85 points for the quality, 50 for the identity, 100 for the others
scored : (evaluate short_video 800000 8000).total_score ≡ 8300
unfolding evaluate evaluate_qc first_block is_usable score_qc weighted_sum
scored = refl

-- the licence does not allow the region
unlicensed_region :
    (evaluate (record short_video { region = some (b'J' ∷ b'P' ∷ []) }) 800000 8000).verdict
    ≡ QcVerdict.blocked
unfolding evaluate evaluate_qc first_block is_usable
unlicensed_region = refl

abbrev rendered : Db
rendered = db_of ContentStatus.rendering OrderStatus.running (qc_of QcVerdict.fail 5000 ∷ [])

rendered_numbers : AreNumbered rendered
rendered_numbers content_id = by_decision content_id
  where
    by_decision : (k : ℕ) → IsCounted 0 (rows_of k rendered.qc_results)
    by_decision k = ground arith

evaluate-unblocked_iff_example :
    ((evaluate short_video 800000 8000).verdict ≢ QcVerdict.blocked)
    ↔ (IsAllowedCopy short_video × IsLicensed short_video)
evaluate-unblocked_iff_example = evaluate-unblocked_iff short_video 800000 8000

process-AreNumbered_example : AreNumbered (process 800000 8000 (ok short_video) 4 rendered).1
process-AreNumbered_example =
    process-AreNumbered 800000 8000 (ok short_video) 4 rendered rendered_numbers

process-latest_qc_example :
    latest_qc 4 (process 800000 8000 (ok short_video) 4 rendered).1.qc_results
    ≡ some (qc_row 4 (qc_count 4 rendered + 1) (evaluate short_video 800000 8000))
process-latest_qc_example =
    process-latest_qc 800000 8000 short_video 4 rendered (content_in ContentStatus.rendering) refl
      rendered_numbers

process_qc_outcome_example :
    let r = process 800000 8000 (ok short_video) 4 rendered in
    ((find_content 4 rendered ≡ none)
      × (r ≡ (err (app (app_error ErrorCode.content_not_found)), rendered)))
    ⊎ ((content : Content) × (find_content 4 rendered ≡ some content)
        × (((e : Thrown) × ((ok short_video) ≡ err e) × (r ≡ (err e, examined 4 rendered)))
            ⊎ ((found : QcFacts) × ((ok short_video) ≡ ok found)
                × (r ≡ (
                  ok (handoff_of 4 (qc_count 4 rendered + 1) (evaluate found 800000 8000)),
                  recorded_in 4 (evaluate found 800000 8000) (examined 4 rendered),
                )))))
process_qc_outcome_example = process_qc_outcome 800000 8000 (ok short_video) 4 rendered
