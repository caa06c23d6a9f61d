-- ===== src/QcEngine/Areas.antt =====
-- apps/worker/src/qc/qc-engine.service.ts: how a check deducts points, and the checks of the quality and of
-- the identity. Similarities are counted in millionths; a negative one counts as 0.
use contents_factory.Common.{
  ℕ, ◌+◌, ◌-◌, ◌*◌, ◌/◌, min, Bool, true, false, not, Option, none, some, List, [], ◌∷◌, ◌++◌, ◌&&◌,
  ◌==◌, nat_eq, ltb, if◌then◌else◌, length, get_or, is_some,
}
use contents_factory.Enums.{OutputType, output_type_eq}
use contents_factory.Eligibility.{text_eq}
use contents_factory.Qc.{QcArea, QcViolation, AreaCheck}
use contents_factory.QcEngine.Records.{QcCode, code_no, term_category_eq, GeneratedRow, QcFacts}

-- `v(area, code)`
abbrev pub v : QcArea → QcCode → QcViolation
v area code = record { area = area; code = code_no code }

abbrev pub points : ℕ → ℕ
points n = n * 10000

abbrev pub clean : AreaCheck
clean = record { score = points 100; violations = [] }

-- a violation, and the points that it costs
abbrev pub flag : AreaCheck → QcArea → QcCode → ℕ → AreaCheck
flag c area code penalty = record {
  score = c.score - points penalty;
  violations = c.violations ++ v area code ∷ [];
}

-- `if (bad) { violations.push(v(area, code)); score -= penalty }`
unfoldable pub deduct : Bool → QcArea → QcCode → ℕ → AreaCheck → AreaCheck
deduct bad area code penalty c = if bad then flag c area code penalty else c

abbrev pub failed : QcArea → QcCode → ℕ → AreaCheck
failed area code score = record { score = points score; violations = v area code ∷ [] }

abbrev pub distance : ℕ → ℕ → ℕ
distance a b = (a - b) + (b - a)

abbrev pub sum_of : List ℕ → ℕ
sum_of [] = 0
sum_of (n ∷ ns) = n + sum_of ns

-- quality

abbrev pub resolution_of : QcFacts → ℕ × ℕ
resolution_of f = get_or f.resolution (1080, 1920)

abbrev pub max_duration_ms : QcFacts → ℕ
max_duration_ms f = get_or f.max_duration_sec 60 * 1000

abbrev pub is_size : ℕ × ℕ → Option ℕ → Option ℕ → Bool
is_size (w, h) (some a) (some b) = a == w && b == h
is_size (w, h) _ _ = false

abbrev pub is_quiet : Option ℕ → Bool
is_quiet none = false
is_quiet (some tenths) = ltb 600 tenths

abbrev pub has_drifted : QcFacts → Bool
has_drifted f =
    let target = sum_of f.scene_durations in
    ltb 0 target && ltb (target * 15) (distance f.probe.duration_ms target * 100)

unfoldable pub check_video : QcFacts → AreaCheck
unfolding deduct
check_video f =
    let dated = deduct (f.probe.duration_ms == 0) QcArea.quality QcCode.no_duration 40 clean in
    let planned = deduct (has_drifted f) QcArea.quality QcCode.duration_drift 15 dated in
    let limited =
      deduct (ltb (max_duration_ms f) f.probe.duration_ms) QcArea.quality QcCode.duration_over_limit
        25 planned in
    let sized =
      deduct (not (is_size (resolution_of f) f.probe.width f.probe.height)) QcArea.quality
        QcCode.resolution_mismatch 20 limited in
    if not f.probe.has_audio
    then flag sized QcArea.quality QcCode.no_audio_track 15
    else deduct (is_quiet f.mean_volume) QcArea.quality QcCode.silent_audio 15 sized

-- `Math.abs(w / h - a / b) > 0.02`, multiplied out
abbrev pub is_skewed : ℕ × ℕ → ℕ × ℕ → Bool
is_skewed (w, h) (a, b) = ltb (h * b) (distance (w * b) (a * h) * 50)

unfoldable pub check_image : QcFacts → AreaCheck
unfolding deduct
check_image f = elim f.png_size [
  | none ↦ flag clean QcArea.quality QcCode.corrupt_image 40
  | some (w, h) ↦
      deduct (is_skewed (w, h) (get_or f.aspect (9, 16))) QcArea.quality QcCode.aspect_mismatch 20 (
        deduct (not (is_size (resolution_of f) (some w) (some h))) QcArea.quality
          QcCode.resolution_mismatch 20 clean)
]

-- `!head || head.size === 0`
abbrev pub is_void : Option ℕ → Bool
is_void none = true
is_void (some size) = size == 0

unfoldable pub check_quality : QcFacts → AreaCheck
unfolding check_video check_image
check_quality f = elim f.final_key [
  | none ↦ failed QcArea.quality QcCode.missing_output 0
  | some key ↦
      if is_void f.file_size
      then failed QcArea.quality QcCode.empty_file 0
      else if f.output_type == OutputType.video
      then check_video f
      else check_image f
]

-- identity

-- the scores that the generation has recorded
abbrev pub recorded : List GeneratedRow → List ℕ
recorded [] = []
recorded (g ∷ rows) = elim g.identity_score [
  | none ↦ recorded rows
  | some score ↦ score ∷ recorded rows
]

-- the mean of the recorded scores, or else what the embeddings of an image give
unfoldable pub similarity_of : QcFacts → Option ℕ
similarity_of f = elim (recorded f.generated) [
  | [] ↦
      if ltb 0 f.ref_count && not (f.output_type == OutputType.video) && is_some f.final_key
      then some f.measured
      else none
  | score ∷ scores ↦ some (sum_of (score ∷ scores) / length (score ∷ scores))
]

-- `clamp(((similarity - 0.7) / 0.3) * 100)`, rounded down to 1/10000 of a point
abbrev pub stretched : ℕ → ℕ
stretched similarity = min (points 100) ((similarity - 700000) * 10 / 3)

unfoldable pub check_identity : QcFacts → ℕ → AreaCheck
unfolding similarity_of
check_identity f threshold = elim (similarity_of f) [
  | none ↦ failed QcArea.identity QcCode.no_reference 70
  | some similarity ↦ record {
    score = stretched similarity;
    violations =
        if ltb similarity threshold then v QcArea.identity QcCode.below_threshold ∷ [] else [];
  }
]
