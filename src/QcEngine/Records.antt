-- ===== src/QcEngine/Records.antt =====
-- apps/worker/src/qc/qc-engine.service.ts: the codes of the violations, the patterns of the copy, and the rows
-- and measurements that the checks read.
use contents_factory.Common.{
  ℕ, ◌≡◌, ◌↔◌, Bool, true, false, Option, List, [], ◌∷◌, arith, ◌==◌, nat_eq, Eq,
}
use contents_factory.Enums.{OutputType}
use contents_factory.Eligibility.{Text}
use contents_factory.Validator.{AssetLicense}

pub data QcCode : Type 0 where
  missing_output empty_file no_duration duration_drift duration_over_limit resolution_mismatch :
      QcCode
  no_audio_track silent_audio corrupt_image aspect_mismatch : QcCode
  no_reference below_threshold : QcCode
  banned_term invalid_palette no_template : QcCode
  caption_too_long too_many_hashtags prohibited_topic : QcCode
  no_lineage no_license license_invalid_at_publish bgm_not_licensed : QcCode
  absolute_claim absolute_wording superlative efficacy_claim unverified_fact : QcCode

-- the number that stands for the code's text
abbrev pub code_no : QcCode → ℕ
code_no missing_output = 1
code_no empty_file = 2
code_no no_duration = 3
code_no duration_drift = 4
code_no duration_over_limit = 5
code_no resolution_mismatch = 6
code_no no_audio_track = 7
code_no silent_audio = 8
code_no corrupt_image = 9
code_no aspect_mismatch = 10
code_no no_reference = 11
code_no below_threshold = 12
code_no banned_term = 13
code_no invalid_palette = 14
code_no no_template = 15
code_no caption_too_long = 16
code_no too_many_hashtags = 17
code_no prohibited_topic = 18
code_no no_lineage = 19
code_no no_license = 20
code_no license_invalid_at_publish = 21
code_no bgm_not_licensed = 22
code_no absolute_claim = 23
code_no absolute_wording = 24
code_no superlative = 25
code_no efficacy_claim = 26
code_no unverified_fact = 27

pub data Severity : Type 0 where
  warn block : Severity

abbrev pub is_block : Severity → Bool
is_block warn = false
is_block block = true

pub data TermCategory : Type 0 where
  brand policy topic : TermCategory

abbrev pub term_category_no : TermCategory → ℕ
term_category_no brand = 0
term_category_no policy = 1
term_category_no topic = 2

pub term_category_no_iff :
    (s t : TermCategory) → (term_category_no s == term_category_no t ≡ true) ↔ (s ≡ t)
term_category_no_iff s t = ground arith

instance abbrev pub term_category_eq : Eq TermCategory
term_category_eq = record {
  beq = λ s t. term_category_no s == term_category_no t;
  beq_iff = term_category_no_iff;
}

pub record BannedTerm : Type 0 where
  pub term : Text
  pub category : TermCategory
  pub severity : Severity

pub record MediaProbe : Type 0 where
  pub duration_ms : ℕ
  pub width : Option ℕ
  pub height : Option ℕ
  pub has_audio : Bool

-- a generated asset: its identity score, if one was recorded, and what its adapter says of a licence
pub record GeneratedRow : Type 0 where
  pub is_audio : Bool
  pub identity_score : Option ℕ
  pub licensed : Option Bool

-- the five patterns of `checkAiRisk`
pub data RiskPattern : Type 0 where
  absolute wording best efficacy fact : RiskPattern

abbrev pub risk_patterns : List RiskPattern
risk_patterns = absolute ∷ wording ∷ best ∷ efficacy ∷ fact ∷ []

abbrev pub risk_penalty : RiskPattern → ℕ
risk_penalty absolute = 25
risk_penalty wording = 20
risk_penalty best = 15
risk_penalty efficacy = 30
risk_penalty fact = 15

abbrev pub risk_code : RiskPattern → QcCode
risk_code absolute = QcCode.absolute_claim
risk_code wording = QcCode.absolute_wording
risk_code best = QcCode.superlative
risk_code efficacy = QcCode.efficacy_claim
risk_code fact = QcCode.unverified_fact

-- What the checks read of a content, its blueprint, channel and order, of the tables, and of the services.
pub record QcFacts : Type 0 where
  pub output_type : OutputType
  pub final_key : Option ℕ
  pub title : Option Text
  pub description : Option Text
  pub hashtags : List Text
  pub duration_ms : Option ℕ
  -- the blueprint
  pub resolution : Option (ℕ × ℕ)
  pub aspect : Option (ℕ × ℕ)
  pub scene_durations : List ℕ
  pub palette : List Text
  pub has_template : Bool
  -- the channel
  pub platform : Text
  pub region : Option Text
  pub caption_limit : Option ℕ
  pub max_hashtags : Option ℕ
  pub max_duration_sec : Option ℕ
  -- the order, and today's date
  pub scheduled_on : Option Text
  pub today : Text
  -- the tables; the generated assets, the newest first, and the ids of the assets used
  pub banned_terms : List BannedTerm
  pub generated : List GeneratedRow
  pub usages : List ℕ
  pub licenses : ℕ → List AssetLicense
  pub subtitles : List (Option Text)
  -- the storage and the probes; a volume is in tenths of a decibel below 0
  pub file_size : Option ℕ
  pub probe : MediaProbe
  pub mean_volume : Option ℕ
  pub png_size : Option (ℕ × ℕ)
  -- the artist's references, and the similarity that their embeddings have with the output's
  pub ref_count : ℕ
  pub measured : ℕ
  -- whether a pattern matches
  pub matches : RiskPattern → Text → Bool
