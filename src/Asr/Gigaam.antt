-- ===== src/Asr/Gigaam.antt =====
-- src/nadikt/infrastructure/asr/gigaam.py: the engine of GigaAM.
use nadikt.Base.{
  ℕ, String, Bool, false, not, Option, none, some, List, [], ◌∷◌, if◌then◌else◌, contains, is_empty,
  str_eq,
}
use nadikt.Base.Exec.{Exec, pure, catch, ◌>>=◌, ◌>>◌}
use nadikt.Base.Int.{ℤ, pos, lt_ℤ}
use nadikt.Base.Json.{str, get}
use nadikt.Base.Texts.{strip}
use nadikt.Asr.Ports.{
  AsrFailureCode, Raised, Mapping, dict, other_mapping, AsrLoadOptions, AsrSegmentInput,
  AsrSegmentTranscript, duration_ms, ensure_segment_within_capabilities,
}
use nadikt.Asr.Engine.{
  Sdk, State, M, Observer, call, fail, lift, catch_exception, record_event, set_model, set_options,
  set_cancel_requested, warm_up_by, import_failed,
}

abbrev pub max_gigaam_transcribe_ms : ℤ
max_gigaam_transcribe_ms = pos 25000

abbrev pub allowed_gigaam_model_names : List String
allowed_gigaam_model_names = "v3_e2e_ctc" ∷ "v3_e2e_rnnt" ∷ "multilingual_ctc" ∷ []

-- `REQUIRED_GIGAAM_CACHE_FILES`, sorted; none for another name.
unfoldable pub required_gigaam_cache_files : String → List String
required_gigaam_cache_files name =
    if str_eq name "v3_e2e_ctc"
    then "v3_e2e_ctc.ckpt" ∷ "v3_e2e_ctc_tokenizer.model" ∷ []
    else if str_eq name "v3_e2e_rnnt"
    then "v3_e2e_rnnt.ckpt" ∷ "v3_e2e_rnnt_tokenizer.model" ∷ []
    else if str_eq name "multilingual_ctc"
    then "multilingual_ctc.ckpt" ∷ []
    else []

-- The model name for a candidate.
unfoldable pub candidate_model_name : String → Option String
candidate_model_name id =
    if str_eq id "gigaam-v3-e2e-ctc"
    then some "v3_e2e_ctc"
    else if str_eq id "gigaam-v3-e2e-rnnt"
    then some "v3_e2e_rnnt"
    else if str_eq id "gigaam-multilingual-220m"
    then some "multilingual_ctc"
    else none

-- `_loader_model_name`
unfoldable pub loader_model_name : String → Mapping → Option String
unfolding candidate_model_name
loader_model_name candidate_id (other_mapping fs) = candidate_model_name candidate_id
loader_model_name candidate_id (dict fs) = elim (get fs "gigaam_model_name") [
  | some (str value) ↦
      if contains allowed_gigaam_model_names value
      then some value
      else candidate_model_name candidate_id
  | _ ↦ candidate_model_name candidate_id
]

-- The file system and the module `gigaam`. `load_model` is the module's function, if it is callable.
pub record GigaamSdk (S : Sdk) : Type 1 where
  pub Module : Type 0
  pub is_file : String → String → S.World → Bool
  pub module_loader : Exec Raised S.World Module
  pub load_model : Module → Option (String → String → Exec Raised S.World S.Model)
  pub transcribe : S.Model → String → Exec Raised S.World String

-- `_missing_required_cache_files`, of the required ones.
unfoldable pub missing_files : (String → Bool) → List String → List String
missing_files is_there [] = []
missing_files is_there (f ∷ fs) =
    let rest = missing_files is_there fs in if is_there f then rest else f ∷ rest

unfoldable pub missing_required_cache_files : (String → Bool) → String → List String
unfolding required_gigaam_cache_files missing_files
missing_required_cache_files is_there name =
    if is_empty (required_gigaam_cache_files name)
    then "unknown-layout" ∷ []
    else missing_files is_there (required_gigaam_cache_files name)

module _ {S : Sdk} (sdk : GigaamSdk S) where
  -- `_loader_model_name` of the engine is its `options`.
  abbrev pub GigaamState : Type 0
  GigaamState = State S (Option String)

  unfoldable pub load_with :
      (String → String → Exec Raised S.World S.Model)
      → String
      → String
      → M S (Option String) (Unit {0})
  unfolding call catch_exception set_model set_options fail
  load_with loader name package_dir =
      catch_exception
        (do model ← call (loader name package_dir); set_model (some model); set_options (some name))
        (fail AsrFailureCode.transcribe_failed "load")

  unfoldable pub import_and_load : String → String → M S (Option String) (Unit {0})
  unfolding call fail load_with import_failed
  import_and_load name package_dir = do
    m ← catch (call sdk.module_loader) import_failed
    elim (sdk.load_model m) [
      | none ↦ fail AsrFailureCode.incompatible_backend "load"
      | some loader ↦ load_with loader name package_dir
    ]

  unfoldable pub load_named : String → String → M S (Option String) (Unit {0})
  unfolding fail missing_required_cache_files import_and_load
  load_named name package_dir s =
      (if is_empty (missing_required_cache_files (λ f. sdk.is_file package_dir f s.world) name)
          then import_and_load name package_dir
          else fail AsrFailureCode.missing_critical_file "load")
        s

  unfoldable pub load : AsrLoadOptions → M S (Option String) (Unit {0})
  unfolding fail loader_model_name load_named
  load options s =
      (if not (S.is_dir options.local_package_path s.world)
          then fail AsrFailureCode.missing_package "load"
          else elim (loader_model_name s.engine.metadata.candidate_id options.inference_defaults) [
            | none ↦ fail AsrFailureCode.incompatible_backend "load"
            | some name ↦ load_named name options.local_package_path
          ])
        s

  -- From the call of the model on.
  unfoldable pub run_model :
      S.Model → AsrSegmentInput → Observer S → ℕ → M S (Option String) AsrSegmentTranscript
  unfolding call catch_exception fail record_event
  run_model model segment observer started = do
    text ←
        catch_exception (call (sdk.transcribe model segment.audio_path))
          (fail AsrFailureCode.transcribe_failed "transcribe")
    record_event observer "first_result" started (some segment.segment_id)
    record_event observer "transcribe_done" started (some segment.segment_id)
    pure (record {
      segment_id = segment.segment_id;
      text = strip text;
      start_ms = segment.start_ms;
      end_ms = segment.end_ms;
      confidence = none;
    })

  -- The guards of a ready engine.
  unfoldable pub transcribe_with :
      S.Model → AsrSegmentInput → Observer S → M S (Option String) AsrSegmentTranscript
  unfolding fail lift set_cancel_requested run_model
  transcribe_with model segment observer s =
      (do
        lift (ensure_segment_within_capabilities segment s.engine.metadata.capabilities)
        if lt_ℤ max_gigaam_transcribe_ms (duration_ms segment)
            then fail AsrFailureCode.segment_too_long "transcribe"
            else if s.engine.cancel_requested
            then set_cancel_requested false >> fail AsrFailureCode.cancelled "transcribe"
            else run_model model segment observer (S.monotonic s.world))
        s

  unfoldable pub transcribe_segment :
      AsrSegmentInput → Observer S → M S (Option String) AsrSegmentTranscript
  unfolding fail transcribe_with
  transcribe_segment segment observer s = elim s.engine.model [
    | none ↦ fail AsrFailureCode.engine_not_ready "transcribe" s
    | some model ↦ transcribe_with model segment observer s
  ]

  unfoldable pub warm_up : AsrSegmentInput → Observer S → M S (Option String) (Unit {0})
  unfolding transcribe_segment warm_up_by
  warm_up = warm_up_by transcribe_segment
