-- ===== src/Asr/Loading.antt =====
-- `load` of the engines of src/nadikt/infrastructure/asr.
use nadikt.Base.{
  String, Bool, true, false, Option, none, some, ◌≡◌, arith, contains, Option-cases, inl, inr,
  eq_iff,
}
use nadikt.Base.Result.{Result, ok, err}
use nadikt.Base.Exec.{Exec}
use nadikt.Base.Json.{Fields}
use nadikt.Asr.Ports.{Raised, AsrLoadOptions, Mapping, dict, other_mapping}
use nadikt.Asr.Engine.{
  Sdk, Engine, State, call, fail, catch_exception, set_model, set_options, import_failed, is_ready,
}
use nadikt.Asr.Gigaam
use nadikt.Asr.Gigaam.{GigaamSdk}
use nadikt.Asr.Whisper
use nadikt.Asr.Whisper.{WhisperSdk}

abbrev has_allowed_name : Option String → Bool
has_allowed_name none = false
has_allowed_name (some name) = contains Gigaam.allowed_gigaam_model_names name

-- What `load` makes of an engine: where it returns, the engine is ready and has an allowed model
-- name; where it raises, the engine is as before.
pub record IsLoaded {S : Sdk} (before : Engine S.Model (Option String))
    (after : Result Raised (Unit {0}) × State S (Option String)) : Type 0 where
  pub ready : after.0 ≡ ok tt → is_ready after.1 ≡ true
  pub named : after.0 ≡ ok tt → has_allowed_name after.1.engine.options ≡ true
  pub unchanged : (e : Raised) → after.0 ≡ err e → after.1.engine ≡ before

candidate_model_name-contains :
    (id name : String)
    → Gigaam.candidate_model_name id ≡ some name
    → contains Gigaam.allowed_gigaam_model_names name ≡ true
unfolding Gigaam.candidate_model_name
candidate_model_name-contains id name h =
    ground
      (arith, eq_iff "v3_e2e_ctc" name, eq_iff "v3_e2e_rnnt" name, eq_iff "multilingual_ctc" name)

loader_model_name-contains :
    (id name : String) (m : Mapping)
    → Gigaam.loader_model_name id m ≡ some name
    → contains Gigaam.allowed_gigaam_model_names name ≡ true
unfolding Gigaam.loader_model_name
loader_model_name-contains id name (other_mapping fs) h = candidate_model_name-contains id name h
loader_model_name-contains id name (dict fs) h =
    ground (arith, candidate_model_name-contains id name)

module _ {S : Sdk} (sdk : GigaamSdk S) where
  load_with-ready :
      (loader : String → String → Exec Raised S.World S.Model) (name dir : String)
      (s : State S (Option String))
      → (Gigaam.load_with sdk loader name dir s).0 ≡ ok tt
      → is_ready (Gigaam.load_with sdk loader name dir s).1 ≡ true
  unfolding Gigaam.load_with call fail catch_exception set_model set_options is_ready
  load_with-ready loader name dir s p = ground arith

  load_with-named :
      (loader : String → String → Exec Raised S.World S.Model) (name dir : String)
      (s : State S (Option String))
      → contains Gigaam.allowed_gigaam_model_names name ≡ true
      → (Gigaam.load_with sdk loader name dir s).0 ≡ ok tt
      → has_allowed_name (Gigaam.load_with sdk loader name dir s).1.engine.options ≡ true
  unfolding Gigaam.load_with call fail catch_exception set_model set_options is_ready
  load_with-named loader name dir s h p = ground arith

  load_with-unchanged :
      (loader : String → String → Exec Raised S.World S.Model) (name dir : String)
      (s : State S (Option String)) (e : Raised)
      → (Gigaam.load_with sdk loader name dir s).0 ≡ err e
      → (Gigaam.load_with sdk loader name dir s).1.engine ≡ s.engine
  unfolding Gigaam.load_with call fail catch_exception set_model set_options is_ready
  load_with-unchanged loader name dir s e p = ground arith

  import_and_load-IsLoaded :
      (name dir : String) (s : State S (Option String))
      → contains Gigaam.allowed_gigaam_model_names name ≡ true
      → IsLoaded s.engine (Gigaam.import_and_load sdk name dir s)
  unfolding Gigaam.import_and_load call fail import_failed is_ready
  import_and_load-IsLoaded name dir s h = record {
    ready = λ p. grind (arith, load_with-ready);
    named = λ p. grind (arith, load_with-named);
    unchanged = λ e p. grind (arith, load_with-unchanged);
  }

  load_named-IsLoaded :
      (name dir : String) (s : State S (Option String))
      → contains Gigaam.allowed_gigaam_model_names name ≡ true
      → IsLoaded s.engine (Gigaam.load_named sdk name dir s)
  unfolding Gigaam.load_named fail
  load_named-IsLoaded name dir s h =
      let step = import_and_load-IsLoaded name dir s h in
      record {
        ready = λ p. ground (arith, step.ready);
        named = λ p. ground (arith, step.named);
        unchanged = λ e p. ground (arith, step.unchanged e);
      }

  -- Where `load` of the GigaAM engine returns, the engine is ready and keeps one of the allowed model
  -- names; where it raises, whatever it raises, the engine is as before.
  pub load-IsLoaded :
      (options : AsrLoadOptions) (s : State S (Option String))
      → IsLoaded s.engine (Gigaam.load sdk options s)
  unfolding Gigaam.load fail
  load-IsLoaded options s =
      elim (Option-cases
        (Gigaam.loader_model_name s.engine.metadata.candidate_id options.inference_defaults)) [
          | inl q ↦ record {
            ready = λ p. ground arith;
            named = λ p. ground arith;
            unchanged = λ e p. ground arith;
          }
          | inr (name, q) ↦
              let step = load_named-IsLoaded name options.local_package_path s (
                loader_model_name-contains s.engine.metadata.candidate_id name
                  options.inference_defaults q) in
              record {
                ready = λ p. ground (arith, step.ready);
                named = λ p. ground (arith, step.named);
                unchanged = λ e p. ground (arith, step.unchanged e);
              }
        ]

-- What `load` of the faster-whisper engine makes of an engine: the new defaults are kept in any
-- case; where it returns, the engine is ready; where it raises, the model is as before.
pub record IsRenewed {S : Sdk} (before : Engine S.Model Fields) (defaults : Fields)
    (after : Result Raised (Unit {0}) × State S Fields) : Type 0 where
  pub options : after.1.engine.options ≡ defaults
  pub metadata : after.1.engine.metadata ≡ before.metadata
  pub cancel_requested : after.1.engine.cancel_requested ≡ before.cancel_requested
  pub ready : after.0 ≡ ok tt → is_ready after.1 ≡ true
  pub unchanged : (e : Raised) → after.0 ≡ err e → after.1.engine.model ≡ before.model

-- `load` of the faster-whisper engine keeps the new defaults in any case, and neither the metadata
-- nor a requested cancellation changes; where it returns, the engine is ready; where it raises,
-- whatever it raises, the model is the one from before.
pub load-IsRenewed :
    {S : Sdk} (sdk : WhisperSdk S) (options : AsrLoadOptions) (s : State S Fields)
    → IsRenewed s.engine
        (Whisper.mapping_fields options.inference_defaults)
        (Whisper.load sdk options s)
unfolding Whisper.load Whisper.load_directory Whisper.new_whisper_model Whisper.class_failed
    import_failed call fail catch_exception set_model set_options is_ready
load-IsRenewed sdk options s = record {
  options = ground arith;
  metadata = ground arith;
  cancel_requested = ground arith;
  ready = λ p. ground arith;
  unchanged = λ e p. ground arith;
}

-- Where `load` of the GigaAM engine returns, the engine is ready and keeps one of the allowed model
-- names; where it raises, whatever it raises, the engine is as before. `load` of the faster-whisper
-- engine keeps the new defaults in any case, and neither the metadata nor a requested cancellation
-- changes; where it returns, the engine is ready; where it raises, the model is the one from before.
pub engines_load :
    {S : Sdk} (gigaam : GigaamSdk S) (whisper : WhisperSdk S) (options : AsrLoadOptions)
    (s : State S (Option String)) (t : State S Fields)
    → IsLoaded s.engine (Gigaam.load gigaam options s)
      × IsRenewed t.engine
          (Whisper.mapping_fields options.inference_defaults)
          (Whisper.load whisper options t)
engines_load gigaam whisper options s t =
    (load-IsLoaded gigaam options s, load-IsRenewed whisper options t)
