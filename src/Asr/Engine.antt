-- ===== src/Asr/Engine.antt =====
-- What src/nadikt/infrastructure/asr/gigaam.py and faster_whisper.py write alike: the fields of an
-- engine, `_engine_error`, `_record`, `warm_up`, `cancel` and `close`. The SDK and the file system
-- are a parameter on a world of their own; the log is left out.
use nadikt.Base.{ℕ, ◌-◌, String, Bool, true, false, Option, none, some}
use nadikt.Base.Result.{Result, ok}
use nadikt.Base.Exec.{Exec, pure, raise, catch, ◌>>◌}
use nadikt.Base.Int.{ℤ}
use nadikt.Asr.Ports.{
  AsrFailureCode, Raised, engine_error, import_error, interrupt, AsrModelMetadata, AsrSegmentInput,
  AsrSegmentTranscript, AsrTimingEvent,
}

-- `close_model` is the model's `close`, where it has one.
pub record Sdk : Type 1 where
  pub World : Type 0
  pub Model : Type 0
  pub monotonic : World → ℕ
  pub is_dir : String → World → Bool
  pub close_model : Model → Option (Exec Raised World (Unit {0}))

-- `options` is what the engine keeps from `load` beside the model.
pub record Engine (Model Options : Type 0) : Type 0 where
  pub metadata : AsrModelMetadata
  pub model : Option Model
  pub options : Options
  pub cancel_requested : Bool

pub record State (S : Sdk) (Options : Type 0) : Type 0 where
  pub engine : Engine S.Model Options
  pub world : S.World

abbrev pub M : Sdk → Type 0 → Type 0 → Type 0
M S O R = Exec Raised (State S O) R

abbrev pub Observer : Sdk → Type 0
Observer S = Option (AsrTimingEvent → Exec Raised S.World (Unit {0}))

module _ {S : Sdk} {O : Type 0} where
  unfoldable pub call : {R : Type 0} → Exec Raised S.World R → M S O R
  call op s = let (r, w) = op s.world in (r, record s { world = w })

  -- `_engine_error`, raised.
  unfoldable pub fail : {R : Type 0} → AsrFailureCode → String → M S O R
  fail code phase =
      raise (
        engine_error (record { code = code; phase = phase; recoverable = true; retryable = false }))

  unfoldable pub lift : {R : Type 0} → Result Raised R → M S O R
  lift r s = (r, s)

  -- `except Exception`: an interrupt goes on.
  unfoldable pub catch_exception : {R : Type 0} → M S O R → M S O R → M S O R
  catch_exception m handler = catch m (λ e. elim e [ interrupt ↦ raise interrupt | _ ↦ handler ])

  -- `_record`
  unfoldable pub record_event : Observer S → String → ℕ → Option ℤ → M S O (Unit {0})
  unfolding call
  record_event none phase started segment_id = pure tt
  record_event (some observer) phase started segment_id = λ s.
      call
        (observer (record {
          phase = phase;
          duration_ms = S.monotonic s.world - started;
          package_id = s.engine.metadata.package_id;
          segment_id = segment_id;
          outcome = "success";
        }))
        s

  unfoldable pub set_model : Option S.Model → M S O (Unit {0})
  set_model m s = (ok tt, record s { engine = record s.engine { model = m } })

  unfoldable pub set_options : O → M S O (Unit {0})
  set_options o s = (ok tt, record s { engine = record s.engine { options = o } })

  unfoldable pub set_cancel_requested : Bool → M S O (Unit {0})
  set_cancel_requested b s = (ok tt, record s { engine = record s.engine { cancel_requested = b } })

  unfoldable pub is_ready : State S O → Bool
  is_ready s = elim s.engine.model [ none ↦ false | some m ↦ true ]

  unfoldable pub cancel : M S O (Unit {0})
  unfolding set_cancel_requested
  cancel = set_cancel_requested true

  unfoldable pub close : M S O (Unit {0})
  unfolding call set_model fail catch_exception
  close s =
      (do
        set_model none
        elim s.engine.model [
          | none ↦ pure tt
          | some m ↦ elim (S.close_model m) [
            | none ↦ pure tt
            | some op ↦
                catch_exception (call op) (fail AsrFailureCode.resource_release_failed "close")
          ]
        ])
        s

  -- The handler of `except ImportError`.
  unfoldable pub import_failed : {R : Type 0} → Raised → M S O R
  unfolding fail
  import_failed import_error = fail AsrFailureCode.incompatible_backend "backend_availability"
  import_failed e = raise e

  -- The handler of `warm_up`: `except AsrEngineError`.
  unfoldable pub warm_up_error : {R : Type 0} → Raised → M S O R
  warm_up_error (engine_error f) = raise (
      engine_error (record {
        code = AsrFailureCode.warm_up_failed;
        phase = "warm_up";
        recoverable = f.recoverable;
        retryable = false;
      }))
  warm_up_error e = raise e

  -- `warm_up`, of an engine with this `transcribe_segment`.
  unfoldable pub warm_up_by :
      (AsrSegmentInput → Observer S → M S O AsrSegmentTranscript)
      → AsrSegmentInput
      → Observer S
      → M S O (Unit {0})
  unfolding warm_up_error record_event
  warm_up_by transcribe_segment segment observer s =
      (do
        catch (transcribe_segment segment none) warm_up_error
        record_event observer "warm_up_done" (S.monotonic s.world) (some segment.segment_id))
        s
