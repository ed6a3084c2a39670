-- ===== src/Asr/Raising.antt =====
-- What `transcribe_segment` and `warm_up` of the engines of src/nadikt/infrastructure/asr raise.
use nadikt.Base.{
  ℕ, String, Bool, true, false, Option, none, ◌≡◌, refl, arith, str_eq, inl, inr, Bool-cases,
}
use nadikt.Base.Result.{Result, ok, err}
use nadikt.Base.Json.{Fields}
use nadikt.Protocol.Python.{Python}
use nadikt.Asr.Ports.{
  AsrFailureCode, Raised, engine_error, value_error, interrupt, AsrSegmentInput,
  AsrSegmentTranscript, ensure_segment_within_capabilities, AsrCapabilities, duration_ms,
}
use nadikt.Base.Int.{lt_ℤ}
use mathlib.Core.Path.{subst}
use nadikt.Asr.Engine.{
  Sdk, State, M, Observer, call, fail, lift, catch_exception, set_cancel_requested, record_event,
  warm_up_by, warm_up_error,
}
use nadikt.Asr.Gigaam
use nadikt.Asr.Gigaam.{GigaamSdk}
use nadikt.Asr.Whisper
use nadikt.Asr.Whisper.{WhisperSdk}

-- A recoverable `AsrEngineError`, the `ValueError` of a segment over the capabilities, or an
-- interrupt.
abbrev pub is_typed : Raised → Bool
is_typed (engine_error f) = f.recoverable
is_typed (value_error m) = str_eq m "segment_too_long"
is_typed interrupt = true
is_typed _ = false

abbrev raised_is_typed : {R : Type 0} → Result Raised R → Bool
raised_is_typed (ok r) = true
raised_is_typed (err e) = is_typed e

-- The same of `warm_up`, whose `AsrEngineError` is always `WARM_UP_FAILED`.
abbrev pub is_warm_up_error : Raised → Bool
is_warm_up_error (engine_error f) = elim f.code [
  | AsrFailureCode.warm_up_failed ↦ f.recoverable
  | _ ↦ false
]
is_warm_up_error e = is_typed e

ensure_segment-is_typed :
    (segment : AsrSegmentInput) (c : AsrCapabilities) (e : Raised)
    → ensure_segment_within_capabilities segment c ≡ err e
    → is_typed e ≡ true
unfolding ensure_segment_within_capabilities
ensure_segment-is_typed segment c e =
    elim (Bool-cases (lt_ℤ c.max_segment_ms (duration_ms segment))) [
      | inl q ↦
          rw q (λ p. subst (λ (r : Result Raised (Unit {0})). raised_is_typed r ≡ true) p refl)
      | inr q ↦ rw q (λ p. absurd (ground arith))
    ]

raised_is_typed_lem :
    {R : Type 0} (r : Result Raised R)
    → ((e : Raised) → r ≡ err e → is_typed e ≡ true)
    → raised_is_typed r ≡ true
raised_is_typed_lem (ok r) h = refl
raised_is_typed_lem (err e) h = h e refl

warm_up_by_lem :
    {S : Sdk} {O : Type 0}
    (transcribe_segment : AsrSegmentInput → Observer S → M S O AsrSegmentTranscript)
    (segment : AsrSegmentInput) (s : State S O) (e : Raised)
    → raised_is_typed (transcribe_segment segment none s).0 ≡ true
    → (warm_up_by transcribe_segment segment none s).0 ≡ err e
    → is_warm_up_error e ≡ true
unfolding warm_up_by warm_up_error record_event
warm_up_by_lem transcribe_segment segment s e h p = ground arith

module _ {S : Sdk} (sdk : GigaamSdk S) where
  gigaam_run_model :
      (model : S.Model) (segment : AsrSegmentInput) (n : ℕ) (s : State S (Option String))
      (e : Raised)
      → (Gigaam.run_model sdk model segment none n s).0 ≡ err e
      → is_typed e ≡ true
  unfolding Gigaam.run_model call fail catch_exception record_event
  gigaam_run_model model segment n s e p = ground arith

  gigaam_transcribe :
      (segment : AsrSegmentInput) (s : State S (Option String)) (e : Raised)
      → (Gigaam.transcribe_segment sdk segment none s).0 ≡ err e
      → is_typed e ≡ true
  unfolding Gigaam.transcribe_segment Gigaam.transcribe_with lift fail set_cancel_requested
  gigaam_transcribe segment s e p = grind (arith, gigaam_run_model, ensure_segment-is_typed)

  gigaam_raises :
      (segment : AsrSegmentInput) (s : State S (Option String)) (e : Raised)
      → ((Gigaam.transcribe_segment sdk segment none s).0 ≡ err e → is_typed e ≡ true)
        × ((Gigaam.warm_up sdk segment none s).0 ≡ err e → is_warm_up_error e ≡ true)
  unfolding Gigaam.warm_up
  gigaam_raises segment s e = (
    gigaam_transcribe segment s e,
    warm_up_by_lem (Gigaam.transcribe_segment sdk) segment s e
        (raised_is_typed_lem _ (gigaam_transcribe segment s)),
  )

module _ {S : Sdk} (py : Python) (sdk : WhisperSdk S) where
  whisper_run_model :
      (model : S.Model) (segment : AsrSegmentInput) (n : ℕ) (s : State S Fields) (e : Raised)
      → (Whisper.run_model py sdk model segment none n s).0 ≡ err e
      → is_typed e ≡ true
  unfolding Whisper.run_model fail catch_exception record_event
  whisper_run_model model segment n s e p = ground arith

  whisper_transcribe :
      (segment : AsrSegmentInput) (s : State S Fields) (e : Raised)
      → (Whisper.transcribe_segment py sdk segment none s).0 ≡ err e
      → is_typed e ≡ true
  unfolding Whisper.transcribe_segment Whisper.transcribe_with lift fail set_cancel_requested
  whisper_transcribe segment s e p = grind (arith, whisper_run_model, ensure_segment-is_typed)

  whisper_raises :
      (segment : AsrSegmentInput) (s : State S Fields) (e : Raised)
      → ((Whisper.transcribe_segment py sdk segment none s).0 ≡ err e → is_typed e ≡ true)
        × ((Whisper.warm_up py sdk segment none s).0 ≡ err e → is_warm_up_error e ≡ true)
  unfolding Whisper.warm_up
  whisper_raises segment s e = (
    whisper_transcribe segment s e,
    warm_up_by_lem (Whisper.transcribe_segment py sdk) segment s e
        (raised_is_typed_lem _ (whisper_transcribe segment s)),
  )

-- Without an observer, `transcribe_segment` of either engine raises a recoverable `AsrEngineError`,
-- the `ValueError` of a segment over the capabilities, or an interrupt, whatever the SDK raises, be it
-- in the iterator over the segments; and `warm_up` the same with `WARM_UP_FAILED` for each
-- `AsrEngineError`.
pub engines_raise :
    {S : Sdk} (gigaam : GigaamSdk S) (py : Python) (whisper : WhisperSdk S)
    (segment : AsrSegmentInput) (s : State S (Option String)) (t : State S Fields) (e : Raised)
    → (((Gigaam.transcribe_segment gigaam segment none s).0 ≡ err e → is_typed e ≡ true)
        × ((Gigaam.warm_up gigaam segment none s).0 ≡ err e → is_warm_up_error e ≡ true))
      × (((Whisper.transcribe_segment py whisper segment none t).0 ≡ err e → is_typed e ≡ true)
          × ((Whisper.warm_up py whisper segment none t).0 ≡ err e → is_warm_up_error e ≡ true))
engines_raise gigaam py whisper segment s t e =
    (gigaam_raises gigaam segment s e, whisper_raises py whisper segment t e)
