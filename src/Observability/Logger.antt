-- ===== src/Observability/Logger.antt =====
-- internal/observability/logger.go and GetZapLevel of observabilityconfig.go. The span of a context is the
-- texts of its trace id and its span id, or `none` where it is not valid.
use quorum_quest.Prelude.{
  String, str_eq, ◌<>◌, Bool, Option, none, some, List, [], ◌∷◌, ◌++◌, ◌≡◌, refl, if◌then◌else◌,
}
use quorum_quest.Program.{Result, ok, err}

-- `zapcore.Level`: dpanic, panic and fatal are among the others.
pub data ZapLevel : Type 0 where
  debug_level info_level warn_level error_level other_level : ZapLevel

unfoldable pub get_zap_level : String → ZapLevel
get_zap_level level =
    if str_eq level "LOG_LEVELS_DEBUGLEVEL"
    then debug_level
    else if str_eq level "LOG_LEVELS_WARNLEVEL"
    then warn_level
    else if str_eq level "LOG_LEVELS_ERRORLEVEL"
    then error_level
    else info_level

abbrev pub Span : Type 0
Span = Option (String × String)

-- A field of zap's: its key and its `String`, which is empty for a field that is not a text.
abbrev pub Field : Type 0
Field = String × String

-- A line of the log: its level, its message, and its keys with their values.
pub record Line : Type 0 where
  pub level : ZapLevel
  pub message : String
  pub fields : List Field

abbrev plain : ZapLevel → String → Line
plain level message = record { level = level; message = message; fields = [] }

-- The level of the method that is called.
abbrev method_level : ZapLevel → ZapLevel
method_level other_level = info_level
method_level level = level

abbrev trace_fields : String → String → List Field
trace_fields trace_id span_id = ("trace_id", trace_id) ∷ ("span_id", span_id) ∷ []

-- `LogWithContext`
unfoldable pub log_with_context : Span → ZapLevel → String → List Field → List Line
log_with_context none level message fields =
    plain info_level "No trace context found" ∷ plain info_level message ∷ []
log_with_context (some (trace_id, span_id)) level message fields =
    record {
      level = method_level level;
      message = message;
      fields = trace_fields trace_id span_id ++ fields;
    }
    ∷ []

unfoldable pub info_ctx : Span → String → List Line
info_ctx none message = plain info_level "No trace context found" ∷ plain info_level message ∷ []
info_ctx (some (trace_id, span_id)) message =
    record { level = info_level; message = message; fields = trace_fields trace_id span_id } ∷ []

-- `ErrorCtx`, of the error's text.
unfoldable pub error_ctx : Span → String → List Line
error_ctx none message = plain info_level "No trace context found" ∷ plain error_level message ∷ []
error_ctx (some (trace_id, span_id)) message =
    record { level = error_level; message = message; fields = trace_fields trace_id span_id } ∷ []

unfoldable pub get_trace_id : Span → String × Bool
get_trace_id none = ("", Bool.false)
get_trace_id (some (trace_id, span_id)) = (trace_id, Bool.true)

-- `NewLogger`: the logger, with the line that it logs first. `build` is the `Build` of zap's production
-- configuration at a level, and `level_text` zap's name of the level.
unfoldable pub new_logger :
    {Logger : Type 0}
    → (ZapLevel → Result String Logger)
    → (ZapLevel → String)
    → ZapLevel
    → Result String (Logger × List Line)
new_logger build level_text level = elim (build level) [
  | err m ↦ err m
  | ok logger ↦ ok (logger, plain info_level ("Initialized Logger level:" <> level_text level) ∷ [])
]

-- `NewTestLogger`: the logger, and the logs that its core observes. `observe` is zap's observer at a
-- level, and `develop` its development logger over a core.
unfoldable pub new_test_logger :
    {Core Logs Logger : Type 0}
    → (ZapLevel → Core × Logs)
    → (Core → Result String Logger)
    → Result String (Logger × Logs)
new_test_logger observe develop =
    let (core, observed) = observe debug_level in
    elim (develop core) [ err m ↦ err m | ok logger ↦ ok (logger, observed) ]

-- In a trace, InfoCtx and ErrorCtx log what LogWithContext logs at their levels with no fields.
-- Outside of one, ErrorCtx logs the error at its level, and LogWithContext at level error logs the
-- message at level info and leaves its fields out, as it does for a message at level info.
pub log_with_context_levels :
    (trace_id span_id message : String) (fields : List Field)
    → let inside : Span = some (trace_id, span_id) in
      (info_ctx inside message ≡ log_with_context inside info_level message [])
      × (error_ctx inside message ≡ log_with_context inside error_level message [])
      × (log_with_context none error_level message fields
          ≡ log_with_context none info_level message [])
      × (error_ctx none message
          ≡ plain info_level "No trace context found" ∷ plain error_level message ∷ [])
unfolding log_with_context info_ctx error_ctx
log_with_context_levels trace_id span_id message fields = (refl, refl, refl, refl)
