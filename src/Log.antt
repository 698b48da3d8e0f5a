-- ===== src/Log.antt =====
-- log.go: the interface that the library logs through, its two implementations, and the choice
-- between them. Package log/slog is a parameter: `slog_new` is slog.New, `slog_log` are the four
-- methods of *slog.Logger, and `stderr_handler` is the JSON handler at a level that writes to
-- standard error. What logging changes is a `World`, and a pair of `kv` is an `Attr`.
use godotnet.Base.{String, ◌≡◌, refl, ap, ◌∙◌, Option, none, some, List, [], ◌∷◌}

pub data Level : Type 0 where
  level_debug level_info level_warn level_error : Level

module _ {Handler Slog Attr World : Type 0} (slog_new : Handler → Slog)
    (stderr_handler : Level → Handler)
    (slog_log : Slog → Level → String → List Attr → World → World) where
  -- A value of the interface, by what its methods do.
  pub record Logger : Type 0 where
    pub debug : String → List Attr → World → World
    pub info : String → List Attr → World → World
    pub warn : String → List Attr → World → World
    pub error : String → List Attr → World → World

  unfoldable pub slog_logger : Slog → Logger
  slog_logger l = record {
    debug = slog_log l level_debug;
    info = slog_log l level_info;
    warn = slog_log l level_warn;
    error = slog_log l level_error;
  }

  unfoldable pub new_default_logger : Option Handler → Logger
  unfolding slog_logger
  new_default_logger none = slog_logger (slog_new (stderr_handler level_info))
  new_default_logger (some h) = slog_logger (slog_new h)

  unfoldable pub nop_logger : Logger
  nop_logger = record {
    debug = λ msg kv w. w;
    info = λ msg kv w. w;
    warn = λ msg kv w. w;
    error = λ msg kv w. w;
  }

  unfoldable pub logger_or_nop : Option Logger → Logger
  unfolding nop_logger
  logger_or_nop none = nop_logger
  logger_or_nop (some logger) = logger

  -- A log line, and what a program's lines do through a logger.
  pub record Line : Type 0 where
    pub level : Level
    pub msg : String
    pub kv : List Attr

  abbrev pub write : Level → Logger → String → List Attr → World → World
  write level_debug logger = logger.debug
  write level_info logger = logger.info
  write level_warn logger = logger.warn
  write level_error logger = logger.error

  abbrev pub write_all : Logger → List Line → World → World
  write_all logger [] w = w
  write_all logger (x ∷ lines) w = write_all logger lines (write x.level logger x.msg x.kv w)

  -- The same lines given to slog.
  abbrev pub slog_all : Slog → List Line → World → World
  slog_all l [] w = w
  slog_all l (x ∷ lines) w = slog_all l lines (slog_log l x.level x.msg x.kv w)

  write-nop_logger :
      (k : Level) (msg : String) (kv : List Attr) (w : World) → write k nop_logger msg kv w ≡ w
  unfolding nop_logger
  write-nop_logger level_debug msg kv w = refl
  write-nop_logger level_info msg kv w = refl
  write-nop_logger level_warn msg kv w = refl
  write-nop_logger level_error msg kv w = refl

  write-slog_logger :
      (l : Slog) (k : Level) (msg : String) (kv : List Attr) (w : World)
      → write k (slog_logger l) msg kv w ≡ slog_log l k msg kv w
  unfolding slog_logger
  write-slog_logger l level_debug msg kv w = refl
  write-slog_logger l level_info msg kv w = refl
  write-slog_logger l level_warn msg kv w = refl
  write-slog_logger l level_error msg kv w = refl

  -- Without a logger nothing is written, whatever a program logs.
  pub logger_or_nop_lem :
      (lines : List Line) (w : World) → write_all (logger_or_nop none) lines w ≡ w
  unfolding logger_or_nop
  logger_or_nop_lem [] w = refl
  logger_or_nop_lem (x ∷ lines) w =
      ap (write_all nop_logger lines) (write-nop_logger x.level x.msg x.kv w)
      ∙ logger_or_nop_lem lines w

  -- With the default logger each line reaches the handler's slog.Logger, at its own level and in
  -- order.
  pub new_default_logger_lem :
      (h : Handler) (lines : List Line) (w : World)
      → write_all (logger_or_nop (some (new_default_logger (some h)))) lines w
        ≡ slog_all (slog_new h) lines w
  unfolding logger_or_nop new_default_logger
  new_default_logger_lem h [] w = refl
  new_default_logger_lem h (x ∷ lines) w =
      ap (write_all (slog_logger (slog_new h)) lines)
        (write-slog_logger (slog_new h) x.level x.msg x.kv w)
      ∙ new_default_logger_lem h lines (slog_log (slog_new h) x.level x.msg x.kv w)
