-- ===== src/Logger/Core.antt =====
-- logger/logger.go: configuration, loggers, and the routing of lines to writers. The encoders and the
-- sampler are zap's. `New` cannot fail, since buildCore returns no error on any path.
use go_bank.Common.{
  ℕ, Bool, true, false, not, ◌&&◌, Option, none, some, List, [], ◌∷◌, ◌++◌, String, if◌then◌else◌,
  str_eq,
}
use go_bank.Logger.Entry.{Level, debug, info, warn, error, at_least, Field, Line, string_field}

-- An io.Writer.
pub data Writer : Type 0 where
  stdout stderr : Writer
  writer : ℕ → Writer

pub record SamplingConfig : Type 0 where
  pub initial : ℕ
  pub thereafter : ℕ

pub record Config : Type 0 where
  pub development : Bool
  pub level : Level
  pub service_name : String
  pub service_version : String
  pub environment : String
  pub output : Option Writer
  pub err_output : Option Writer
  pub sampling : Option SamplingConfig
  pub enable_caller : Bool
  pub enable_stack_trace : Bool

unfoldable pub default_config : (service version env : String) → Config
default_config service version env = record {
  development = str_eq env "development";
  level = info;
  service_name = service;
  service_version = version;
  environment = env;
  output = none;
  err_output = none;
  sampling = some (record { initial = 100; thereafter = 100 });
  enable_caller = true;
  enable_stack_trace = true;
}

abbrev pub or_default : Option Writer → Writer → Writer
or_default none d = d
or_default (some w) d = w

abbrev only_if : Bool → Writer → List Writer
only_if true w = w ∷ []
only_if false w = []

-- buildCore without its sampler: the writers that the two cores of the tee give a line of a level to.
unfoldable pub build_core : Config → Level → List Writer
build_core cfg lvl =
    let enabled = at_least lvl cfg.level in
    only_if (not (at_least lvl error) && enabled) (or_default cfg.output stdout)
    ++ only_if (at_least lvl error && enabled) (or_default cfg.err_output stderr)

-- `fields` are those that zap's logger holds.
pub record Logger : Type 0 where
  pub fields : List Field
  pub config : Config
  pub base_fields : List Field

unfoldable pub new : Config → Logger
new cfg = record {
  fields = [];
  config = cfg;
  base_fields =
      string_field "service" cfg.service_name
      ∷ string_field "version" cfg.service_version
      ∷ string_field "env" cfg.environment
      ∷ [];
}

-- Logger.With
unfoldable pub with_fields : Logger → List Field → Logger
with_fields l fields = record l { fields = l.fields ++ fields }

unfoldable pub with_base : Logger → List Field → List Field
with_base l fields = fields

-- Logger.Debug, Info, Warn, Error and Fatal: the line that zap's logger makes.
unfoldable pub log_line : Level → Logger → String → List Field → Line
unfolding with_base
log_line level l message fields = record {
  level = level;
  message = message;
  fields = l.fields ++ with_base l fields;
}

-- logAtLevel (logger/grpc.go)
unfoldable pub log_at_level : Logger → Level → String → List Field → Line
unfolding log_line
log_at_level l debug message fields = log_line debug l message fields
log_at_level l warn message fields = log_line warn l message fields
log_at_level l error message fields = log_line error l message fields
log_at_level l _ message fields = log_line info l message fields

-- The package's variables: the global logger, and whether `once` has been used.
pub record Package : Type 0 where
  pub global : Option Logger
  pub once : Bool

-- InitGlobal; `redirected` says whether zap could take over the standard log. The first part is false
-- where it returns an error.
unfoldable pub init_global : (redirected : Bool) → Config → Package → Bool × Package
unfolding new
init_global redirected cfg p =
    if p.once then (true, p) else (redirected, record { global = some (new cfg); once = true })

-- `o.Logger`, or G(), which panics (none) where there is no global logger.
abbrev pub own_or_global : Option Logger → Package → Option Logger
own_or_global (some l) p = some l
own_or_global none p = p.global
