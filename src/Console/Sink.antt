-- ===== src/Console/Sink.antt =====
-- `ConsoleSink` of client/gui/console.cpp: the lines that the log prints.
use tec.Base.{ℕ, List, ◌++◌}
use tec.Console.{Console, println}
use tec.Console.Texts.{trace_prefix, debug_prefix, warn_prefix, err_prefix, critical_prefix}

-- `spdlog::level`
pub data Level : Type 0 where
  trace : Level
  debug : Level
  info : Level
  warn : Level
  err : Level
  critical : Level

-- `ConsoleSink::log`, with the three colours.
module _ {K : Type 0} (white orange red : K) where
  unfoldable pub log_line : Level → List ℕ → K × List ℕ
  log_line trace s = (white, trace_prefix ++ s)
  log_line debug s = (white, debug_prefix ++ s)
  log_line info s = (white, s)
  log_line warn s = (orange, warn_prefix ++ s)
  log_line err s = (red, err_prefix ++ s)
  log_line critical s = (red, critical_prefix ++ s)

module _ {K X : Type 0} (n : ℕ) (white orange red : K) where
  unfoldable pub log : Level → List ℕ → Console K X → Console K X
  log level s c = println n white (log_line white orange red level s) c
