-- ===== src/Windows/Cli/Create.antt =====
-- `create_runtime` of cli.py. The constructors of the three parts of the system are parameters;
-- those of the adapters themselves do nothing else.
use nadikt.Base.Result.{err}
use nadikt.Base.Exec.{Exec, catch, ◌>>◌}
use nadikt.Insertion.Contracts.{Adapters, Raised, exception, interrupt}
use nadikt.Windows.Cli.{CliSystem}

module _ {A : Adapters} (sys : CliSystem A) where
  -- `except Exception`, with the clipboard closed.
  unfoldable pub close_and_raise : Raised → Exec Raised A.World (Unit {0})
  close_and_raise exception w = (err exception, sys.close_clipboard w)
  close_and_raise interrupt w = (err interrupt, w)

  unfoldable pub create_runtime : Exec Raised A.World (Unit {0})
  unfolding close_and_raise
  create_runtime = do
    sys.new_target_api
    sys.new_clipboard_api
    catch sys.new_input_api close_and_raise
