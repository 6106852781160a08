-- ===== src/CmdLine.antt =====
-- What main() of both applications has in common: boost::program_options as it is used, and what else
-- may throw there. What parse_command_line finds is a record of each application, and none where it
-- throws.
use distributed_systems_hw.Base.{not, ◌&&◌, ℕ, Bool, Option, none, some, ◌==◌, if◌then◌else◌}
use distributed_systems_hw.Proto.Platform.{Exec, returned, thrown}

-- What comes of the command line: std::exit(0) behind the help message, a value, or an exception.
pub data Start {ℓ} (A : Type ℓ) : Type ℓ where
  exits : Start A
  starts : A → Start A
  leaves : Start A

-- notify() on an option that is required.
abbrev pub required {ℓ} : {A : Type ℓ} → Option A → Exec A
required none = thrown
required (some a) = returned a

-- What the functions that read_cmd_args calls may throw.
abbrev pub of_exec {ℓ} : {A : Type ℓ} → Exec A → Start A
of_exec (returned a) = starts a
of_exec thrown = leaves

-- The constructor of an acceptor throws where it cannot listen on its port.
abbrev pub listen : (ℕ → Bool) → ℕ → Exec ℕ
listen can_listen port = if can_listen port then returned port else thrown

-- Also where another acceptor of the program listens on that port; 0 stands for any port that is free.
abbrev pub clashes : ℕ → ℕ → Bool
clashes taken port = (port == taken) && not (port == 0)

abbrev pub listen_beside : (ℕ → Bool) → ℕ → ℕ → Exec ℕ
listen_beside can_listen taken port = if clashes taken port then thrown else listen can_listen port
