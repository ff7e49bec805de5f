-- ===== src/Console/Texts.antt =====
-- The texts of client/gui/console.cpp, as bytes.
use tec.Base.{ℕ, List, [], ◌∷◌}

-- "Unknown command. Please use cmdlist to list all commands."
abbrev pub unknown_help : List ℕ
unknown_help =
    b'U' ∷ b'n' ∷ b'k' ∷ b'n' ∷ b'o' ∷ b'w' ∷ b'n' ∷ 32 ∷ b'c' ∷ b'o' ∷ b'm' ∷ b'm' ∷ b'a' ∷ b'n'
    ∷ b'd' ∷ 46 ∷ 32 ∷ b'P' ∷ b'l' ∷ b'e' ∷ b'a' ∷ b's' ∷ b'e' ∷ 32 ∷ b'u' ∷ b's' ∷ b'e' ∷ 32 ∷ b'c'
    ∷ b'm' ∷ b'd' ∷ b'l' ∷ b'i' ∷ b's' ∷ b't' ∷ 32 ∷ b't' ∷ b'o' ∷ 32 ∷ b'l' ∷ b'i' ∷ b's' ∷ b't'
    ∷ 32 ∷ b'a' ∷ b'l' ∷ b'l' ∷ 32 ∷ b'c' ∷ b'o' ∷ b'm' ∷ b'm' ∷ b'a' ∷ b'n' ∷ b'd' ∷ b's' ∷ 46 ∷ []

-- "Unknown command"
abbrev pub unknown_command : List ℕ
unknown_command =
    b'U' ∷ b'n' ∷ b'k' ∷ b'n' ∷ b'o' ∷ b'w' ∷ b'n' ∷ 32 ∷ b'c' ∷ b'o' ∷ b'm' ∷ b'm' ∷ b'a' ∷ b'n'
    ∷ b'd' ∷ []

-- "echo"
abbrev pub echo_name : List ℕ
echo_name = b'e' ∷ b'c' ∷ b'h' ∷ b'o' ∷ []

-- "echo [message] : Prints a message to the console"
abbrev pub echo_help : List ℕ
echo_help =
    b'e' ∷ b'c' ∷ b'h' ∷ b'o' ∷ 32 ∷ 91 ∷ b'm' ∷ b'e' ∷ b's' ∷ b's' ∷ b'a' ∷ b'g' ∷ b'e' ∷ 93 ∷ 32
    ∷ 58 ∷ 32 ∷ b'P' ∷ b'r' ∷ b'i' ∷ b'n' ∷ b't' ∷ b's' ∷ 32 ∷ b'a' ∷ 32 ∷ b'm' ∷ b'e' ∷ b's' ∷ b's'
    ∷ b'a' ∷ b'g' ∷ b'e' ∷ 32 ∷ b't' ∷ b'o' ∷ 32 ∷ b't' ∷ b'h' ∷ b'e' ∷ 32 ∷ b'c' ∷ b'o' ∷ b'n'
    ∷ b's' ∷ b'o' ∷ b'l' ∷ b'e' ∷ []

-- "clear"
abbrev pub clear_name : List ℕ
clear_name = b'c' ∷ b'l' ∷ b'e' ∷ b'a' ∷ b'r' ∷ []

-- "clear : Clear console output"
abbrev pub clear_help : List ℕ
clear_help =
    b'c' ∷ b'l' ∷ b'e' ∷ b'a' ∷ b'r' ∷ 32 ∷ 58 ∷ 32 ∷ b'C' ∷ b'l' ∷ b'e' ∷ b'a' ∷ b'r' ∷ 32 ∷ b'c'
    ∷ b'o' ∷ b'n' ∷ b's' ∷ b'o' ∷ b'l' ∷ b'e' ∷ 32 ∷ b'o' ∷ b'u' ∷ b't' ∷ b'p' ∷ b'u' ∷ b't' ∷ []

-- "help"
abbrev pub help_name : List ℕ
help_name = b'h' ∷ b'e' ∷ b'l' ∷ b'p' ∷ []

-- "help [command] : Prints a short help about an command"
abbrev pub help_help : List ℕ
help_help =
    b'h' ∷ b'e' ∷ b'l' ∷ b'p' ∷ 32 ∷ 91 ∷ b'c' ∷ b'o' ∷ b'm' ∷ b'm' ∷ b'a' ∷ b'n' ∷ b'd' ∷ 93 ∷ 32
    ∷ 58 ∷ 32 ∷ b'P' ∷ b'r' ∷ b'i' ∷ b'n' ∷ b't' ∷ b's' ∷ 32 ∷ b'a' ∷ 32 ∷ b's' ∷ b'h' ∷ b'o' ∷ b'r'
    ∷ b't' ∷ 32 ∷ b'h' ∷ b'e' ∷ b'l' ∷ b'p' ∷ 32 ∷ b'a' ∷ b'b' ∷ b'o' ∷ b'u' ∷ b't' ∷ 32 ∷ b'a'
    ∷ b'n' ∷ 32 ∷ b'c' ∷ b'o' ∷ b'm' ∷ b'm' ∷ b'a' ∷ b'n' ∷ b'd' ∷ []

-- "cmdlist"
abbrev pub cmdlist_name : List ℕ
cmdlist_name = b'c' ∷ b'm' ∷ b'd' ∷ b'l' ∷ b'i' ∷ b's' ∷ b't' ∷ []

-- "cmdlist : List all commands"
abbrev pub cmdlist_help : List ℕ
cmdlist_help =
    b'c' ∷ b'm' ∷ b'd' ∷ b'l' ∷ b'i' ∷ b's' ∷ b't' ∷ 32 ∷ 58 ∷ 32 ∷ b'L' ∷ b'i' ∷ b's' ∷ b't' ∷ 32
    ∷ b'a' ∷ b'l' ∷ b'l' ∷ 32 ∷ b'c' ∷ b'o' ∷ b'm' ∷ b'm' ∷ b'a' ∷ b'n' ∷ b'd' ∷ b's' ∷ []

-- "trace "
abbrev pub trace_prefix : List ℕ
trace_prefix = b't' ∷ b'r' ∷ b'a' ∷ b'c' ∷ b'e' ∷ 32 ∷ []

-- "debug "
abbrev pub debug_prefix : List ℕ
debug_prefix = b'd' ∷ b'e' ∷ b'b' ∷ b'u' ∷ b'g' ∷ 32 ∷ []

-- "WARNING : "
abbrev pub warn_prefix : List ℕ
warn_prefix = b'W' ∷ b'A' ∷ b'R' ∷ b'N' ∷ b'I' ∷ b'N' ∷ b'G' ∷ 32 ∷ 58 ∷ 32 ∷ []

-- "ERROR! "
abbrev pub err_prefix : List ℕ
err_prefix = b'E' ∷ b'R' ∷ b'R' ∷ b'O' ∷ b'R' ∷ 33 ∷ 32 ∷ []

-- "CRITICAL ERROR! "
abbrev pub critical_prefix : List ℕ
critical_prefix =
    b'C' ∷ b'R' ∷ b'I' ∷ b'T' ∷ b'I' ∷ b'C' ∷ b'A' ∷ b'L' ∷ 32 ∷ b'E' ∷ b'R' ∷ b'R' ∷ b'O' ∷ b'R'
    ∷ 33 ∷ 32 ∷ []
