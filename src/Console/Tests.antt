-- ===== src/Console/Tests.antt =====
-- Tests of the console (client/gui/console.cpp), with a ring buffer of two lines.
use tec.Base.{
  ◌⊎◌, Option, some, ℕ, ◌≡◌, ◌≢◌, ◌↔◌, refl, arith, none, List, [], ◌∷◌, ◌++◌, true, false,
}
use tec.Base.Newest.{newest}
use tec.RingBuffer.Refine.{IsValid, contents}
use tec.FilePath.Text.{slash, space}
use tec.Console.{
  Console, registered, add_console_command, printfln, trim, enter, find_command, add_defaults, echo,
}
use tec.Console.Texts.{echo_name, echo_help}
use tec.Console.Lines.{print_all, print_all-newest}
use tec.Console.Trimmed.{line}
use tec.Console.Entered.{SlashThrows, CommandThrows, enter-add_console_command, enter_iff}

-- Colours and registered functions are numbers.
abbrev fresh : Console ℕ ℕ
fresh = record {
  buf = record { buffer = (0, []) ∷ (0, []) ∷ []; write = 0; read = 0; elements = 0 };
  scroll_to_bottom = false;
  resize = true;
  show = true;
  commands = [];
  slash_handler = none;
}

-- A function that throws where it has no arguments.
abbrev call : ℕ → List ℕ → Console ℕ ℕ → Option (Console ℕ ℕ)
call f [] c = none
call f (first ∷ rest) c = some (record c { resize = false })

fresh-IsValid : IsValid 2 fresh.buf
fresh-IsValid = record {
  cells = refl;
  small = omega arith;
  read_in = omega arith;
  held = omega arith;
  write_at = refl;
}

echoed : find_command echo_name (add_defaults 2 255 fresh).commands ≡ some (echo, echo_help)
unfolding find_command add_defaults add_console_command tec.Console.set_command
    tec.Console.less_text tec.FilePath.Text.same_text
echoed = refl

abbrev lines : List (ℕ × List ℕ)
lines = (1, b'a' ∷ []) ∷ (2, b'b' ∷ []) ∷ (3, b'c' ∷ []) ∷ []

print_all-newest_example :
    let c : Console ℕ ℕ = print_all 2 255 lines fresh in
    IsValid 2 c.buf × (contents 2 c.buf ≡ newest 2 (contents 2 fresh.buf ++ lines))
print_all-newest_example = print_all-newest 2 255 lines fresh (omega arith) fresh-IsValid

abbrev arguments : List ℕ
arguments = b'a' ∷ space ∷ b'b' ∷ []

arguments-trimmed : trim arguments ≡ arguments
unfolding trim
arguments-trimmed = refl

g-other : b'g' ≢ slash
g-other = omega arith

enter-add_console_command_example :
    let c : Console ℕ ℕ = add_console_command 2 255 (b'g' ∷ b'o' ∷ []) [] (registered 9) fresh in
    enter 2 255 call (line (b'g' ∷ b'o' ∷ []) arguments 3) c
    ≡ call 9 arguments (printfln 2 255 (b']' ∷ b'g' ∷ b'o' ∷ []) c)
enter-add_console_command_example =
    enter-add_console_command 2 255 call b'g' (b'o' ∷ []) [] arguments 3 9 fresh g-other refl
      arguments-trimmed

enter_iff_example : (enter 2 255 call (slash ∷ b'x' ∷ space ∷ []) fresh ≡ none) ↔ (
    SlashThrows 2 255 call (trim (slash ∷ b'x' ∷ space ∷ [])) fresh
    ⊎ CommandThrows 2 255 call (trim (slash ∷ b'x' ∷ space ∷ [])) fresh)
enter_iff_example = enter_iff 2 255 call (slash ∷ b'x' ∷ space ∷ []) fresh
