-- ===== src/Console.antt =====
-- client/gui/console.hpp and client/gui/console.cpp: the lines of the console, its commands and what a
-- line that is entered does. Drawing is left out; `ImVec4` is a parameter, a text the list of its bytes.
-- The functions that others register are parameters, known by their names; they may throw. `n` is the size of the ring
-- buffer, 4096 in the code.
pub mod Texts
pub mod Sink
pub mod Lines
pub mod Trimmed
mod Tests
pub mod Entered
use tec.Base.{
  ℕ, Bool, true, false, not, Option, none, some, List, [], ◌∷◌, take, ltb, ◌==◌, if◌then◌else◌,
}
use tec.RingBuffer.{RingBuffer, full, pop_back, push_front, clear}
use tec.FilePath.Text.{same_text, slash, space}
use tec.Console.Texts.{
  unknown_help, unknown_command, echo_name, echo_help, clear_name, clear_help, help_name, help_help,
  cmdlist_name, cmdlist_help,
}
use tec.Controller.{KeyboardEvent, key_down, key_up, key_repeat, key_char}

-- What is run for a command: one of those of the constructor, or one that was registered.
pub data Command (X : Type 0) : Type 0 where
  cmdlist : Command X
  help : Command X
  clear_output : Command X
  echo : Command X
  registered : X → Command X

-- `commands`, in the order of the names: for each its function and its help.
abbrev pub Commands : Type 0 → Type 0
Commands X = List (List ℕ × (Command X × List ℕ))

pub record Console (K X : Type 0) : Type 0 where
  pub buf : RingBuffer (K × List ℕ)
  pub scroll_to_bottom : Bool
  pub resize : Bool
  pub show : Bool
  pub commands : Commands X
  pub slash_handler : Option X

-- `<` of `std::string`
unfoldable pub less_text : List ℕ → List ℕ → Bool
less_text s [] = false
less_text [] (d ∷ t) = true
less_text (c ∷ s) (d ∷ t) =
    let rest : Bool = less_text s t in if ltb c d then true else if c == d then rest else false

module _ {X : Type 0} where
  unfoldable pub find_command : List ℕ → Commands X → Option (Command X × List ℕ)
  find_command name [] = none
  find_command name ((other, command) ∷ cs) =
      let rest : Option (Command X × List ℕ) = find_command name cs in
      if same_text other name then some command else rest

  -- `commands[name] = command`
  unfoldable pub set_command : List ℕ → Command X × List ℕ → Commands X → Commands X
  set_command name command [] = (name, command) ∷ []
  set_command name command ((other, c) ∷ cs) =
      let rest : Commands X = set_command name command cs in
      if same_text other name
      then (name, command) ∷ cs
      else if less_text name other
      then (name, command) ∷ (other, c) ∷ cs
      else (other, c) ∷ rest

-- `GLFW_KEY_ESCAPE`
abbrev pub key_escape : ℕ
key_escape = 256

module _ {K X : Type 0} (n : ℕ) (white : K) where
  -- `Clear`
  unfoldable pub clear_lines : Console K X → Console K X
  clear_lines c = record c { buf = clear c.buf }

  -- `Println`, both of them.
  unfoldable pub println : K × List ℕ → Console K X → Console K X
  println line c = record c {
    buf = push_front n line (if full n c.buf then pop_back n c.buf else c.buf);
    scroll_to_bottom = true;
  }

  -- `Printfln`, of the text that its format gives.
  unfoldable pub printfln : List ℕ → Console K X → Console K X
  printfln text c = println (white, take 1023 text) c

  -- `AddConsoleCommand`
  unfoldable pub add_console_command : List ℕ → List ℕ → Command X → Console K X → Console K X
  add_console_command name text command c = record c {
    commands = set_command name (command, text) c.commands;
  }

  -- `AddSlashHandler`
  unfoldable pub add_slash_handler : X → Console K X → Console K X
  add_slash_handler f c = record c { slash_handler = some f }

  unfoldable pub print_names : Commands X → Console K X → Console K X
  print_names [] c = c
  print_names ((name, command) ∷ cs) c = print_names cs (println (white, name) c)

  -- The function of the command "help".
  unfoldable pub print_help : Option (Command X × List ℕ) → Console K X → Console K X
  print_help (some (command, text)) c = println (white, text) c
  print_help none c = println (white, unknown_help) c

  -- `On(WindowResizedEvent)` and `On(KeyboardEvent)`
  unfoldable pub on_window_resized : Console K X → Console K X
  on_window_resized c = record c { resize = true }

  unfoldable pub on_keyboard : KeyboardEvent → Console K X → Console K X
  on_keyboard e c = elim e.action [
    | key_down ↦ if e.key == key_escape then record c { show = not c.show } else c
    | key_up ↦ c
    | key_repeat ↦ c
    | key_char ↦ c
  ]

  -- The commands of the constructor.
  unfoldable pub add_defaults : Console K X → Console K X
  add_defaults c = add_console_command echo_name echo_help echo (
      add_console_command clear_name clear_help clear_output (
        add_console_command help_name help_help help
          (add_console_command cmdlist_name cmdlist_help cmdlist c)))

-- The spaces at the end are taken off.
unfoldable pub trim : List ℕ → List ℕ
trim [] = []
trim (c ∷ s) = elim (trim s) [ [] ↦ if c == space then [] else c ∷ [] | d ∷ t ↦ c ∷ d ∷ t ]

-- The command, up to the first space, and what follows that space.
unfoldable pub split_command : List ℕ → List ℕ × List ℕ
split_command [] = ([], [])
split_command (c ∷ s) =
    let (command, args) = split_command s in if c == space then ([], s) else (c ∷ command, args)

-- A call of a registered function or of the slash handler is `none` where it throws.
module _ {K X : Type 0} (n : ℕ) (white : K)
    (call : X → List ℕ → Console K X → Option (Console K X)) where
  -- The function of a command, called.
  unfoldable pub run_command : Command X → List ℕ → Console K X → Option (Console K X)
  run_command cmdlist args c = some (print_names n white c.commands c)
  run_command help args c = some (print_help n white (find_command args c.commands) c)
  run_command clear_output args c = some (clear_lines n white c)
  run_command echo args c = some (println n white (white, args) c)
  run_command (registered f) args c = call f args c

  unfoldable pub submit : List ℕ × List ℕ → Console K X → Option (Console K X)
  submit (command, args) c = elim (find_command command c.commands) [
    | some (f, text) ↦ run_command f args (printfln n white (b']' ∷ command) c)
    | none ↦ some (println n white (white, unknown_command) c)
  ]

  -- A call of the slash handler; an empty `std::function` throws.
  unfoldable pub call_slash : Option X → List ℕ → Console K X → Option (Console K X)
  call_slash none args c = none
  call_slash (some f) args c = call f args c

  -- What `Draw` does with the line that is left when the spaces at its end are taken off.
  unfoldable pub process_input : List ℕ → Console K X → Option (Console K X)
  process_input [] c = some c
  process_input (first ∷ rest) c =
      if first == slash
      then call_slash c.slash_handler rest c
      else submit (split_command (first ∷ rest)) c

  -- What `Draw` does with a line that is entered.
  unfoldable pub enter : List ℕ → Console K X → Option (Console K X)
  enter input c = process_input (trim input) c
