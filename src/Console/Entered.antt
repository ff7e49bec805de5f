-- ===== src/Console/Entered.antt =====
-- What a line that is entered into the console does (client/gui/console.cpp).
use tec.Base.{
  ℕ, ◌≡◌, ◌≢◌, ◌↔◌, ◌⊎◌, refl, sym, ap, ◌∙◌, true, false, Option, none, some, List, [], ◌∷◌, ◌==◌,
  if◌then◌else◌, arith, Bool-cases, inl, inr,
}
use mathlib.Core.Option.{some-injective, none-ne-some}
use tec.FilePath.Text.{same_text, slash, same_text_refl, same_text-ne, same_text→eq}
use tec.Console.Texts.{unknown_command}
use tec.Console.Trimmed.{spaceless, line, trim-line}
use tec.Console.{
  Command, Commands, Console, cmdlist, help, clear_output, echo, println, find_command, set_command,
  less_text, registered, printfln, add_console_command, trim, split_command, run_command, submit,
  call_slash, process_input, enter,
}

same_text-apart :
    (p name other : List ℕ)
    → same_text p name ≡ false
    → same_text p other ≡ true
    → same_text name other ≡ false
same_text-apart p name other apart h =
    same_text-ne name other (λ e. absurd (cc (same_text_refl p, apart, same_text→eq p other h, e)))

module _ {X : Type 0} where
  find_command-set_command :
      (name other : List ℕ) (f : Command X × List ℕ) (cs : Commands X)
      → find_command other (set_command name f cs)
        ≡ (if same_text name other then some f else find_command other cs)
  unfolding find_command set_command
  find_command-set_command name other f [] = refl
  find_command-set_command name other f ((p, g) ∷ cs) = elim (Bool-cases (same_text p name)) [
    | inl same ↦ rw (same, same_text→eq p name same) (ground arith)
    | inr apart ↦ elim (Bool-cases (less_text name p)) [
      | inl less ↦ rw (apart, less) refl
      | inr more ↦
          rw (apart, more, find_command-set_command name other f cs)
            (elim (Bool-cases (same_text p other)) [
              | inl it ↦ rw (it, same_text-apart p name other apart it) refl
              | inr other_one ↦ rw other_one refl
            ])
    ]
  ]

cons_nil : {c : ℕ} {s : List ℕ} → [] ≢ c ∷ s
cons_nil e = cc

cons_head : {c d : ℕ} {s t : List ℕ} → c ∷ s ≡ d ∷ t → c ≡ d
cons_head e = cc

-- Why a line throws, once the spaces at its end are taken off.
module _ {K X : Type 0} (n : ℕ) (white : K)
    (call : X → List ℕ → Console K X → Option (Console K X)) where
  -- It starts with a slash, and there is no slash handler or the handler throws.
  pub record SlashThrows (input : List ℕ) (c : Console K X) : Type 0 where
    pub args : List ℕ
    pub slashed : input ≡ slash ∷ args
    pub thrown :
        (c.slash_handler ≡ none) ⊎ ((f : X) × (c.slash_handler ≡ some f) × (call f args c ≡ none))

  -- Its first word is the name of a registered command, which throws.
  pub record CommandThrows (input : List ℕ) (c : Console K X) : Type 0 where
    pub first : ℕ
    pub rest : List ℕ
    pub whole : input ≡ first ∷ rest
    pub plain : first ≢ slash
    pub function : X
    pub text : List ℕ
    pub known : find_command (split_command input).0 c.commands ≡ some (registered function, text)
    pub thrown :
        call function (split_command input).1 (printfln n white (b']' ∷ (split_command input).0) c)
        ≡ none

some-ne-none : {A : Type 0} {a : A} → some a ≡ none → ⊥
some-ne-none e = cc

module _ {K X : Type 0} (n : ℕ) (white : K)
    (call : X → List ℕ → Console K X → Option (Console K X)) where
  -- A line that starts with the name of a command.
  enter-line :
      (first : ℕ) (rest args : List ℕ) (k : ℕ) (c : Console K X)
      → first ≢ slash
      → spaceless (first ∷ rest) ≡ true
      → trim args ≡ args
      → enter n white call (line (first ∷ rest) args k) c
        ≡ submit n white call (first ∷ rest, args) c
  unfolding enter process_input
  enter-line first rest args k c plain word trimmed =
      let (r, whole, parts) = trim-line first rest args k word trimmed in
      let no : (first == slash) ≡ false = ground (arith, plain) in rw (whole, no, parts) refl

  submit-found :
      (name args text : List ℕ) (f : Command X) (c : Console K X)
      → find_command name c.commands ≡ some (f, text)
      → submit n white call (name, args) c
        ≡ run_command n white call f args (printfln n white (b']' ∷ name) c)
  unfolding submit
  submit-found name args text f c e = rw (submit, e) refl

  -- A command that was registered last under a name without spaces that does not start with a slash: a
  -- line with that name, a space, arguments that do not end in a space, and any number of spaces
  -- after them, prints the name and then calls the command with just these arguments.
  pub enter-add_console_command :
      (first : ℕ) (rest text args : List ℕ) (k : ℕ) (f : X) (c : Console K X)
      → first ≢ slash
      → spaceless (first ∷ rest) ≡ true
      → trim args ≡ args
      → let c' : Console K X = add_console_command n white (first ∷ rest) text (registered f) c in
        enter n white call (line (first ∷ rest) args k) c'
        ≡ call f args (printfln n white (b']' ∷ first ∷ rest) c')
  unfolding add_console_command run_command
  enter-add_console_command first rest text args k f c plain word trimmed =
      enter-line first rest args k
        (add_console_command n white (first ∷ rest) text (registered f) c) plain word trimmed
      ∙ submit-found (first ∷ rest) args text (registered f)
          (add_console_command n white (first ∷ rest) text (registered f) c)
          (find_command-set_command (first ∷ rest) (first ∷ rest) (registered f, text) c.commands
            ∙ rw (same_text_refl (first ∷ rest)) refl)

  call_slash_iff :
      (handler : Option X) (args : List ℕ) (c : Console K X)
      → (call_slash n white call handler args c ≡ none)
        ↔ ((handler ≡ none) ⊎ ((f : X) × (handler ≡ some f) × (call f args c ≡ none)))
  unfolding call_slash
  call_slash_iff none args c = (λ e. inl refl, λ e. refl)
  call_slash_iff (some f) args c = (
    λ e. inr (f, refl, e),
    λ e. elim e [
      | inl gone ↦ absurd (none-ne-some f (sym gone))
      | inr (g, same, thrown) ↦ ap (λ h. call h args c) (some-injective f g same) ∙ thrown
    ],
  )

  run_command-registered :
      (f : X) (args : List ℕ) (c : Console K X)
      → run_command n white call (registered f) args c ≡ call f args c
  unfolding run_command
  run_command-registered f args c = refl

  run_command-throws :
      (command : Command X) (args : List ℕ) (c : Console K X)
      → run_command n white call command args c ≡ none
      → (f : X) × (command ≡ registered f) × (call f args c ≡ none)
  unfolding run_command
  run_command-throws cmdlist args c e = absurd (some-ne-none e)
  run_command-throws help args c e = absurd (some-ne-none e)
  run_command-throws clear_output args c e = absurd (some-ne-none e)
  run_command-throws echo args c e = absurd (some-ne-none e)
  run_command-throws (registered f) args c e = (f, refl, e)

  submit-unknown :
      (name args : List ℕ) (c : Console K X)
      → find_command name c.commands ≡ none
      → submit n white call (name, args) c ≡ some (println n white (white, unknown_command) c)
  unfolding submit
  submit-unknown name args c e = rw (submit, e) refl

  submit-throws :
      (name args : List ℕ) (c : Console K X) (o : Option (Command X × List ℕ))
      → find_command name c.commands ≡ o
      → submit n white call (name, args) c ≡ none
      → (f : X) × (text : List ℕ) × (find_command name c.commands ≡ some (registered f, text))
        × (call f args (printfln n white (b']' ∷ name) c) ≡ none)
  unfolding submit
  submit-throws name args c none e thrown =
      absurd (some-ne-none (sym (submit-unknown name args c e) ∙ thrown))
  submit-throws name args c (some (command, text)) e thrown =
      let (f, same, now) =
        run_command-throws command args (printfln n white (b']' ∷ name) c)
          (sym (submit-found name args text command c e) ∙ thrown) in
      (f, text, e ∙ ap (λ k. some (k, text)) same, now)

  process_input-slash :
      (first : ℕ) (rest : List ℕ) (c : Console K X)
      → first ≡ slash
      → process_input n white call (first ∷ rest) c ≡ call_slash n white call c.slash_handler rest c
  unfolding process_input
  process_input-slash first rest c e =
      let slashed : (first == slash) ≡ true = ground (arith, e) in rw slashed refl

  process_input-plain :
      (first : ℕ) (rest : List ℕ) (c : Console K X)
      → first ≢ slash
      → process_input n white call (first ∷ rest) c
        ≡ submit n white call (split_command (first ∷ rest)) c
  unfolding process_input
  process_input-plain first rest c e =
      let other : (first == slash) ≡ false = ground (arith, e) in rw other refl

  process_input-throws :
      (input : List ℕ) (c : Console K X)
      → process_input n white call input c ≡ none
      → SlashThrows n white call input c ⊎ CommandThrows n white call input c
  unfolding process_input
  process_input-throws [] c e = absurd (some-ne-none e)
  process_input-throws (first ∷ rest) c e = elim (Bool-cases (first == slash)) [
    | inl slashed ↦
        let (there, back) = call_slash_iff c.slash_handler rest c in
        let it : first ≡ slash = ground (arith, slashed) in
        inl (record {
          args = rest;
          slashed = ap (λ x. x ∷ rest) it;
          thrown = there (sym (process_input-slash first rest c it) ∙ e);
        })
    | inr other ↦
        let it : first ≢ slash = ground (arith, other) in
        let (f, text, known, thrown) =
          submit-throws (split_command (first ∷ rest)).0 (split_command (first ∷ rest)).1 c _ refl
            (sym (process_input-plain first rest c it) ∙ e) in
        inr (record {
          first = first;
          rest = rest;
          whole = refl;
          plain = it;
          function = f;
          text = text;
          known = known;
          thrown = thrown;
        })
  ]

  throws-process_input :
      (input : List ℕ) (c : Console K X)
      → SlashThrows n white call input c ⊎ CommandThrows n white call input c
      → process_input n white call input c ≡ none
  throws-process_input input c (inl t) =
      let (there, back) = call_slash_iff c.slash_handler t.args c in
      ap (λ i. process_input n white call i c) t.slashed
      ∙ process_input-slash slash t.args c refl
      ∙ back t.thrown
  throws-process_input input c (inr t) =
      let parts = split_command input in
      ap (λ i. process_input n white call i c) t.whole
      ∙ process_input-plain t.first t.rest c t.plain
      ∙ ap (λ i. submit n white call (split_command i) c) (sym t.whole)
      ∙ submit-found parts.0 parts.1 t.text (registered t.function) c t.known
      ∙ run_command-registered t.function parts.1 (printfln n white (b']' ∷ parts.0) c)
      ∙ t.thrown

  -- A line that is entered throws just if, its spaces at the end taken off, it starts with a slash and
  -- there is no slash handler or the handler throws; or it starts with another character, up to the
  -- first space it is the name of a registered command, and the command throws, called with what
  -- follows that space.
  pub enter_iff :
      (input : List ℕ) (c : Console K X)
      → (enter n white call input c ≡ none)
        ↔ (SlashThrows n white call (trim input) c ⊎ CommandThrows n white call (trim input) c)
  unfolding enter
  enter_iff input c = (process_input-throws (trim input) c, throws-process_input (trim input) c)
