-- ===== src/Cli/Editor.antt =====
-- The line editor in the loop of `cli_task_entry` of core/cli.c.
use stm32_cli_os.Prelude.{
  ℕ, ◌+◌, ◌≤◌, ◌<◌, ◌≡◌, refl, ◌∙◌, Bool, true, false, ◌&&◌, ◌||◌, List, [], ◌∷◌, length,
  if◌then◌else◌, ◌==◌, Bool-cases, inl, inr, put, leb, ltb, arith, All, lt→ltb, subst, ltb→lt,
}
use stm32_cli_os.Cli.{Text, CliContext}
use stm32_cli_os.Cli.Tokens.{Buffer}
use stm32_cli_os.Cli.Split.{CString, put_ne, put_self}
use stm32_cli_os.Cli.Task.{Handlers, task_round, task_rounds, erase_key, printable_key}

abbrev pub is_enter : ℕ → Bool
is_enter c = (c == b'\r') || (c == b'\n')

abbrev pub is_erase : ℕ → Bool
is_erase c = (c == 8) || (c == 127)

abbrev pub is_printable : ℕ → Bool
is_printable c = leb b' ' c && leb c b'~'

-- A line, its newest character first, and what a key does to it: at most 127 characters are kept.
abbrev pub erase : Text → Text
erase [] = []
erase (c ∷ line) = line

abbrev pub edit : Text → ℕ → Text
edit line c =
    if is_erase c
    then erase line
    else if is_printable c
    then if ltb (length line) 127 then c ∷ line else line
    else line

abbrev pub edits : Text → List ℕ → Text
edits line [] = line
edits line (c ∷ cs) = edits (edit line c) cs

-- The characters of a line in a buffer.
abbrev pub Holds : Buffer → Text → Type 0
Holds b [] = Unit
Holds b (c ∷ line) = (b (length line) ≡ c) × (0 < c) × Holds b line

abbrev pub LineIs : CliContext → Text → Type 0
LineIs ctx line = (ctx.line_pos ≡ length line) × (length line ≤ 127) × Holds ctx.line_buffer line

-- An editing of the line that leaves the table of commands alone.
abbrev pub Edited : CliContext → Text → CliContext → Type 0
Edited ctx line ctx' =
    LineIs ctx' line
    × (ctx'.cmd_count ≡ ctx.cmd_count)
    × (ctx'.commands ≡ ctx.commands)
    × (ctx'.prompt ≡ ctx.prompt)

pub Holds-put :
    (line : Text) (b : Buffer) (i x : ℕ) → length line ≤ i → Holds b line → Holds (put b i x) line
Holds-put [] b i x le h = tt
Holds-put (c ∷ line) b i x le (here, some_char, h) = (
  put_ne b i (length line) x (omega (arith, le)) ∙ here,
  some_char,
  Holds-put line b i x (omega (arith, le)) h,
)

-- The line in its order.
abbrev pub reverse_onto : Text → Text → Text
reverse_onto [] s = s
reverse_onto (c ∷ line) s = reverse_onto line (c ∷ s)

-- The line with its terminator.
pub Holds-CString :
    (line : Text) (b : Buffer) (s : Text)
    → Holds b line
    → CString b (length line) s
    → CString b 0 (reverse_onto line s)
Holds-CString [] b s h t = t
Holds-CString (c ∷ line) b s (here, some_char, h) t =
    let next : CString b (length line + 1) s = subst (λ p. CString b p s) (omega arith) t in
    Holds-CString line b (c ∷ s) h (here, some_char, next)

erase_key-Edited :
    (ctx : CliContext) (line : Text) → LineIs ctx line → Edited ctx (erase line) (erase_key ctx)
erase_key-Edited ctx [] h = rw h.0 ((refl, omega arith, tt), refl, refl, refl)
erase_key-Edited ctx (c ∷ line) (pos, le, h) =
    rw (lt→ltb 0 ctx.line_pos (omega (arith, pos)))
      ((omega (arith, pos), omega (arith, le), h.2), refl, refl, refl)

printable_key-Edited :
    (ctx : CliContext) (line : Text) (c : ℕ)
    → 0 < c
    → LineIs ctx line
    → Edited ctx (if ltb (length line) 127 then c ∷ line else line) (printable_key ctx c)
printable_key-Edited ctx line c some_char (pos, le, h) = elim (Bool-cases (ltb (length line) 127)) [
  | inl room ↦
      rw (pos, room)
        (
          (
            omega arith,
            omega (arith, ltb→lt (length line) 127 room),
            (
              put_self ctx.line_buffer (length line) c,
              some_char,
              Holds-put line ctx.line_buffer (length line) c (omega arith) h,
            ),
          ),
          refl,
          refl,
          refl,
        )
  | inr full ↦ rw (pos, full) ((refl, le, h), refl, refl, refl)
]

-- A printable character is not the terminator.
printable_lt : (c : ℕ) → is_printable c ≡ true → 0 < c
printable_lt c h = ground arith

module _ (handlers : Handlers) where
  task_round-Edited :
      (ctx : CliContext) (line : Text) (c : ℕ)
      → is_enter c ≡ false
      → LineIs ctx line
      → Edited ctx (edit line c) (task_round handlers ctx c)
  unfolding task_round
  task_round-Edited ctx line c not_enter h = elim (Bool-cases (is_erase c)) [
    | inl erases ↦ rw (not_enter, erases) (erase_key-Edited ctx line h)
    | inr keeps ↦ elim (Bool-cases (is_printable c)) [
      | inl printable ↦
          rw (not_enter, keeps, printable)
            (printable_key-Edited ctx line c (printable_lt c printable) h)
      | inr other ↦ rw (not_enter, keeps, other) (h, refl, refl, refl)
    ]
  ]

  -- Any keys but carriage return and line feed change the line that the buffer holds as an editor
  -- of lists does: backspace and delete take the last character away, a printable character is
  -- appended unless there are 127, other keys do nothing; the table of commands and the prompt
  -- stay.
  pub task_rounds-Edited :
      (cs : List ℕ) (ctx : CliContext) (line : Text)
      → All (λ c. is_enter c ≡ false) cs
      → LineIs ctx line
      → Edited ctx (edits line cs) (task_rounds handlers ctx cs)
  unfolding task_rounds
  task_rounds-Edited [] ctx line no_enter h = (h, refl, refl, refl)
  task_rounds-Edited (c ∷ cs) ctx line no_enter h =
      let (now, count, table, prompt) = task_round-Edited ctx line c no_enter.0 h in
      let (end, count', table', prompt') =
        task_rounds-Edited cs (task_round handlers ctx c) (edit line c) no_enter.1 now in
      (end, count' ∙ count, table' ∙ table, prompt' ∙ prompt)
