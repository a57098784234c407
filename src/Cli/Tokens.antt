-- ===== src/Cli/Tokens.antt =====
-- `cli_tokenize` of core/cli.c, on the line buffer. A `char *` into it is an index.
use stm32_cli_os.Prelude.{
  ℕ, zero, suc, ◌+◌, Bool, true, false, ◌||◌, List, [], ◌∷◌, leb, ◌==◌, if◌then◌else◌, put,
}
use stm32_cli_os.Cli.{Text, cli_max_line_len}

abbrev pub cli_max_args : ℕ
cli_max_args = 16

abbrev pub Buffer : Type 0
Buffer = ℕ → ℕ

abbrev pub is_space : ℕ → Bool
is_space c = (c == b' ') || (c == b'\t')

-- The loop that skips spaces: the buffer, `line` and `is_token` behind it. The first argument bounds
-- the rounds.
unfoldable pub skip_spaces : ℕ → Buffer → ℕ → Bool → Buffer × ℕ × Bool
skip_spaces zero b line is_token = (b, line, is_token)
skip_spaces (suc k) b line is_token =
    let rest = skip_spaces k (put b line 0) (line + 1) false in
    if is_space (b line) then rest else (b, line, is_token)

-- The outer loop, with the rounds left: the buffer behind it and what it still writes to `argv`.
unfoldable pub tokenize_loop : ℕ → Buffer → ℕ → Bool → ℕ → Buffer × List ℕ
tokenize_loop zero b line is_token argc = (b, [])
tokenize_loop (suc k) b line is_token argc =
    let (b', start, in_token) = skip_spaces (suc k) b line is_token in
    let argc' = if in_token then argc else argc + 1 in
    let (end, argv) = tokenize_loop k b' (start + 1) true argc' in
    if (b line == 0) || leb cli_max_args argc
    then (b, [])
    else if b' start == 0
    then (b', [])
    else (end, if in_token then argv else start ∷ argv)

-- The buffer and `argv`; `argc` is the length of `argv`.
unfoldable pub cli_tokenize : Buffer → Buffer × List ℕ
cli_tokenize b = tokenize_loop cli_max_line_len b 0 false 0

-- The C string at an index of the buffer, for a bound on its length.
unfoldable pub string_at : ℕ → Buffer → ℕ → Text
string_at zero b p = []
string_at (suc k) b p = let rest = string_at k b (p + 1) in if b p == 0 then [] else b p ∷ rest
