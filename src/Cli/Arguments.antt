-- ===== src/Cli/Arguments.antt =====
-- `cli_tokenize` of core/cli.c leaves the arguments of the line as C strings in the buffer.
use stm32_cli_os.Prelude.{
  ℕ, zero, suc, ◌+◌, ◌≤◌, ◌<◌, ◌≡◌, refl, sym, ap, ◌∙◌, Bool, true, false, List, [], ◌∷◌, length,
  if◌then◌else◌, ◌==◌, ==_ne, Bool-cases, inl, inr, put, leb, arith, le→leb, lt→leb, subst,
}
use stm32_cli_os.Cli.{Text}
use stm32_cli_os.Cli.Tokens.{Buffer, is_space, skip_spaces, tokenize_loop, cli_tokenize}
use stm32_cli_os.Cli.Words.{words, arguments-words}
use stm32_cli_os.Cli.Split.{
  split, arguments, length-split, CString, CStrings, drop_spaces, Skipped, skip_spaces-Skipped,
  put_ne, put_self, behind_space,
}

-- The token that one is in.
abbrev Inside : Buffer → ℕ → Bool → Text → Type 0
Inside b i true s = CString b i s
Inside b i false s = Unit

-- What the loop makes of a line that starts at `i`, with room for `n` arguments.
abbrev Tokens : ℕ → Buffer → ℕ → Bool → Text → Buffer × List ℕ → Type 0
Tokens n b i in_token s r =
    ((p : ℕ) → p < i → r.0 p ≡ b p)
    × Inside r.0 i in_token (split s n in_token).0
    × CStrings r.0 r.1 (split s n in_token).1

-- A line that is empty or starts with a token.
abbrev Starts : Text → Type 0
Starts [] = Unit
Starts (c ∷ s) = is_space c ≡ false

drop_spaces-Starts : (s : Text) → Starts (drop_spaces s)
unfolding drop_spaces
drop_spaces-Starts [] = tt
drop_spaces-Starts (c ∷ s) = elim (Bool-cases (is_space c)) [
  | inl space ↦ rw space (drop_spaces-Starts s)
  | inr other ↦ rw other other
]

split_space :
    (c : ℕ) (s : Text) (n : ℕ) (in_token : Bool)
    → is_space c ≡ true
    → split (c ∷ s) (suc n) in_token ≡ ([], (split s (suc n) false).1)
unfolding split
split_space c s n in_token space = rw space refl

split_inside :
    (c : ℕ) (s : Text) (n : ℕ)
    → is_space c ≡ false
    → split (c ∷ s) (suc n) true ≡ (c ∷ (split s (suc n) true).0, (split s (suc n) true).1)
unfolding split
split_inside c s n other = rw other refl

split_new :
    (c : ℕ) (s : Text) (n : ℕ)
    → is_space c ≡ false
    → split (c ∷ s) (suc n) false ≡ ([], (c ∷ (split s n true).0) ∷ (split s n true).1)
unfolding split
split_new c s n other = rw other refl

split-drop_spaces :
    (s : Text) (n : ℕ) → (split s (suc n) false).1 ≡ (split (drop_spaces s) (suc n) false).1
unfolding drop_spaces
split-drop_spaces [] n = refl
split-drop_spaces (c ∷ s) n = elim (Bool-cases (is_space c)) [
  | inl space ↦ rw (split_space c s n false space, space) (split-drop_spaces s n)
  | inr other ↦ rw other refl
]

length-drop_spaces : (s : Text) → length (drop_spaces s) ≤ length s
unfolding drop_spaces
length-drop_spaces [] = omega arith
length-drop_spaces (c ∷ s) = ground (arith, length-drop_spaces s)

-- What follows the skipping of spaces in a round, on what the other rounds return.
abbrev proceed : Buffer → ℕ → Bool → Buffer × List ℕ → Buffer × List ℕ
proceed b start in_token rest =
    if b start == 0 then (b, []) else (rest.0, if in_token then rest.1 else start ∷ rest.1)

proceed-Tokens :
    (b : Buffer) (i : ℕ) (in_token : Bool) (s : Text) (n argc : ℕ) (rounds : ℕ → Buffer × List ℕ)
    → argc + suc n ≡ 16
    → Starts s
    → CString b i s
    → ((c : ℕ) (s' : Text) (argc' n' : ℕ)
        → s ≡ c ∷ s'
        → argc' + n' ≡ 16
        → Tokens n' b (i + 1) true s' (rounds argc'))
    → Tokens
        (suc n)
        b
        i
        in_token
        s
        (proceed b i in_token (rounds (if in_token then argc else argc + 1)))
unfolding split
proceed-Tokens b i true [] n argc rounds room start h ih = rw h (λ p lt. refl, h, tt)
proceed-Tokens b i false [] n argc rounds room start h ih = rw h (λ p lt. refl, tt, tt)
proceed-Tokens b i true (c ∷ s) n argc rounds room start (here, some_char, h) ih =
    let (same, inside, strings) = ih c s argc (suc n) refl room in
    rw (here, ==_ne c 0 (omega (arith, some_char)), split_inside c s n start)
      (
        λ p lt. same p (omega (arith, lt)),
        (same i (omega arith) ∙ here, some_char, inside),
        strings,
      )
proceed-Tokens b i false (c ∷ s) n argc rounds room start (here, some_char, h) ih =
    let (same, inside, strings) = ih c s (argc + 1) n refl (omega (arith, room)) in
    rw (here, ==_ne c 0 (omega (arith, some_char)), split_new c s n start)
      (
        λ p lt. same p (omega (arith, lt)),
        tt,
        ((same i (omega arith) ∙ here, some_char, inside), strings),
      )

-- A line with a token or a space at its front, and the same line behind its spaces.
from-drop_spaces :
    (b : Buffer) (i : ℕ) (in_token : Bool) (c : ℕ) (s : Text) (n : ℕ) (r : Buffer × ℕ × Bool)
    (end : Buffer × List ℕ)
    → is_space c ≡ true
    → Skipped (put b i 0) (i + 1) s r
    → Tokens (suc n) r.0 r.1 false (drop_spaces s) end
    → Tokens (suc n) b i in_token (c ∷ s) end
from-drop_spaces b i in_token c s n r end space (skipped, le, h, outside) (same, inside, strings) =
    let before : (p : ℕ) → p < i → end.0 p ≡ b p = λ p lt.
      same p (omega (arith, lt, le))
      ∙ (skipped p (omega (arith, lt)) ∙ put_ne b i p 0 (omega (arith, lt))) in
    let stopped : end.0 i ≡ 0 =
      same i (omega (arith, le)) ∙ (skipped i (omega arith) ∙ put_self b i 0) in
    rw (split_space c s n in_token space, split-drop_spaces s n)
      (before, ended in_token stopped, strings)
  where
    ended : (t : Bool) → end.0 i ≡ 0 → Inside end.0 i t []
    ended true e = e
    ended false e = tt

Inside-whole : (b : Buffer) (i : ℕ) (t : Bool) (s : Text) → CString b i s → Inside b i t s
Inside-whole b i true s h = h
Inside-whole b i false s h = tt

CString-tail :
    (b : Buffer) (i c : ℕ) (s s' : Text) → s ≡ c ∷ s' → CString b i s → CString b (i + 1) s'
CString-tail b i c s s' e h = (subst (CString b i) e h).2

shorter :
    (k c : ℕ) (s : Text) (c' : ℕ) (s' : Text)
    → c ∷ s ≡ c' ∷ s'
    → suc (length s) < suc k
    → length s' < k
shorter k c s c' s' e lt =
    let l : suc (length s) ≡ suc (length s') = ap length e in omega (arith, l, lt)

shorter_drop :
    (k : ℕ) (s : Text) (c' : ℕ) (s' : Text) → drop_spaces s ≡ c' ∷ s' → length s < k → length s' < k
shorter_drop k s c' s' e lt =
    let l : length (drop_spaces s) ≡ suc (length s') = ap length e in
    omega (arith, l, lt, length-drop_spaces s)

abbrev then_rounds : ℕ → ℕ → Buffer × ℕ × Bool → Buffer × List ℕ
then_rounds k argc r =
    proceed r.0 r.1 r.2 (tokenize_loop k r.0 (r.1 + 1) true (if r.2 then argc else argc + 1))

round :
    (k : ℕ) (b : Buffer) (i : ℕ) (in_token : Bool) (argc : ℕ)
    → (b i == 0) ≡ false
    → leb 16 argc ≡ false
    → tokenize_loop (suc k) b i in_token argc
      ≡ then_rounds k argc (skip_spaces (suc k) b i in_token)
unfolding tokenize_loop
round k b i in_token argc there room = rw (there, room) refl

skip_none :
    (k : ℕ) (b : Buffer) (i : ℕ) (in_token : Bool)
    → is_space (b i) ≡ false
    → skip_spaces (suc k) b i in_token ≡ (b, i, in_token)
unfolding skip_spaces
skip_none k b i in_token other = rw other refl

skip_one :
    (k : ℕ) (b : Buffer) (i : ℕ) (in_token : Bool)
    → is_space (b i) ≡ true
    → skip_spaces (suc k) b i in_token ≡ skip_spaces k (put b i 0) (i + 1) false
unfolding skip_spaces
skip_one k b i in_token space = rw space refl

pub tokenize_loop-Tokens :
    (k : ℕ) (b : Buffer) (i : ℕ) (in_token : Bool) (argc : ℕ) (s : Text) (n : ℕ)
    → length s < k
    → argc + n ≡ 16
    → CString b i s
    → Tokens n b i in_token s (tokenize_loop k b i in_token argc)
unfolding tokenize_loop split
tokenize_loop-Tokens zero b i in_token argc s n lt room h = absurd (omega (arith, lt))
tokenize_loop-Tokens (suc k) b i in_token argc [] n lt room h =
    rw h (λ p less. refl, Inside-whole b i in_token [] h, tt)
tokenize_loop-Tokens (suc k) b i in_token argc (c ∷ s) zero lt room h =
    rw (h.0, ==_ne c 0 (omega (arith, h.1)), le→leb 16 argc (omega (arith, room)))
      (λ p less. refl, Inside-whole b i in_token (c ∷ s) h, tt)
tokenize_loop-Tokens (suc k) b i in_token argc (c ∷ s) (suc n) lt room h =
    let there : (b i == 0) ≡ false = ==_ne (b i) 0 (omega (arith, h.0, h.1)) in
    subst (Tokens (suc n) b i in_token (c ∷ s))
      (sym (round k b i in_token argc there (lt→leb 16 argc (omega (arith, room)))))
      (elim (Bool-cases (is_space c)) [
        | inr other ↦
            subst (λ r. Tokens (suc n) b i in_token (c ∷ s) (then_rounds k argc r))
              (sym (skip_none k b i in_token (subst (λ x. is_space x ≡ false) (sym h.0) other)))
              (proceed-Tokens b i in_token (c ∷ s) n argc (tokenize_loop k b (i + 1) true) room
                other h
                λ c' s' argc' n' e room'.
                  tokenize_loop-Tokens k b (i + 1) true argc' s' n' (shorter k c s c' s' e lt) room'
                    (CString-tail b i c' (c ∷ s) s' e h))
        | inl space ↦
            let r = skip_spaces k (put b i 0) (i + 1) false in
            let facts =
              skip_spaces-Skipped s k (put b i 0) (i + 1) (omega (arith, lt))
                (behind_space b i s h.2) in
            subst (λ r'. Tokens (suc n) b i in_token (c ∷ s) (then_rounds k argc r'))
              (sym (skip_one k b i in_token (subst (λ x. is_space x ≡ true) (sym h.0) space)))
              (from-drop_spaces b i in_token c s n r _ space facts (
                subst
                  (λ t.
                    Tokens (suc n) r.0 r.1 false (drop_spaces s) (then_rounds k argc (r.0, r.1, t)))
                  (sym facts.3)
                  (proceed-Tokens r.0 r.1 false (drop_spaces s) n argc
                    (tokenize_loop k r.0 (r.1 + 1) true) room (drop_spaces-Starts s) facts.2
                    λ c' s' argc' n' e room'.
                      tokenize_loop-Tokens k r.0 (r.1 + 1) true argc' s' n'
                        (shorter_drop k s c' s' e (omega (arith, lt))) room'
                        (CString-tail r.0 r.1 c' (drop_spaces s) s' e facts.2))))
      ])

CStrings-length :
    (b : Buffer) (ps : List ℕ) (ss : List Text) → CStrings b ps ss → length ps ≡ length ss
CStrings-length b [] [] h = refl
CStrings-length b [] (s ∷ ss) h = absurd h
CStrings-length b (p ∷ ps) [] h = absurd h
CStrings-length b (p ∷ ps) (s ∷ ss) h = ap suc (CStrings-length b ps ss h.1)

-- The arguments of a line stand in the buffer, at most 16.
abbrev pub Tokenized : Text → Buffer × List ℕ → Type 0
Tokenized s r = CStrings r.0 r.1 (arguments s) × (length r.1 ≤ 16)

pub cli_tokenize-Tokenized :
    (b : Buffer) (s : Text) → length s < 128 → CString b 0 s → Tokenized s (cli_tokenize b)
unfolding cli_tokenize
cli_tokenize-Tokenized b s lt h =
    let (same, inside, strings) = tokenize_loop-Tokens 128 b 0 false 0 s 16 lt refl h in
    (strings, omega (arith, CStrings-length _ _ _ strings, length-split s 16 false))

-- For a line below 128 characters with fewer than 16 words, separated by spaces and tabs,
-- `cli_tokenize` leaves in `argv` the addresses of C strings in the buffer that are the words in
-- order, and no other.
pub cli_tokenize-words :
    (b : Buffer) (s : Text)
    → length s < 128
    → length (words s) < 16
    → CString b 0 s
    → CStrings (cli_tokenize b).0 (cli_tokenize b).1 (words s)
cli_tokenize-words b s lt few h =
    subst (CStrings (cli_tokenize b).0 (cli_tokenize b).1) (arguments-words s few)
      (cli_tokenize-Tokenized b s lt h).0
