-- ===== src/Allocator/Blocks.antt =====
-- The heap as a list of blocks in address order, with no addresses and no headers: what an
-- allocator of first-fit with splitting and coalescing promises.
use stm32_cli_os.Prelude.{
  ℕ, ◌+◌, ◌-◌, Bool, true, false, ◌&&◌, Option, none, some, List, [], ◌∷◌, ◌++◌, leb, if◌then◌else◌,
  sum_of,
}

pub record Block : Type 0 where
  pub size : ℕ
  pub is_free : Bool

abbrev pub free_block : ℕ → Block
free_block n = record { size = n; is_free = true }

abbrev pub used_block : ℕ → Block
used_block n = record { size = n; is_free = false }

-- The bytes that a list of blocks covers, headers included.
abbrev pub extent : Block → ℕ
extent b = 8 + b.size

abbrev pub span : List Block → ℕ
span = sum_of extent

-- What the four counters count.
abbrev pub free_bytes : List Block → ℕ
free_bytes = sum_of (λ b. if b.is_free then b.size else 0)

abbrev pub used_bytes : List Block → ℕ
used_bytes = sum_of (λ b. if b.is_free then 0 else b.size)

abbrev pub free_count : List Block → ℕ
free_count = sum_of (λ b. if b.is_free then 1 else 0)

abbrev pub used_count : List Block → ℕ
used_count = sum_of (λ b. if b.is_free then 0 else 1)

abbrev pub fits : ℕ → Block → Bool
fits n b = b.is_free && leb n b.size

-- A block of size `s` used for `n` bytes: the rest is split off if it holds a header and a word.
abbrev pub carve : ℕ → ℕ → List Block
carve n s = if leb (n + 12) s then used_block n ∷ free_block (s - n - 8) ∷ [] else used_block s ∷ []

-- The offset of the first block that fits, and the list after it is used.
unfoldable pub first_fit : ℕ → List Block → Option (ℕ × List Block)
first_fit n [] = none
first_fit n (b ∷ bs) =
    if fits n b
    then some (0, carve n b.size ++ bs)
    else elim (first_fit n bs) [ none ↦ none | some (off, bs') ↦ some (extent b + off, b ∷ bs') ]

-- The list with every run of free blocks joined into one; `b` is the block in front.
unfoldable pub coalesce_from : Block → List Block → List Block
coalesce_from b [] = b ∷ []
coalesce_from b (c ∷ cs) = elim (b.is_free && c.is_free) [
  | true ↦ coalesce_from (free_block (b.size + 8 + c.size)) cs
  | false ↦ b ∷ coalesce_from c cs
]

unfoldable pub coalesce : List Block → List Block
unfolding coalesce_from
coalesce [] = []
coalesce (b ∷ bs) = coalesce_from b bs
