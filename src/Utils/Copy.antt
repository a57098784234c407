-- ===== src/Utils/Copy.antt =====
-- What `memcpy` leaves in memory.
use stm32_cli_os.Prelude.{ℕ, zero, suc, ◌+◌, ◌<◌, ◌≤◌, ◌≡◌, refl, ap, ◌∙◌, ◌⊎◌, inl, arith}
use stm32_cli_os.Memory.{Mem, store8}
use stm32_cli_os.Utils.{memcpy}

store8_self : (m : Mem) (a v p : ℕ) → p ≡ a → store8 m a v p ≡ v
unfolding store8
store8_self m a v p e = ground arith

store8_ne : (m : Mem) (a v p : ℕ) → (p < a) ⊎ (a < p) → store8 m a v p ≡ m p
unfolding store8
store8_ne m a v p e = ground arith

pub memcpy_outside :
    (m : Mem) (dest src n p : ℕ) → (p < dest) ⊎ (dest + n ≤ p) → memcpy m dest src n p ≡ m p
unfolding memcpy
memcpy_outside m dest src zero p h = refl
memcpy_outside m dest src (suc n) p h =
    memcpy_outside (store8 m dest (m src)) (dest + 1) (src + 1) n p (omega arith)
    ∙ store8_ne m dest (m src) p (omega arith)

-- Regions that do not overlap: each byte arrives.
pub memcpy_copies :
    (m : Mem) (dest src n i p q : ℕ)
    → i < n
    → (dest + n ≤ src) ⊎ (src + n ≤ dest)
    → p ≡ dest + i
    → q ≡ src + i
    → memcpy m dest src n p ≡ m q
unfolding memcpy
memcpy_copies m dest src zero i p q lt o e f = elim lt [ ]
memcpy_copies m dest src (suc n) zero p q lt o e f =
    memcpy_outside (store8 m dest (m src)) (dest + 1) (src + 1) n p (inl (omega arith))
    ∙ (store8_self m dest (m src) p (omega arith) ∙ ap m (omega arith))
memcpy_copies m dest src (suc n) (suc i) p q lt o e f =
    memcpy_copies (store8 m dest (m src)) (dest + 1) (src + 1) n i p q (omega arith) (omega arith)
      (omega arith) (omega arith)
    ∙ store8_ne m dest (m src) q (omega arith)
