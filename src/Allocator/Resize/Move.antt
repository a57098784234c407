-- ===== src/Allocator/Resize/Move.antt =====
-- The copy and the release of a growing `allocator_realloc`.
use stm32_cli_os.Prelude.{
  ℕ, ◌+◌, ◌<◌, ◌≤◌, ◌≡◌, ◌≢◌, refl, ap, sym, subst, ◌∙◌, Option, some, List, ◌∷◌, ◌++◌, arith,
  ==_ne,
}
use stm32_cli_os.Utils.{memcpy}
use stm32_cli_os.Utils.Copy.{memcpy_outside, memcpy_copies}
use stm32_cli_os.Allocator.{Heap, null}
use stm32_cli_os.Allocator.Blocks.{Block, used_block, free_block, span, coalesce}
use stm32_cli_os.Allocator.Chain.{Represents}
use stm32_cli_os.Allocator.Data.{InData, InData-replace}
use stm32_cli_os.Allocator.Free.{free_refines}
use stm32_cli_os.Allocator.InPlace.{UsedAt, free-UsedAt, coalesce-UsedAt}
use stm32_cli_os.Allocator.Locate.{Kept, locate}
use stm32_cli_os.Allocator.Malloc.{Allocated}
use stm32_cli_os.Allocator.Resize.{move}
use stm32_cli_os.Allocator.Resize.Carve.{
  Carved, carve-Carved, Represents-data, InData-here, InData-other,
}

-- The old block is free, joined with its free neighbours, and its data is at the new address.
pub record Moved (h : Heap) (off s ptr : ℕ) (bs' : List Block) (result : Option (ℕ × Heap))
    : Type 0 where
  pub new_ptr : ℕ
  pub after : Heap
  pub before : List Block
  pub behind : List Block
  pub ends : result ≡ some (new_ptr, after)
  pub not_null : new_ptr ≢ null
  pub blocks : bs' ≡ before ++ (used_block s ∷ behind)
  pub offset : span before ≡ off
  pub represents : Represents after (coalesce (before ++ (free_block s ∷ behind)))
  pub same_head : after.head ≡ h.head
  pub new_size : ℕ
  pub new_off : ℕ
  pub in_use : UsedAt new_size new_off (coalesce (before ++ (free_block s ∷ behind)))
  pub address : new_ptr ≡ h.head + new_off + 8
  pub copied : (i : ℕ) → i < s → after.mem (new_ptr + i) ≡ h.mem (ptr + i)

module _ (h h₁ : Heap) (pre post : List Block) (s n p off : ℕ) (bs' : List Block)
    (a : Allocated h (pre ++ (used_block s ∷ post)) n p h₁ off bs') (fit : s ≤ n) where
  -- The new block, the old one behind the call, and how they lie.
  carved : Carved n a.size
  carved = carve-Carved n a.size a.enough

  kept : Kept s (span pre) a.size (span a.pre) bs'
  unfolding carved
  kept = rw a.result (locate pre post a.pre a.post _ s a.size carved.length a.before)

  new_block : bs' ≡ a.pre ++ (used_block carved.size ∷ (carved.rest ++ a.post))
  new_block = a.result ∙ ap (λ l. a.pre ++ (l ++ a.post)) carved.blocks

  abbrev copy : ℕ → Heap
  copy ptr = record h₁ { mem = memcpy h₁.mem p ptr s }

  copy-Represents : (ptr : ℕ) → Represents (copy ptr) bs'
  copy-Represents ptr =
      let c = carved in
      let r = subst (Represents h₁) new_block a.after in
      subst (Represents (copy ptr)) (sym new_block) (
        Represents-data h₁ a.pre (used_block c.size) (c.rest ++ a.post) (memcpy h₁.mem p ptr s) r
          λ q o.
            memcpy_outside h₁.mem p ptr s q
              (omega (arith, a.address, a.offset, a.same_head, c.enough)))

  pub move-Moved :
      (ptr : ℕ) → ptr ≡ h.head + span pre + 8 → Moved h (span pre) s ptr bs' (move ptr s (p, h₁))
  unfolding move
  move-Moved ptr e =
      let c = carved in
      let k = kept in
      let r = subst (Represents (copy ptr)) k.blocks (copy-Represents ptr) in
      let f =
        free_refines (copy ptr) s k.before k.after r ptr
          (omega (arith, e, k.offset, a.same_head)) in
      rw (==_ne p null (omega (arith, a.address)), f.ends)
        (record {
          new_ptr = p;
          after = f.after;
          before = k.before;
          behind = k.after;
          ends = refl;
          not_null = omega (arith, a.address);
          blocks = k.blocks;
          offset = k.offset;
          represents = f.represents;
          same_head = f.same_head ∙ a.same_head;
          new_size = c.size;
          new_off = span a.pre;
          in_use = coalesce-UsedAt (
              free-UsedAt a.pre (c.rest ++ a.post) k.before k.after c.size s
                (omega (arith, k.apart, k.offset)) (sym new_block ∙ k.blocks));
          address = omega (arith, a.address, a.offset);
          copied = λ i lt.
              let q : ℕ = p + i in
              let where_new : h₁.head + span a.pre + 8 ≡ p =
                omega (arith, a.address, a.offset, a.same_head) in
              let here =
                InData-here q h₁.head a.pre c.size (c.rest ++ a.post) (omega arith)
                  (omega (arith, c.enough)) in
              let new = subst (InData q h₁.head) (sym new_block ∙ k.blocks) here in
              let other =
                InData-replace q h₁.head k.before (used_block s ∷ k.after) (free_block s ∷ k.after)
                  (λ x ex d.
                    InData-other q x s k.after
                      (omega (arith, k.apart, k.offset, where_new, c.enough, c.within)) d)
                  new in
              f.keeps q other
              ∙ (memcpy_copies h₁.mem p ptr s i q (ptr + i) lt
                    (omega
                      (arith, k.apart, k.offset, where_new, e, a.same_head, c.enough, c.within))
                    refl refl
                  ∙ a.same (ptr + i)
                      (omega (arith, k.apart, k.offset, where_new, e, a.same_head, a.offset)));
        })
