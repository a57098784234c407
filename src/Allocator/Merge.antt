-- ===== src/Allocator/Merge.antt =====
-- The loop of `allocator_free`: adjacent free blocks are joined, as `coalesce` says.
use stm32_cli_os.Prelude.{
  ℕ, zero, suc, ◌+◌, ◌-◌, ◌%◌, ◌<◌, ◌≤◌, ◌≡◌, refl, sym, ap, ap₂, subst, ◌∙◌, ◌⊎◌, inl, inr, true,
  false, ◌&&◌, Option, some, List, [], ◌∷◌, ◌++◌, append_assoc, arith, add32, sub32, u32, ==_ne,
  Bool-cases, length, All-right, sum_of-append,
}
use stm32_cli_os.Memory.{load32, store32, store32-ne, load32-store32_self, load32-store32_ne}
use stm32_cli_os.Allocator.{Heap, null, get_size, update_size_and_free, merge, merge_loop}
use stm32_cli_os.Allocator.Blocks.{Block, free_block, extent, span, coalesce_from}
use stm32_cli_os.Allocator.Chain.{Chain-frame, Represents, IsAligned, link, link-lt}
use stm32_cli_os.Allocator.Find.{get_free-tag}
use stm32_cli_os.Allocator.Data.{InData, KeepsData, InData-header, InData-replace}
use stm32_cli_os.Allocator.Replace.{At, At-block, Represents-replace}

-- The heap after the free blocks at `x`, of sizes `s` and `t`, are joined; `z` is the link behind.
merged : Heap → ℕ → ℕ → ℕ → ℕ → Heap
merged h x s t z = record h {
  mem = store32 (store32 h.mem x (s + 8 + t + 1)) (x + 4) z;
  free_mem = h.free_mem + 8;
  free_blocks = h.free_blocks - 1;
}

module _ (h : Heap) (s t x : ℕ) (post : List Block) (ht : t % 4 ≡ 0)
    (a : At h x (free_block s) (free_block t ∷ post)) where
  merge-eq : merge h x ≡ merged h x s t (link (x + 8 + s + 8 + t) post)
  unfolding merge merged
  merge-eq =
      let top = a.top in
      let memory = a.memory in
      let bytes = a.bytes in
      let count = a.count in
      let one : 1 ≤ h.free_blocks = omega (arith, a.free_one) in
      let sz : s % 4 ≡ 0 = a.size_aligned in
      let y : ℕ = x + 8 + s in
      let w : ℕ = s + 8 + t + 1 in
      let c = a.chain in
      let e₁ : get_size (s + 1) ≡ s = omega arith in
      let e₂ : get_size (t + 1) ≡ t = omega arith in
      let e₃ : add32 (add32 s 8) t ≡ s + 8 + t = omega arith in
      let e₄ : update_size_and_free (s + 8 + t) 1 ≡ w = omega arith in
      let n₁ : load32 (store32 h.mem x w) (x + 4) ≡ y =
        load32-store32_ne h.mem x (x + 4) w (inr (omega arith)) ∙ c.1 in
      let n₂ : load32 (store32 h.mem x w) (y + 4) ≡ link (y + 8 + t) post =
        load32-store32_ne h.mem x (y + 4) w (inr (omega arith)) ∙ c.2.1 in
      let e₅ : add32 h.free_mem 8 ≡ h.free_mem + 8 = omega arith in
      let e₆ : sub32 h.free_blocks 1 ≡ h.free_blocks - 1 = omega arith in
      rw (c.0, e₁, c.1, c.2.0, e₂, e₃, e₄, n₁, n₂, e₅, e₆)

module _ (h : Heap) (s t : ℕ) (pre post : List Block)
    (r : Represents h (pre ++ (free_block s ∷ free_block t ∷ post))) where
  merge-Represents :
      Represents (merge h (h.head + span pre)) (pre ++ (free_block (s + 8 + t) ∷ post))
      × ((p : ℕ)
          → (p < h.head + span pre) ⊎ (h.head + span pre + 8 ≤ p)
          → (merge h (h.head + span pre)).mem p ≡ h.mem p)
  unfolding merged
  merge-Represents =
      let a = At-block h pre (free_block s) (free_block t ∷ post) r in
      let al = All-right IsAligned pre (free_block s ∷ free_block t ∷ post) r.aligned in
      let ht : t % 4 ≡ 0 = al.1.0 in
      let hs : s % 4 ≡ 0 = a.size_aligned in
      let x : ℕ = h.head + span pre in
      let z : ℕ = x + 8 + s + 8 + t in
      let top : z < u32 = omega (arith, a.top, a.memory) in
      let one : 1 ≤ h.free_blocks = omega (arith, a.free_one) in
      let e : z ≡ x + 8 + (s + 8 + t) = omega arith in
      let w : ℕ = s + 8 + t + 1 in
      let l : ℕ = link z post in
      let out : (p : ℕ) → (p < x) ⊎ (x + 8 ≤ p) → (merged h x s t l).mem p ≡ h.mem p = λ p o.
        store32-ne (store32 h.mem x w) (x + 4) l p (omega arith)
        ∙ store32-ne h.mem x w p (omega arith) in
      rw (merge-eq h s t x post ht a) (
        Represents-replace h pre (free_block s) (free_block t ∷ []) post r (merged h x s t l)
            (free_block (s + 8 + t)) [] refl refl (omega arith) (omega arith, tt)
            (λ p lo hi. out p (inl hi))
            (
              load32-store32_ne (store32 h.mem x w) (x + 4) x l (inl (omega arith))
                  ∙ load32-store32_self h.mem x w (omega arith),
              load32-store32_self (store32 h.mem x w) (x + 4) l (link-lt z post top)
                  ∙ ap (λ q. link q post) e,
              rw (← e)
                  (Chain-frame h.mem _ z post (λ p lo hi. out p (inr (omega arith))) a.chain.2.2),
            )
            (omega arith) (omega arith) (omega arith) (omega arith),
        out,
      )

-- Where the loop ends, and what it keeps.
pub record Merges (h : Heap) (bs : List Block) (result : Option Heap) (bs' : List Block)
    : Type 0 where
  pub after : Heap
  pub ends : result ≡ some after
  pub represents : Represents after bs'
  pub same_head : after.head ≡ h.head
  pub keeps : KeepsData h after bs

InData-merge :
    (p x : ℕ) (b c : Block) (post : List Block)
    → b.is_free ≡ true
    → c.is_free ≡ true
    → InData p x (b ∷ c ∷ post)
    → InData p x (free_block (b.size + 8 + c.size) ∷ post)
InData-merge p x b c post eb ec (inl d) = absurd (cc (d.0))
InData-merge p x b c post eb ec (inr (inl d)) = absurd (cc (d.0))
InData-merge p x b c post eb ec (inr (inr d)) =
    let e : x + 8 + b.size + 8 + c.size ≡ x + 8 + (b.size + 8 + c.size) = omega arith in
    inr (rw e at d)

free_pair :
    (b c : Block)
    → (b.is_free && c.is_free) ≡ true
    → (b ≡ free_block b.size) × (c ≡ free_block c.size) × (b.is_free ≡ true) × (c.is_free ≡ true)
free_pair b c e = ground arith

head-merge : (h : Heap) (x : ℕ) → (merge h x).head ≡ h.head
unfolding merge
head-merge h x = refl

module _ (h : Heap) (pre : List Block) (b c : Block) (cs : List Block) (x : ℕ)
    (at_x : x ≡ h.head + span pre) (r : Represents h (pre ++ (b ∷ c ∷ cs))) {result : Option Heap}
    {bs' : List Block} where
  -- A round that joins two blocks, and the rounds after it.
  Merges-merge :
      (b.is_free && c.is_free) ≡ true
      → (Represents (merge h x) (pre ++ (free_block (b.size + 8 + c.size) ∷ cs))
          → Merges (merge h x) (pre ++ (free_block (b.size + 8 + c.size) ∷ cs)) result bs')
      → Merges h (pre ++ (b ∷ c ∷ cs)) result bs'
  unfolding merge
  Merges-merge both next_rounds =
      let (eb, ec, fb, fc) = free_pair b c both in
      let e : pre ++ (b ∷ c ∷ cs) ≡ pre ++ (free_block b.size ∷ free_block c.size ∷ cs) =
        ap₂ (λ u v. pre ++ (u ∷ v ∷ cs)) eb ec in
      let (joined, out) =
        rw (← at_x) at (merge-Represents h b.size c.size pre cs (subst (Represents h) e r)) in
      let m = next_rounds joined in
      record {
        after = m.after;
        ends = m.ends;
        represents = m.represents;
        same_head = m.same_head;
        keeps = λ p d.
            m.keeps p (
              InData-replace p h.head pre (b ∷ c ∷ cs) (free_block (b.size + 8 + c.size) ∷ cs)
                (λ y _ q. InData-merge p y b c cs fb fc q) d)
            ∙ out p (rw (← at_x) at (InData-header p h.head pre b (c ∷ cs) d));
      }

module _ (b c : Block) (cs : List Block) where
  pub coalesce_from-join :
      (b.is_free && c.is_free) ≡ true
      → coalesce_from b (c ∷ cs) ≡ coalesce_from (free_block (b.size + 8 + c.size)) cs
  unfolding coalesce_from
  coalesce_from-join e = rw (e, coalesce_from)

  pub coalesce_from-skip :
      (b.is_free && c.is_free) ≡ false → coalesce_from b (c ∷ cs) ≡ b ∷ coalesce_from c cs
  unfolding coalesce_from
  coalesce_from-skip e = rw (e, coalesce_from)

pub coalesce_from-nil : (b : Block) → coalesce_from b [] ≡ b ∷ []
unfolding coalesce_from
coalesce_from-nil b = refl

pub merge_loop-Merges :
    (k : ℕ) (h : Heap) (pre : List Block) (b : Block) (bs : List Block) (x : ℕ)
    → x ≡ h.head + span pre
    → length bs < k
    → Represents h (pre ++ (b ∷ bs))
    → Merges h (pre ++ (b ∷ bs)) (merge_loop k h x) (pre ++ coalesce_from b bs)
unfolding merge_loop
merge_loop-Merges zero h pre b bs x e lt r = elim lt [ ]
merge_loop-Merges (suc k) h pre b [] x e lt r =
    let a = subst (λ y. At h y b []) (sym e) (At-block h pre b [] r) in
    rw (==_ne x null (omega (arith, a.above)), a.chain.1, coalesce_from-nil b)
      (record { after = h; ends = refl; represents = r; same_head = refl; keeps = λ p d. refl })
merge_loop-Merges (suc k) h pre b (c ∷ cs) x e lt r =
    let a = subst (λ y. At h y b (c ∷ cs)) (sym e) (At-block h pre b (c ∷ cs) r) in
    let live = ==_ne x null (omega (arith, a.above)) in
    let more = ==_ne (x + 8 + b.size) null (omega arith) in
    let al = All-right IsAligned pre (b ∷ c ∷ cs) r.aligned in
    let flag = get_free-tag b al.0 in
    let flag' = get_free-tag c al.1.0 in
    rw (live, a.chain.1, more, a.chain.0, a.chain.2.0, flag, flag')
      (elim (Bool-cases (b.is_free && c.is_free)) [
        | inl both ↦
            rw (both, coalesce_from-join b c cs both)
              (Merges-merge h pre b c cs x e r both (
                merge_loop-Merges k (merge h x) pre (free_block (b.size + 8 + c.size)) cs x
                  (e ∙ ap (λ y. y + span pre) (sym (head-merge h x))) (omega arith)))
        | inr apart ↦
            rw (apart, coalesce_from-skip b c cs apart)
              (let e₁ = append_assoc pre (b ∷ []) (c ∷ cs) in
                let e₂ = append_assoc pre (b ∷ []) (coalesce_from c cs) in
                let e₃ : x + 8 + b.size ≡ h.head + span (pre ++ (b ∷ [])) =
                  omega (arith, e, sum_of-append extent pre (b ∷ [])) in
                rw (← e₁, ← e₂)
                  (merge_loop-Merges k h (pre ++ (b ∷ [])) c cs (x + 8 + b.size) e₃ (omega arith)
                    (subst (Represents h) (sym e₁) r)))
      ])
