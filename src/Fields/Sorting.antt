-- ===== src/Fields/Sorting.antt =====
-- The order of a review's items: the sort in `review` of
-- backend/src/job_apply_pro/services/field_coverage.py, which permutes them.
use mathlib.Core.Path.{subst}
use mathlib.Core.List.{Memᴰ, Permᴰ}
use mathlib.Core.List.Permᴰ
use job_apply_pro.Base.{
  arith, if◌then◌else◌, Bool-cases, option_eq, nat_eq, string_eq, length, Mem-cons, suc, String,
  ◌≡◌, refl, sym, ap, ◌∙◌, inl, inr, List, [], ◌∷◌,
}
use job_apply_pro.Fields.Classification.{ApplicationFieldCoverageItem}
use job_apply_pro.Fields.Coverage.{item_before, insert_item, sort_items}

module _ (casefold : String → String) where
  insert_item-Mem :
      (i j : ApplicationFieldCoverageItem) (items : List ApplicationFieldCoverageItem)
      → Memᴰ i (insert_item casefold j items)
      → Memᴰ i (j ∷ items)
  unfolding insert_item
  insert_item-Mem i j [] m = m
  insert_item-Mem i j (k ∷ items) m = elim (Bool-cases (item_before casefold k j)) [
    | inl before ↦
        elim (Mem-cons (
          subst (λ b. Memᴰ i (if b then k ∷ insert_item casefold j items else j ∷ k ∷ items)) before
            m)) [
              | inl e ↦ Memᴰ.tail (Memᴰ.head e)
              | inr later ↦ elim (Mem-cons (insert_item-Mem i j items later)) [
                | inl e ↦ Memᴰ.head e
                | inr among ↦ Memᴰ.tail (Memᴰ.tail among)
              ]
            ]
    | inr after ↦
        subst (λ b. Memᴰ i (if b then k ∷ insert_item casefold j items else j ∷ k ∷ items)) after m
  ]

  pub sort_items-Mem :
      (i : ApplicationFieldCoverageItem) (items : List ApplicationFieldCoverageItem)
      → Memᴰ i (sort_items casefold items)
      → Memᴰ i items
  unfolding sort_items
  sort_items-Mem i [] m = m
  sort_items-Mem i (j ∷ items) m =
      elim (Mem-cons (insert_item-Mem i j (sort_items casefold items) m)) [
        | inl e ↦ Memᴰ.head e
        | inr later ↦ Memᴰ.tail (sort_items-Mem i items later)
      ]

  insert_item-Perm :
      (i : ApplicationFieldCoverageItem) (items : List ApplicationFieldCoverageItem)
      → Permᴰ (insert_item casefold i items) (i ∷ items)
  unfolding insert_item
  insert_item-Perm i [] = Permᴰ.refl (i ∷ [])
  insert_item-Perm i (j ∷ items) = elim (Bool-cases (item_before casefold j i)) [
    | inl before ↦
        subst
          (λ b.
            Permᴰ (if b then j ∷ insert_item casefold i items else i ∷ j ∷ items) (i ∷ j ∷ items))
          (sym before)
          (Permᴰ.trans (Permᴰ.cons refl (insert_item-Perm i items)) (Permᴰ.swap refl refl))
    | inr after ↦
        subst
          (λ b.
            Permᴰ (if b then j ∷ insert_item casefold i items else i ∷ j ∷ items) (i ∷ j ∷ items))
          (sym after) (Permᴰ.refl (i ∷ j ∷ items))
  ]

  pub sort_items-Perm :
      (items : List ApplicationFieldCoverageItem) → Permᴰ (sort_items casefold items) items
  unfolding sort_items
  sort_items-Perm [] = Permᴰ.refl []
  sort_items-Perm (i ∷ items) =
      Permᴰ.trans (insert_item-Perm i (sort_items casefold items))
        (Permᴰ.cons refl (sort_items-Perm items))

  length-insert_item :
      (i : ApplicationFieldCoverageItem) (items : List ApplicationFieldCoverageItem)
      → length (insert_item casefold i items) ≡ suc (length items)
  unfolding insert_item
  length-insert_item i [] = refl
  length-insert_item i (j ∷ items) = ground (arith, length-insert_item i items)

  pub length-sort_items :
      (items : List ApplicationFieldCoverageItem)
      → length (sort_items casefold items) ≡ length items
  unfolding sort_items
  length-sort_items [] = refl
  length-sort_items (i ∷ items) =
      length-insert_item i (sort_items casefold items) ∙ ap (λ n. suc n) (length-sort_items items)
