-- ===== src/Malloc/Coalesce.antt =====
-- `coalesce` of malloclab/src/mm.c on a heap in which one free block is not in the free list.
use mathlib.Core.Path.{subst}
use mathlib.Core.List.{append_assoc}
use cs_app_labs.Prelude.{
  ℕ, ◌+◌, ◌≡◌, refl, sym, ap, ◌∙◌, Bool, true, false, List, [], ◌∷◌, ◌++◌, arith, Bool-cases, inl,
  inr,
}
use cs_app_labs.Malloc.Words.{Heap}
use cs_app_labs.Malloc.Blocks.{merge, coalesce}
use cs_app_labs.Malloc.Layout.{Block, block, flag, total, last_used, total-append, last_used-append}
use cs_app_labs.Malloc.Steps.{with_cells}
use cs_app_labs.Malloc.Invariant.{IsHeap}
use cs_app_labs.Malloc.Access.{head_used, block-IsAt}
use cs_app_labs.Malloc.Merging.{merge_next-IsHeap, merge_prev-IsHeap, second-IsAt}
use cs_app_labs.Malloc.Kept.{payload-swap}
use cs_app_labs.Malloc.MergeBoth.{merge_both-IsHeap}
use cs_app_labs.Malloc.Settled.{Settled, Settled-false, free_last, free_first}
use cs_app_labs.Malloc.Joined.{Joined, join_last, coalesce_run}

module _ (h : Heap) (e s : ℕ) (fs : List ℕ) where
  -- No neighbour is free.
  coalesce_none :
      (pre post : List Block)
      → IsHeap h (pre ++ block s false false ∷ post) fs
      → e ≡ h.start + 24 + total pre
      → Settled true pre
      → Settled true post
      → last_used true pre ≡ true
      → head_used post ≡ true
      → Joined h (pre ++ block s false false ∷ post) s (coalesce h e)
  unfolding merge
  coalesce_none pre post is at settled settled' before next =
      let bs = pre ++ block s false false ∷ post in
      join_last h h.cell h.free_list_head e s s pre post bs fs (coalesce h e) is at before settled
        (Settled-false post next settled') (omega arith) (λ q. refl) (λ q paid. refl)
        (coalesce_run h h e e pre s false post
          (block-IsAt h e pre (block s false false) post fs at is)
          (ap (λ (u : Bool). merge h e s (flag u) (flag (head_used post))) before
            ∙ ap (λ (u : Bool). merge h e s 1 (flag u)) next))

  coalesce_next :
      (pre : List Block) (s' : ℕ) (post : List Block)
      → IsHeap h (pre ++ block s false false ∷ (block s' false true ∷ post)) fs
      → e ≡ h.start + 24 + total pre
      → Settled true pre
      → Settled false post
      → last_used true pre ≡ true
      → Joined h (pre ++ block s false false ∷ (block s' false true ∷ post)) s (coalesce h e)
  unfolding merge
  coalesce_next pre s' post is at settled settled' before =
      let bs = pre ++ block s false false ∷ (block s' false true ∷ post) in
      let (c, f, gs, run, is', kept) = merge_next-IsHeap h e pre fs at before s s' post is in
      join_last h c f e s (s + s') pre post bs gs (coalesce h e) is' at before settled settled'
        (omega arith)
        (λ q.
          payload-swap (h.start + 24) e (e + s + s') pre
            (block s false false ∷ (block s' false true ∷ [])) (block (s + s') false false ∷ [])
            post q at (omega arith) (omega arith) refl)
        kept
        (coalesce_run h (with_cells h c f) e e pre s false (block s' false true ∷ post)
          (block-IsAt h e pre (block s false false) (block s' false true ∷ post) fs at is)
          (ap (λ (u : Bool). merge h e s (flag u) 0) before ∙ run))

  -- The block before is free.
  module _ (pre : List Block) (s' : ℕ) (at : e ≡ h.start + 24 + total pre)
      (settled : Settled true pre) (before : last_used true pre ≡ true) where
    coalesce_prev :
        (post : List Block)
        → IsHeap h (pre ++ block s' false true ∷ (block s false false ∷ post)) fs
        → Settled true post
        → head_used post ≡ true
        → Joined h
            (pre ++ block s' false true ∷ (block s false false ∷ post))
            s
            (coalesce h (e + s'))
    unfolding merge
    coalesce_prev post is settled' next =
        let bs = pre ++ block s' false true ∷ (block s false false ∷ post) in
        let (c, f, gs, run, is', kept) = merge_prev-IsHeap h e pre fs at before s' s post is in
        join_last h c f e s (s + s') pre post bs gs (coalesce h (e + s')) is' at before settled
          (Settled-false post next settled') (omega arith)
          (λ q.
            payload-swap (h.start + 24) e (e + s' + s) pre
              (block s' false true ∷ (block s false false ∷ [])) (block (s + s') false false ∷ [])
              post q at (omega arith) (omega arith) refl)
          kept
          (coalesce_run h (with_cells h c f) (e + s') e (pre ++ block s' false true ∷ []) s false
            post (second-IsAt h e pre (block s' false true) (block s false false) post fs at is)
            (ap (λ (u : Bool). merge h (e + s') s (flag u) (flag (head_used post)))
                (last_used-append true pre (block s' false true ∷ []))
              ∙ ap (λ (u : Bool). merge h (e + s') s 0 (flag u)) next
              ∙ run))

    coalesce_both :
        (s1 : ℕ) (post : List Block)
        → IsHeap h
            (pre ++ block s' false true ∷ (block s false false ∷ (block s1 false true ∷ post)))
            fs
        → Settled false post
        → Joined h
            (pre ++ block s' false true ∷ (block s false false ∷ (block s1 false true ∷ post)))
            s
            (coalesce h (e + s'))
    unfolding merge
    coalesce_both s1 post is settled' =
        let bs =
          pre ++ block s' false true ∷ (block s false false ∷ (block s1 false true ∷ post)) in
        let (c, f, gs, run, is', kept) = merge_both-IsHeap h e pre fs at before s' s s1 post is in
        join_last h c f e s (s + (s' + s1)) pre post bs gs (coalesce h (e + s')) is' at before
          settled settled' (omega arith)
          (λ q.
            payload-swap (h.start + 24) e (e + s' + s + s1) pre
              (block s' false true ∷ (block s false false ∷ (block s1 false true ∷ [])))
              (block (s + (s' + s1)) false false ∷ []) post q at (omega arith) (omega arith) refl)
          kept
          (coalesce_run h (with_cells h c f) (e + s') e (pre ++ block s' false true ∷ []) s false
            (block s1 false true ∷ post)
            (second-IsAt h e pre (block s' false true) (block s false false)
              (block s1 false true ∷ post) fs at is)
            (ap (λ (u : Bool). merge h (e + s') s (flag u) 0)
                (last_used-append true pre (block s' false true ∷ []))
              ∙ run))

-- `coalesce` puts a free block, together with its free neighbours, in the free list.
pub coalesce-IsHeap :
    (h : Heap) (e s : ℕ) (fs : List ℕ) (pre post : List Block)
    → IsHeap h (pre ++ block s false false ∷ post) fs
    → e ≡ h.start + 24 + total pre
    → Settled true pre
    → Settled true post
    → Joined h (pre ++ block s false false ∷ post) s (coalesce h e)
coalesce-IsHeap h e s fs pre post is at settled settled' = elim (Bool-cases (last_used true pre)) [
  | inl before ↦ elim (Bool-cases (head_used post)) [
    | inl next ↦ coalesce_none h e s fs pre post is at settled settled' before next
    | inr free ↦
        let (s1, post', split, settled1) = free_first post free settled' in
        subst (λ bs. Joined h (pre ++ block s false false ∷ bs) s (coalesce h e)) (sym split)
          (coalesce_next h e s fs pre s1 post'
            (subst (λ bs. IsHeap h (pre ++ block s false false ∷ bs) fs) split is) at settled
            settled1 before)
  ]
  | inr free ↦
      let (pre', s', split, before, settled0) = free_last pre free settled in
      let at' : e ≡ h.start + 24 + total pre' + s' =
        omega (arith, at, ap total split, total-append pre' (block s' false true ∷ [])) in
      let whole : (bs : List Block) → pre ++ bs ≡ pre' ++ block s' false true ∷ bs = λ bs.
        ap (λ (zs : List Block). zs ++ bs) split
        ∙ append_assoc pre' (block s' false true ∷ []) bs in
      let is' = subst (λ bs. IsHeap h bs fs) (whole (block s false false ∷ post)) is in
      let e' = h.start + 24 + total pre' in
      subst (λ bs. Joined h bs s (coalesce h e)) (sym (whole (block s false false ∷ post)))
        (subst
          (λ (r : ℕ).
            Joined h (pre' ++ block s' false true ∷ (block s false false ∷ post)) s (coalesce h r))
          (sym at')
          (elim (Bool-cases (head_used post)) [
            | inl next ↦ coalesce_prev h e' s fs pre' s' refl settled0 before post is' settled' next
            | inr free' ↦
                let (s1, post', split', settled1) = free_first post free' settled' in
                subst
                  (λ bs.
                    Joined h (pre' ++ block s' false true ∷ (block s false false ∷ bs)) s
                      (coalesce h (e' + s')))
                  (sym split')
                  (coalesce_both h e' s fs pre' s' refl settled0 before s1 post'
                    (subst
                      (λ bs. IsHeap h (pre' ++ block s' false true ∷ (block s false false ∷ bs)) fs)
                      split' is')
                    settled1)
          ]))
]
