-- ===== src/Proc/Same.antt =====
-- Tables of processes that differ in nothing that their invariant is about.
use unix_like_os.Base.{ℕ, zero, suc, ◌≡◌, ◌⊎◌, inl, inr, refl, sym, ◌∙◌, subst, List}
use unix_like_os.Proc.{Pcb, Procs}
use unix_like_os.Proc.Inv.{Live, IsValid, live_count}
use unix_like_os.Proc.Chain.{Chain, Chain-agree}

live_count_ext :
    (f g : ℕ → Pcb) (n : ℕ)
    → ((k : ℕ) → (g k).program_id ≡ (f k).program_id)
    → live_count g n ≡ live_count f n
unfolding live_count
live_count_ext f g zero h = refl
live_count_ext f g (suc n) h = rw (h (suc n), live_count_ext f g n h)

module _ (p : Procs) (f : ℕ → Pcb) (ids : (k : ℕ) → (f k).program_id ≡ (p.pcbs k).program_id)
    (parents : (k : ℕ) → (f k).parent_id ≡ (p.pcbs k).parent_id) where
  abbrev same : Procs
  same = record p { pcbs = f }

  pub same-Live : (k : ℕ) → Live p k → Live same k
  same-Live k l = record { low = l.low; high = l.high; id = ids k ∙ l.id }

  Live-same : (k : ℕ) → Live same k → Live p k
  Live-same k l = record { low = l.low; high = l.high; id = sym (ids k) ∙ l.id }

  or_Live : (k : ℕ) → (k ≡ 0) ⊎ Live p k → (k ≡ 0) ⊎ Live same k
  or_Live k (inl z) = inl z
  or_Live k (inr l) = inr (same-Live k l)

  pub same-IsValid : (t : ℕ) → IsValid t p → IsValid t same
  same-IsValid t v = record {
    none_at_zero = ids 0 ∙ v.none_at_zero;
    ids = λ i a b. elim (v.ids i a b) [ inl z ↦ inl (ids i ∙ z) | inr l ↦ inr (same-Live i l) ];
    counted = v.counted ∙ sym (live_count_ext p.pcbs f 6 ids);
    on_screen = v.on_screen;
    current_top = v.current_top;
    top_live = λ u h. or_Live _ (v.top_live u h);
    parent_live = λ i l.
        subst (λ k. (k ≡ 0) ⊎ Live same k) (sym (parents i))
          (or_Live _ (v.parent_live i (Live-same i l)));
    one_child = λ i j a b nz e.
        v.one_child i j (Live-same i a) (Live-same j b) (λ z. nz (parents i ∙ z))
          (sym (parents i) ∙ e ∙ parents j);
    top_leaf = λ u i h l nz e.
        v.top_leaf u i h (Live-same i l) (λ z. nz (parents i ∙ z)) (sym (parents i) ∙ e);
    tops_differ = v.tops_differ;
  }

  pub same-Chain : (i : ℕ) (l : List ℕ) → Chain p i l → Chain same i l
  same-Chain i l = Chain-agree p same i l (λ k m live. (same-Live k live, parents k))
