-- ===== src/Synch/Circular/Filling.antt =====
-- An element written into a free place of the buffer of synch/circular.h.
use hailburst.Prelude.{
  ℕ, suc, ◌+◌, ◌-◌, ◌%◌, ◌^◌, ◌<◌, ◌≡◌, refl, sym, ap, ◌∙◌, List, [], ◌∷◌, ◌++◌, length, update, ok,
  arith, length-append, ==_refl, le→leb,
}
use hailburst.Synch.Circular.Represents.{Represents, write_avail-length}
use hailburst.Synch.Circular.Segment.{segment, segment-suc, segment-update}
use hailburst.Synch.Circular.Defs.{CircBuf, write_done}

module _ {ℓ} {A : Type ℓ} where
  abbrev pub fill : CircBuf A → A → CircBuf A
  fill c v = record c {
    element_storage = update c.element_storage (c.next_write % c.element_count) v;
  }

  fill-Represents :
      (c : CircBuf A) (q : List A) (v : A) (spare : ℕ)
      → Represents c q spare
      → length q < c.element_count
      → Represents (fill c v) q spare
  fill-Represents c q v spare rep room = record {
    positive = rep.positive;
    small = rep.small;
    ahead = rep.ahead;
    fits = rep.fits;
    unwrapped = rep.unwrapped;
    contents =
        rep.contents
        ∙ sym (
            segment-update c.element_storage v c.element_count c.next_read (length q) c.next_write
              (omega (arith, rep.ahead)) (omega (arith, rep.ahead)));
  }

  abbrev pub filled : CircBuf A → A → CircBuf A
  filled c v = record (fill c v) { next_write = c.next_write + 1 }

  pub filled-Represents :
      (c : CircBuf A) (q : List A) (v : A) (spare : ℕ)
      → Represents c q (suc spare)
      → length q < c.element_count
      → Represents (filled c v) (q ++ v ∷ []) spare
  filled-Represents c q v spare rep room =
      let grown : length (q ++ v ∷ []) ≡ suc (length q) = omega (arith, length-append q (v ∷ [])) in
      record {
        positive = rep.positive;
        small = rep.small;
        ahead = omega (arith, grown, rep.ahead);
        fits = omega (arith, grown);
        unwrapped = omega (arith, rep.unwrapped);
        contents =
            let kept = (fill-Represents c q v (suc spare) rep room).contents in
            let here : update c.element_storage (c.next_write % c.element_count) v
                  ((c.next_read + length q) % c.element_count)
                ≡ v =
              rw (sym rep.ahead, ==_refl (c.next_write % c.element_count)) refl in
            ap (λ t. t ++ v ∷ []) kept
            ∙ ap
                (λ t.
                  segment (fill c v).element_storage c.element_count c.next_read (length q)
                  ++ t ∷ [])
                (sym here)
            ∙ sym (segment-suc (fill c v).element_storage c.element_count c.next_read (length q))
            ∙ ap (λ k. segment (fill c v).element_storage c.element_count c.next_read k)
                (sym grown);
      }

  pub write_done-fill :
      (c : CircBuf A) (q : List A) (v : A) (spare : ℕ)
      → Represents c q (suc spare)
      → length q < c.element_count
      → write_done (fill c v) 1 ≡ ok (filled c v)
  unfolding write_done
  write_done-fill c q v spare rep room =
      let avail = write_avail-length (fill c v) q (fill-Represents c q v (suc spare) rep room) in
      let low : (c.next_write + 1) % 2 ^ 32 ≡ c.next_write + 1 = omega (arith, rep.unwrapped) in
      rw (avail, le→leb 1 (c.element_count - length q) (omega arith), low) refl
